-- ===== src/Coordinator/Reports/Scope.antt =====
-- On handleGetTest and handleSetWebhook (coordinator/handlers.go).
use sentry_load.Prelude.{
  ℕ, ◌≡◌, ◌≢◌, refl, ◌∙◌, ◌⊎◌, inl, inr, true, false, not, ◌&&◌, Option, none, some, [], arith,
  Text, text_eq, ◌==◌, same_iff, lookup, nat_eq, lookup-insert_self, Option-cases, Bool-cases,
  Float,
}
use sentry_load.Strings.{trim_space}
use sentry_load.Coordinator.Persister.{User}
use sentry_load.Coordinator.DomainStore.{is_valid_webhook_url}
use sentry_load.Coordinator.UserStore.{UserStore, set_webhook_url, get_by_id, deref}
use sentry_load.Coordinator.Api.{Services, Server, test_response, webhook_response}
use sentry_load.Coordinator.History.{HistoryStore}
use sentry_load.Coordinator.Snapshot.{TestState, TestSnapshot, build_snapshot}
use sentry_load.Coordinator.TestStore.{TestStore, snapshot}
use sentry_load.Coordinator.Reports.{handle_get_test, handle_set_webhook}

module _ {F P R H : Type 0} ⦃fl : Float F⦄ (sv : Services F P R H) where
  snapshot_inv :
      (id owner : Text) (s : TestStore F) (snap : TestSnapshot F)
      → snapshot id owner s ≡ some snap
      → (t : TestState F) × (lookup id s.tests ≡ some t)
        × (t.owner_id ≡ owner)
        × (snap ≡ build_snapshot t)
  unfolding snapshot
  snapshot_inv id owner s snap h = elim (Option-cases (lookup id s.tests)) [
    | inl e ↦ absurd (ground arith)
    | inr (t, e) ↦
        (t, e, ground (arith, same_iff t.owner_id owner), ground (arith, same_iff t.owner_id owner))
  ]

  get_test_mine :
      (id : Text) (user : User) (s : Server F P R H) (snap mine : TestSnapshot F)
      → snapshot id user.id s.tests ≡ some mine
      → (handle_get_test sv id user s).body ≡ test_response snap
      → snap ≡ mine
  unfolding handle_get_test
  get_test_mine id user s snap mine e h = ground arith

  from_history :
      (id : Text) (user : User) (s : Server F P R H) (snap : TestSnapshot F)
      → snapshot id user.id s.tests ≡ none
      → (handle_get_test sv id user s).body ≡ test_response snap
      → (history : HistoryStore F H) × (sv.history ≡ some history)
        × (history.get id user.id s.past ≡ some (some snap))
  unfolding handle_get_test
  from_history id user s snap e h = elim (Option-cases sv.history) [
    | inl off ↦ absurd (ground arith)
    | inr (history, on) ↦ (history, on, ground arith)
  ]

  -- The test that a user is shown is one that they own in memory, or one that the database holds for
  -- them; the view is the merged one, or the stored one.
  pub get_test_scoped :
      (id : Text) (user : User) (s : Server F P R H) (snap : TestSnapshot F)
      → (handle_get_test sv id user s).body ≡ test_response snap
      → ((t : TestState F) × (lookup id s.tests.tests ≡ some t)
          × (t.owner_id ≡ user.id)
          × (snap ≡ build_snapshot t))
        ⊎ ((history : HistoryStore F H) × (sv.history ≡ some history)
            × (history.get id user.id s.past ≡ some (some snap)))
  get_test_scoped id user s snap h = elim (Option-cases (snapshot id user.id s.tests)) [
    | inl e ↦ inr (from_history id user s snap e h)
    | inr (mine, e) ↦
        let (t, found, own, view) = snapshot_inv id user.id s.tests mine e in
        inl (t, found, own, get_test_mine id user s snap mine e h ∙ view)
  ]

pointer_of :
    (id : Text) (s : UserStore) (u : User)
    → get_by_id id s ≡ some u
    → (addr : ℕ) × (lookup id s.by_id ≡ some addr) × (lookup addr s.heap ≡ some u)
unfolding get_by_id deref
pointer_of id s u h = elim (Option-cases (lookup id s.by_id)) [
  | inl e ↦ absurd (ground arith)
  | inr (addr, e) ↦ (addr, e, ground arith)
]

pointed :
    (id : Text) (s : UserStore) (addr : ℕ) (u : User)
    → lookup id s.by_id ≡ some addr
    → lookup addr s.heap ≡ some u
    → get_by_id id s ≡ some u
unfolding get_by_id deref
pointed id s addr u e e' = ground arith

module _ {F P R H : Type 0} (sv : Services F P R H) where
  webhook_stored :
      (user known : User) (field : Text) (s : Server F P R H) (addr : ℕ)
      → lookup user.id s.users.by_id ≡ some addr
      → lookup addr s.users.heap ≡ some known
      → let (s', r) = handle_set_webhook sv user (some field) s in
        let url = trim_space field in
        ((r.body ≡ webhook_response url)
          × ((not (url == []) && not (is_valid_webhook_url sv.parse_ip sv.parse_url url)) ≡ false)
          × (lookup user.id s'.users.by_id ≡ some addr)
          × (lookup addr s'.users.heap ≡ some (record known { webhook_url = url })))
        ⊎ ((r.status ≢ 200) × (s'.users ≡ s.users))
  unfolding handle_set_webhook set_webhook_url
  webhook_stored user known field s addr e e' =
      let url = trim_space field in
      elim (Bool-cases
        (not (url == []) && not (is_valid_webhook_url sv.parse_ip sv.parse_url url))) [
          | inl bad ↦ inr (ground arith)
          | inr fine ↦
              ground
                (arith, lookup-insert_self addr (record known { webhook_url = url }) s.users.heap)
        ]

  -- Setting the webhook of a user who exists stores nothing but the empty URL or one that passes the
  -- test of webhook URLs: an answer of 200 leaves the user with the URL that it names, and any other
  -- answer leaves them the webhook that they had.
  pub set_webhook_effect :
      (user known : User) (body : Option Text) (s : Server F P R H)
      → get_by_id user.id s.users ≡ some known
      → let (s', r) = handle_set_webhook sv user body s in
        ((url : Text) × (r.body ≡ webhook_response url)
          × ((url ≡ []) ⊎ (is_valid_webhook_url sv.parse_ip sv.parse_url url ≡ true))
          × (get_by_id user.id s'.users ≡ some (record known { webhook_url = url })))
        ⊎ ((r.status ≢ 200) × (s'.users ≡ s.users))
  set_webhook_effect user known none s e = inr (unfold handle_set_webhook in (ground arith, refl))
  set_webhook_effect user known (some field) s e =
      let (addr, at, there) = pointer_of user.id s.users known e in
      elim (webhook_stored user known field s addr at there) [
        | inl (answer, fine, at', there') ↦ inl (
          trim_space field,
          answer,
          ground (arith, same_iff (trim_space field) []),
          pointed user.id _ addr _ at' there',
        )
        | inr refused ↦ inr refused
      ]
