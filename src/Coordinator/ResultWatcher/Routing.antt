-- ===== src/Coordinator/ResultWatcher/Routing.antt =====
-- On watchResults, onTestFinished and notifyFinishedTest (coordinator/resultwatcher.go).
use sentry_load.Prelude.{
  ℕ, zero, suc, subst, ◌+◌, ◌≡◌, refl, sym, ◌∙◌, ap, inl, inr, Bool, true, false, List, [], ◌∷◌,
  ◌++◌, Option, none, some, arith, map, Text, text_eq, bytes, ◌==◌, if◌then◌else◌, Bool-cases,
  Option-cases, same_iff, Map, lookup, Float, All,
}
use mathlib.Core.List.{map-append}
use sentry_load.Coordinator.Persister.{User}
use sentry_load.Coordinator.UserStore.{UserStore, get_by_id}
use sentry_load.Coordinator.History.{HistoryStore}
use sentry_load.Coordinator.Snapshot.{TestState, TestSnapshot, build_snapshot}
use sentry_load.Coordinator.TestStore.{TestStore, snapshot, snapshot_unscoped}
use sentry_load.Coordinator.TestStore.Finish.{owner_of}
use sentry_load.Coordinator.TestStore.Runs.{
  Message, reports, abandons, about, receive, receive_all, receive_effect, finishes,
}
use sentry_load.Coordinator.ResultWatcher.{
  Notice, str_field, result_update, route, notify_finished_test, on_test_finished, handle_message,
  handle_messages,
}

-- A text as often as a count says.
abbrev pub repeat : Text → ℕ → List Text
repeat url zero = []
repeat url (suc n) = url ∷ repeat url n

repeat_shift :
    (url : Text) (b : Bool) (n : ℕ)
    → (if b then url ∷ [] else []) ++ repeat url n ≡ repeat url ((if b then 1 else 0) + n)
repeat_shift url true n = let p : suc n ≡ 1 + n = omega arith in ap (repeat url) p
repeat_shift url false n = let p : n ≡ 0 + n = omega arith in ap (repeat url) p

module _ {F : Type 0} ⦃fl : Float F⦄ where
  -- The message that an entry of the stream stands for.
  unfoldable pub message_of : Map Text Text → Message F
  message_of values =
      let test_id = str_field (bytes "test_id") values in
      let job_id = str_field (bytes "job_id") values in
      if str_field (bytes "abandoned") values == bytes "true"
      then abandons test_id job_id
      else reports test_id job_id (result_update values)

  route_lem :
      (values : Map Text Text) (s : TestStore F) → route values s ≡ receive (message_of values) s
  unfolding route message_of receive
  route_lem values s = ground arith

about-message_of :
    (F : Type 0) ⦃fl : Float F⦄ (values : Map Text Text)
    → about (message_of {F = F} values) ≡ str_field (bytes "test_id") values
unfolding message_of
about-message_of F values = ground arith

module _ {F : Type 0} (users : UserStore) where
  -- The webhook that a test's owner has set.
  unfoldable pub webhook_of : Text → TestStore F → Option Text
  webhook_of test_id s = elim (owner_of test_id s) [
    | none ↦ none
    | some owner ↦ elim (get_by_id owner users) [
      | none ↦ none
      | some user ↦ if user.webhook_url == [] then none else some user.webhook_url
    ]
  ]

module _ {F H : Type 0} ⦃fl : Float F⦄ (history : Option (HistoryStore F H)) (dashboard_url : Text)
    (users : UserStore) where
  message_store :
      (values : Map Text Text) (s : TestStore F) (past : H)
      → (handle_message history dashboard_url users values s past).0
        ≡ (receive (message_of values) s).0
  unfolding handle_message
  message_store values s past = ground (arith, route_lem values s)

  -- Whatever the history and the users are, the store is left as the decoded messages leave it, in
  -- the order of the stream.
  pub handle_messages_store :
      (stream : List (Map Text Text)) (s : TestStore F) (past : H)
      → (handle_messages history dashboard_url users stream s past).0
        ≡ receive_all (map message_of stream) s
  unfolding handle_messages receive_all
  handle_messages_store [] s past = refl
  handle_messages_store (values ∷ rest) s past =
      let (s', past', notices) = handle_message history dashboard_url users values s past in
      handle_messages_store rest s' past'
      ∙ ap (receive_all (map message_of rest)) (message_store values s past)

  unscoped_lem :
      (test_id : Text) (s : TestStore F) (t : TestState F)
      → lookup test_id s.tests ≡ some t
      → snapshot_unscoped test_id s ≡ (some (build_snapshot t), t.owner_id)
  unfolding snapshot_unscoped snapshot
  unscoped_lem test_id s t e = ground (arith, same_iff t.owner_id t.owner_id)

  notified :
      (snap : TestSnapshot F) (owner : Text) (user : User) (past : H)
      → get_by_id owner users ≡ some user
      → (user.webhook_url == []) ≡ false
      → map
          (λ (n : Notice F). n.webhook_url)
          (notify_finished_test history dashboard_url users snap owner past).1
        ≡ user.webhook_url ∷ []
  unfolding notify_finished_test
  notified snap owner user past e set = ground arith

  webhook_inv :
      (test_id : Text) (s : TestStore F) (url : Text)
      → webhook_of users test_id s ≡ some url
      → (t : TestState F) × (user : User) × (lookup test_id s.tests ≡ some t)
        × (get_by_id t.owner_id users ≡ some user)
        × ((user.webhook_url == []) ≡ false)
        × (user.webhook_url ≡ url)
  unfolding webhook_of owner_of
  webhook_inv test_id s url h = elim (Option-cases (lookup test_id s.tests)) [
    | inl e ↦ absurd (ground arith)
    | inr (t, e) ↦ elim (Option-cases (get_by_id t.owner_id users)) [
      | inl e' ↦ absurd (ground arith)
      | inr (user, e') ↦ (t, user, e, e', ground arith, ground arith)
    ]
  ]

  finished_lem :
      (test_id : Text) (s : TestStore F) (past : H) (t : TestState F)
      → lookup test_id s.tests ≡ some t
      → (past' : H) × (on_test_finished history dashboard_url users test_id s past
          ≡ notify_finished_test history dashboard_url users (build_snapshot t) t.owner_id past')
  unfolding on_test_finished
  finished_lem test_id s past t e = elim (Option-cases history) [
    | inl off ↦ (past, ground (arith, unscoped_lem test_id s t e))
    | inr (db, on) ↦
        ((db.save (build_snapshot t) t.owner_id past).0, ground (arith, unscoped_lem test_id s t e))
  ]

  finished_notices :
      (test_id : Text) (s : TestStore F) (past : H) (url : Text)
      → webhook_of users test_id s ≡ some url
      → map
          (λ (n : Notice F). n.webhook_url)
          (on_test_finished history dashboard_url users test_id s past).1
        ≡ url ∷ []
  finished_notices test_id s past url h =
      let (t, user, e, found, set, is_url) = webhook_inv test_id s url h in
      let (past', run) = finished_lem test_id s past t e in
      ap (λ (o : H × List (Notice F)). map (λ (n : Notice F). n.webhook_url) o.1) run
      ∙ (notified (build_snapshot t) t.owner_id user past' found set
          ∙ ap (λ (u : Text). u ∷ []) is_url)

  owner_of-receive :
      (m : Message F) (t : Text) (s : TestStore F) → owner_of t (receive m s).0 ≡ owner_of t s
  owner_of-receive m t s = elim (receive_effect m s) [
    | inl (e, same_store) ↦ ap (λ (o : TestStore F × Bool). owner_of t o.0) same_store
    | inr (sj, e, changed, owners) ↦ owners t
  ]

  webhook_of-receive :
      (m : Message F) (t : Text) (s : TestStore F)
      → webhook_of users t (receive m s).0 ≡ webhook_of users t s
  unfolding webhook_of
  webhook_of-receive m t s = ground (arith, owner_of-receive m t s)

  message_notices :
      (values : Map Text Text) (s : TestStore F) (past : H) (url : Text)
      → webhook_of users (str_field (bytes "test_id") values) s ≡ some url
      → map
          (λ (n : Notice F). n.webhook_url)
          (handle_message history dashboard_url users values s past).2
        ≡ (if (receive (message_of values) s).1 then url ∷ [] else [])
  unfolding handle_message
  message_notices values s past url h =
      let t = str_field (bytes "test_id") values in
      let s' = (receive (message_of values) s).0 in
      elim (Bool-cases (receive (message_of values) s).1) [
        | inl done ↦ ground (
          arith,
          route_lem values s,
          finished_notices t s' past url (webhook_of-receive (message_of values) t s ∙ h),
        )
        | inr pending ↦ ground (arith, route_lem values s)
      ]

  -- Over messages about one test whose owner has set a webhook, the notices that go out are one to
  -- that webhook for each time the test finishes.
  pub notices_per_finish :
      (t url : Text) (stream : List (Map Text Text)) (s : TestStore F) (past : H)
      → All (λ values. str_field (bytes "test_id") values ≡ t) stream
      → webhook_of users t s ≡ some url
      → map
          (λ (n : Notice F). n.webhook_url)
          (handle_messages history dashboard_url users stream s past).2
        ≡ repeat url (finishes t (map message_of stream) s)
  unfolding handle_messages finishes
  notices_per_finish t url [] s past a h = refl
  notices_per_finish t url (values ∷ rest) s past a h =
      let (s', past', notices) = handle_message history dashboard_url users values s past in
      let more = (handle_messages history dashboard_url users rest s' past').2 in
      let here =
        message_notices values s past url
          (subst (λ x. webhook_of users x s ≡ some url) (sym a.0) h) in
      let stored = message_store values s past in
      let later =
        notices_per_finish t url rest s' past' a.1
          (ap (webhook_of users t) stored ∙ (webhook_of-receive (message_of values) t s ∙ h)) in
      let named : (about (message_of values) == t) ≡ true =
        (same_iff (about (message_of values)) t).1 (about-message_of F values ∙ a.0) in
      map-append (λ (n : Notice F). n.webhook_url) notices more
      ∙ (ap (λ (l : List Text). l ++ map (λ (n : Notice F). n.webhook_url) more) here
          ∙ (ap
                (λ (l : List Text).
                  (if (receive (message_of values) s).1 then url ∷ [] else []) ++ l)
                (later
                  ∙ ap (λ (x : TestStore F). repeat url (finishes t (map message_of rest) x))
                      stored)
              ∙ rw named (
                  repeat_shift url (receive (message_of values) s).1
                    (finishes t (map message_of rest) (receive (message_of values) s).0))))
