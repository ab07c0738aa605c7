-- ===== src/Coordinator/Postgres/Shares.antt =====
-- Share tokens: EnsureShareToken and GetByShareToken of coordinator/history.go among the other
-- calls on the tables.
use sentry_load.Prelude.{
  ◌≡◌, ◌≢◌, refl, sym, subst, inl, inr, Bool, false, not, ◌||◌, List, none, some, true, arith, All,
  Text, text_eq, Bool-cases, Option-cases, same_iff, lookup, lookup-insert_self,
}
use sentry_load.Coordinator.DomainStore.{random_token}
use sentry_load.Coordinator.Snapshot.{TestSnapshot, SubJobSnapshot}
use sentry_load.Coordinator.Postgres.{
  TestRow, Env, Database, Statement, select_sub_jobs, select_test, select_token, update_token,
  select_shared,
}
use sentry_load.Coordinator.Postgres.Queries.{owned_row, has_token, token_free}
use sentry_load.Coordinator.Postgres.History.{
  read_share_token, write_share_token, ensure_share_token, get_test, get_by_share_token,
  with_sub_jobs, load_sub_jobs, scan_test, any_abandoned,
}
use sentry_load.Coordinator.Postgres.Integrity.{IsSound}
use sentry_load.Coordinator.Postgres.Integrity.Calls.{
  Call, deletes, perform_all, perform_all_keeps, ensure_share_token-IsSound,
}
use sentry_load.Coordinator.Postgres.Sharing.{IsShared, read_share_token-inv, perform_all-IsShared}

with_sub_jobs-found :
    {F : Type 0} (collate : Text → Text → Bool) (id : Text) (r : TestRow F) (d : Database F)
    → d.env.fails select_sub_jobs ≡ false
    → (sjs : List (SubJobSnapshot F)) × (with_sub_jobs collate (some (id, r)) d
        ≡ some (some (record (scan_test id r) { sub_jobs = sjs; abandoned = any_abandoned sjs })))
unfolding with_sub_jobs scan_test any_abandoned
with_sub_jobs-found collate id r d h = elim (Option-cases (load_sub_jobs collate id d)) [
  | inl e ↦ absurd (unfold load_sub_jobs in ground arith)
  | inr (sjs, e) ↦ (sjs, rw (with_sub_jobs, e) refl)
]

module _ {F : Type 0} (token id owner : Text) where
  written :
      (d : Database F) (r : TestRow F)
      → lookup id d.tables.tests ≡ some r
      → r.owner_id ≡ owner
      → (write_share_token token id d).1 ≡ true
      → IsShared token id owner (write_share_token token id d).0.tables
  unfolding write_share_token
  written d r stored mine h =
      elim (Bool-cases (d.env.fails update_token || not (token_free token id d.tables.tests))) [
        | inl refused ↦ absurd (ground arith)
        | inr updated ↦
            let r' : TestRow F = record r { share_token = some token } in
            rw (write_share_token, updated, stored)
              (record {
                row = r';
                stored = lookup-insert_self id r' d.tables.tests;
                token_set = refl;
                owned = mine;
              })
      ]

  ensure_share_token-shares :
      (d : Database F)
      → (ensure_share_token id owner d).1 ≡ some (some token)
      → IsShared token id owner (ensure_share_token id owner d).0.tables
  unfolding ensure_share_token
  ensure_share_token-shares d h = elim (Option-cases (read_share_token id owner d)) [
    | inl unknown ↦ absurd (ground arith)
    | inr (some old, e) ↦
        let (r, stored, has, mine) = read_share_token-inv token id owner id owner (some old) d e in
        rw (ensure_share_token, e)
          (record { row = r; stored = stored; token_set = ground arith; owned = mine })
    | inr (none, e) ↦ elim (Option-cases (random_token d.env.random)) [
      | inl no_random ↦ absurd (ground arith)
      | inr (t, drawn) ↦ elim (Bool-cases (write_share_token t id d).1) [
        | inr failed ↦ absurd (ground arith)
        | inl done ↦
            let (r, stored, _, mine) = read_share_token-inv token id owner id owner none d e in
            let same : t ≡ token = ground arith in
            rw (ensure_share_token, e, drawn, done)
              (subst (λ x. IsShared token id owner (write_share_token x id d).0.tables) (sym same)
                (written d r stored mine
                  (subst (λ x. (write_share_token x id d).1 ≡ true) same done)))
      ]
    ]
  ]

  module _ (collate : Text → Text → Bool) where
    found_by_token :
        (d : Database F)
        → IsSound d.tables
        → IsShared token id owner d.tables
        → ((s : Statement) → d.env.fails s ≡ false)
        → (ensure_share_token id owner d ≡ (d, some (some token)))
          × (get_by_share_token collate token d ≡ get_test collate id owner d)
          × ((snap : TestSnapshot F) × (get_test collate id owner d ≡ some (some snap))
              × (snap.test_id ≡ id))
          × ((o : Text) → o ≢ owner → get_test collate id o d ≡ some none)
    unfolding ensure_share_token read_share_token get_by_share_token get_test owned_row
        with_sub_jobs
    found_by_token d sound h up =
        let shared =
          sound.indexed token id h.row h.stored
            (unfold has_token in ground (arith, h.token_set, same_iff token token)) in
        let mine = same_iff h.row.owner_id owner in
        let (sjs, found) = with_sub_jobs-found collate id h.row d (up select_sub_jobs) in
        (
          ground (arith, h.stored, h.token_set, h.owned, mine, up select_token),
          ground (arith, h.stored, h.owned, mine, shared, up select_shared, up select_test),
          (
            record (scan_test id h.row) { sub_jobs = sjs; abandoned = any_abandoned sjs },
            ground (arith, h.stored, h.owned, mine, up select_test, found),
            unfold scan_test in refl,
          ),
          λ o n. ground (arith, h.stored, h.owned, same_iff h.row.owner_id o, up select_test),
        )

    -- A token that EnsureShareToken returned stays the token of its test through any later calls
    -- that follow one another, whichever statements of theirs fail, as long as none deletes the
    -- test for its owner: where
    -- no statement fails, EnsureShareToken returns it again and changes nothing, the public report
    -- of the token is the owner's own report, which exists, and other users see no test.
    pub share_link_lasts :
        (d : Database F) (cs : List (Env × Call F)) (env : Env)
        → IsSound d.tables
        → (ensure_share_token id owner d).1 ≡ some (some token)
        → All (λ c. c.1 ≢ deletes id owner) cs
        → ((s : Statement) → env.fails s ≡ false)
        → let later : Database F = record {
          tables = perform_all cs (ensure_share_token id owner d).0.tables;
          env = env;
        } in
          (ensure_share_token id owner later ≡ (later, some (some token)))
          × (get_by_share_token collate token later ≡ get_test collate id owner later)
          × ((snap : TestSnapshot F) × (get_test collate id owner later ≡ some (some snap))
              × (snap.test_id ≡ id))
          × ((o : Text) → o ≢ owner → get_test collate id o later ≡ some none)
    share_link_lasts d cs env sound h n up =
        let start = (ensure_share_token id owner d).0.tables in
        let sound' : IsSound start = ensure_share_token-IsSound id owner d sound in
        found_by_token _ (perform_all_keeps cs start sound')
          (perform_all-IsShared token id owner cs start n (ensure_share_token-shares d h)) up
