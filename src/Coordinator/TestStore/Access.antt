-- ===== src/Coordinator/TestStore/Access.antt =====
-- On Snapshot, Register and CooldownRemaining (coordinator/teststore.go).
use mathlib.Core.Option
use sentry_load.Prelude.{
  ℕ, ◌+◌, ◌-◌, ◌≤◌, ◌≡◌, ◌≢◌, refl, ◌∙◌, Bool, false, ◌||◌, List, [], ◌∷◌, Option, none, some,
  arith, Text, text_eq, ◌==◌, if◌then◌else◌, same_iff, Map, lookup, insert, lookup-insert,
  lookup-insert_self, Float,
}
use sentry_load.Coordinator.Snapshot.{SubJobState, TestState, all_sub_jobs_done, no_result}
use sentry_load.Coordinator.TestStore.{TestStore, init_sub_jobs, register, cooldown_remaining}
use sentry_load.Coordinator.TestStore.Finish.{owner_of, known, is_finished}

-- Is the ID among these?
abbrev pub listed : Text → List Text → Bool
listed id [] = false
listed id (j ∷ ids) = j == id || listed id ids

module _ {F : Type 0} ⦃fl : Float F⦄ where
  -- The test as its owner sees it.
  unfoldable pub owned : Text → Text → TestStore F → Option (TestState F)
  owned test_id owner_id s = elim (lookup test_id s.tests) [
    | none ↦ none
    | some t ↦ if t.owner_id == owner_id then some t else none
  ]

  -- The IDs are registered from the left, each over what was known before.
  lookup-init :
      (ids : List Text) (m : Map Text (SubJobState F)) (id : Text)
      → lookup id (init_sub_jobs ids m) ≡ (if listed id ids then some no_result else lookup id m)
  unfolding init_sub_jobs
  lookup-init [] m id = refl
  lookup-init (j ∷ ids) m id = ground (
    arith,
    lookup-init ids (insert j no_result m) id,
    lookup-insert j id (no_result {F = F}) m,
    same_iff j id,
  )

  -- A user who submits a test at time `at` must wait until `at + cooldown`, whatever test another
  -- user submits at `later`.
  pub cooldown_after_register :
      (test_id other_test owner other url url' : Text) (ids ids' : List Text)
      (cooldown at later now : ℕ) (s : TestStore F)
      → at ≤ now
      → other ≢ owner
      → cooldown_remaining owner cooldown now
          (register other_test other url' ids' later (register test_id owner url ids at s))
        ≡ at + cooldown - now
  unfolding cooldown_remaining register
  cooldown_after_register test_id other_test owner other url url' ids ids' cooldown at later now s h
        ne =
      ground (
        arith,
        lookup-insert other owner later (insert owner at s.last_submitted),
        lookup-insert owner owner at s.last_submitted,
        same_iff other owner,
        same_iff owner owner,
      )

  all_fresh_open :
      (id : Text) (m : Map Text (SubJobState F))
      → lookup id m ≡ some no_result
      → all_sub_jobs_done m ≡ false
  unfolding lookup all_sub_jobs_done
  all_fresh_open id [] h = cc
  all_fresh_open id ((j, sj) ∷ m) h = ground (arith, all_fresh_open id m)

  -- A newly registered test with at least one job belongs to its submitter; each of its jobs, and
  -- no other, is known, with the state that has no result; it is not finished; and the other tests
  -- are as they were.
  pub register_effect :
      (test_id owner url : Text) (id : Text) (ids : List Text) (now : ℕ) (s : TestStore F)
      → let s' = register test_id owner url (id ∷ ids) now s in
        (owner_of test_id s' ≡ some owner)
        × ((j : Text) → known test_id j s' ≡ (if listed j (id ∷ ids) then some no_result else none))
        × (is_finished test_id s' ≡ false)
        × ((t : Text)
            → lookup t s'.tests
              ≡ (if test_id == t then lookup test_id s'.tests else lookup t s.tests))
  unfolding register owner_of known is_finished
  register_effect test_id owner url id ids now s =
      let jobs = init_sub_jobs {F = F} (id ∷ ids) [] in
      let each : (j : Text)
          → lookup j jobs ≡ (if listed j (id ∷ ids) then some no_result else none) =
        λ j. lookup-init (id ∷ ids) [] j ∙ unfold lookup in refl in
      let first : lookup id jobs ≡ some no_result = ground (arith, each id, same_iff id id) in
      let t : TestState F = record {
        test_id = test_id;
        owner_id = owner;
        url = url;
        created_at = now;
        sub_jobs = jobs;
      } in
      let found : lookup test_id (insert test_id t s.tests) ≡ some t =
        lookup-insert_self test_id t s.tests in
      (
        ground (arith, found),
        λ j. ground (arith, found, each j),
        ground (arith, found, all_fresh_open id jobs first),
        λ t'. ground (arith, found, lookup-insert test_id t' t s.tests, same_iff test_id t'),
      )
