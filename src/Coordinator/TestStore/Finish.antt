-- ===== src/Coordinator/TestStore/Finish.antt =====
-- On the common part of Update and MarkAbandoned (coordinator/teststore.go).
use sentry_load.Prelude.{
  ◌≡◌, ◌≢◌, inl, inr, Bool, true, false, not, ◌&&◌, [], ◌∷◌, Option, none, some, arith, Text,
  text_eq, ◌==◌, if◌then◌else◌, Option-cases, same_iff, Map, lookup, insert, lookup-insert, Float,
}
use sentry_load.Coordinator.Snapshot.{SubJobState, TestState, all_sub_jobs_done}
use sentry_load.Coordinator.TestStore.{TestStore, change_sub_job, notify_subscribers}

module _ {F : Type 0} where
  -- The sub-job that a message names, if the store knows it.
  unfoldable pub known : Text → Text → TestStore F → Option (SubJobState F)
  known test_id job_id s = elim (lookup test_id s.tests) [
    | none ↦ none
    | some t ↦ lookup job_id t.sub_jobs
  ]

  -- The test is known and every sub-job of it is done.
  unfoldable pub is_finished : Text → TestStore F → Bool
  unfolding all_sub_jobs_done
  is_finished test_id s = elim (lookup test_id s.tests) [
    | none ↦ false
    | some t ↦ all_sub_jobs_done t.sub_jobs
  ]

  pub is_finished_lem :
      (test_id : Text) (s : TestStore F) (t : TestState F)
      → lookup test_id s.tests ≡ some t
      → is_finished test_id s ≡ all_sub_jobs_done t.sub_jobs
  unfolding is_finished
  is_finished_lem test_id s t e = ground arith

  pub known-inv :
      (test_id job_id : Text) (s : TestStore F) (sj : SubJobState F)
      → known test_id job_id s ≡ some sj
      → (t : TestState F) × (lookup test_id s.tests ≡ some t) × (lookup job_id t.sub_jobs ≡ some sj)
  unfolding known
  known-inv test_id job_id s sj h = elim (Option-cases (lookup test_id s.tests)) [
    | inl e ↦ absurd (ground arith)
    | inr (t, e) ↦ (t, e, ground arith)
  ]

  -- The owner of a test, if it is known.
  unfoldable pub owner_of : Text → TestStore F → Option Text
  owner_of test_id s = elim (lookup test_id s.tests) [ none ↦ none | some t ↦ some t.owner_id ]

module _ {F : Type 0} ⦃fl : Float F⦄ (test_id job_id : Text)
    (f : SubJobState F → SubJobState F) where
  pub change_unknown :
      (s : TestStore F)
      → known test_id job_id s ≡ none
      → change_sub_job test_id job_id f s ≡ (s, false)
  unfolding known change_sub_job
  change_unknown s h = ground arith

  pub known-change :
      (s : TestStore F) (sj : SubJobState F) (t' j' : Text)
      → known test_id job_id s ≡ some sj
      → known t' j' (change_sub_job test_id job_id f s).0
        ≡ (if test_id == t' && job_id == j' then some (f sj) else known t' j' s)
  unfolding known change_sub_job notify_subscribers
  known-change s sj t' j' h = elim (Option-cases (lookup test_id s.tests)) [
    | inl e ↦ absurd (ground arith)
    | inr (t, e) ↦
        let t2 = record t { sub_jobs = insert job_id (f sj) t.sub_jobs } in
        ground (
          arith,
          lookup-insert test_id t' t2 s.tests,
          lookup-insert job_id j' (f sj) t.sub_jobs,
          same_iff test_id t',
        )
  ]

  pub owner_of-change :
      (s : TestStore F) (t' : Text)
      → owner_of t' (change_sub_job test_id job_id f s).0 ≡ owner_of t' s
  unfolding owner_of change_sub_job notify_subscribers
  owner_of-change s t' = elim (Option-cases (lookup test_id s.tests)) [
    | inl e ↦ ground arith
    | inr (t, e) ↦ elim (Option-cases (lookup job_id t.sub_jobs)) [
      | inl e' ↦ ground arith
      | inr (sj, e') ↦
          let t2 = record t { sub_jobs = insert job_id (f sj) t.sub_jobs } in
          ground (arith, lookup-insert test_id t' t2 s.tests, same_iff test_id t')
    ]
  ]

  pub is_finished-change_ne :
      (s : TestStore F) (t' : Text)
      → test_id ≢ t'
      → is_finished t' (change_sub_job test_id job_id f s).0 ≡ is_finished t' s
  unfolding is_finished change_sub_job notify_subscribers
  is_finished-change_ne s t' ne = elim (Option-cases (lookup test_id s.tests)) [
    | inl e ↦ ground arith
    | inr (t, e) ↦ elim (Option-cases (lookup job_id t.sub_jobs)) [
      | inl e' ↦ ground arith
      | inr (sj, e') ↦
          let t2 = record t { sub_jobs = insert job_id (f sj) t.sub_jobs } in
          ground (arith, lookup-insert test_id t' t2 s.tests, same_iff test_id t')
    ]
  ]

  pub tests-change :
      (s : TestStore F) (t : TestState F) (sj : SubJobState F)
      → lookup test_id s.tests ≡ some t
      → lookup job_id t.sub_jobs ≡ some sj
      → lookup test_id (change_sub_job test_id job_id f s).0.tests
        ≡ some (record t { sub_jobs = insert job_id (f sj) t.sub_jobs })
  unfolding change_sub_job notify_subscribers
  tests-change s t sj e e' =
      let t2 = record t { sub_jobs = insert job_id (f sj) t.sub_jobs } in
      ground (arith, lookup-insert test_id test_id t2 s.tests, same_iff test_id test_id)

  -- The result reports the step from an unfinished to a finished test, and nothing else.
  pub result-change :
      (s : TestStore F)
      → (change_sub_job test_id job_id f s).1
        ≡ (not (is_finished test_id s) && is_finished test_id (change_sub_job test_id job_id f s).0)
  unfolding is_finished change_sub_job notify_subscribers
  result-change s = elim (Option-cases (lookup test_id s.tests)) [
    | inl e ↦ ground arith
    | inr (t, e) ↦ elim (Option-cases (lookup job_id t.sub_jobs)) [
      | inl e' ↦ ground arith
      | inr (sj, e') ↦
          let t2 = record t { sub_jobs = insert job_id (f sj) t.sub_jobs } in
          ground (arith, lookup-insert test_id test_id t2 s.tests, same_iff test_id test_id)
    ]
  ]

module _ {F : Type 0} where
  pub done-insert :
      (k : Text) (v : SubJobState F) (m : Map Text (SubJobState F))
      → all_sub_jobs_done m ≡ true
      → v.done ≡ true
      → all_sub_jobs_done (insert k v m) ≡ true
  unfolding all_sub_jobs_done insert
  done-insert k v [] h d = ground arith
  done-insert k v ((j, w) ∷ m) h d = ground (arith, done-insert k v m)

  pub done-insert-insert :
      (k : Text) (v w : SubJobState F) (m : Map Text (SubJobState F))
      → all_sub_jobs_done m ≡ true
      → v.done ≡ true
      → all_sub_jobs_done (insert k v (insert k w m)) ≡ true
  unfolding all_sub_jobs_done insert
  done-insert-insert k v w [] h d = ground (arith, same_iff k k)
  done-insert-insert k v w ((j, x) ∷ m) h d = ground (arith, done-insert-insert k v w m)

  pub done-insert_open :
      (k : Text) (v : SubJobState F) (m : Map Text (SubJobState F))
      → v.done ≡ false
      → all_sub_jobs_done (insert k v m) ≡ false
  unfolding all_sub_jobs_done insert
  done-insert_open k v [] d = ground arith
  done-insert_open k v ((j, w) ∷ m) d = ground (arith, done-insert_open k v m)

module _ {F : Type 0} ⦃fl : Float F⦄ where
  pub finished-change :
      (test_id job_id : Text) (f : SubJobState F → SubJobState F) (s : TestStore F)
      → ((sj : SubJobState F) → (f sj).done ≡ true)
      → is_finished test_id s ≡ true
      → is_finished test_id (change_sub_job test_id job_id f s).0 ≡ true
  unfolding is_finished change_sub_job notify_subscribers
  finished-change test_id job_id f s final h = elim (Option-cases (lookup test_id s.tests)) [
    | inl e ↦ ground arith
    | inr (t, e) ↦ elim (Option-cases (lookup job_id t.sub_jobs)) [
      | inl e' ↦ ground arith
      | inr (sj, e') ↦
          let t2 = record t { sub_jobs = insert job_id (f sj) t.sub_jobs } in
          ground (
            arith,
            lookup-insert test_id test_id t2 s.tests,
            same_iff test_id test_id,
            done-insert job_id (f sj) t.sub_jobs,
            final sj,
          )
    ]
  ]
