-- ===== src/Coordinator/Enqueue/Published.antt =====
-- On Enqueue (coordinator/enqueue.go) and the entries of the jobs stream.
use sentry_load.Prelude.{
  ℕ, suc, ◌≡◌, sym, ◌∙◌, ap, true, List, [], ◌∷◌, ◌++◌, append-nil, append_assoc, some, arith, map,
  Text, Bool-cases, inl, inr,
}
use sentry_load.Coordinator.Jobs.{SubJobSpec, build_sub_jobs}
use sentry_load.Coordinator.Enqueue.{Fields, Redis, jobs_stream, job_fields, publish_all, enqueue}

-- What the coordinator relies on of XADD: a command that succeeds puts its message at the end of
-- its stream.
pub record Appends {R : Type 0} (redis : Redis R) : Type 0 where
  pub entries : Text → R → List Fields
  pub appended :
      (stream : Text) (job : Fields) (r : R)
      → (redis.x_add stream job r).1 ≡ true
      → entries stream (redis.x_add stream job r).0 ≡ entries stream r ++ job ∷ []

module _ {R : Type 0} (redis : Redis R) (laws : Appends redis) where
  publish_all_sent :
      (jobs : List Fields) (r : R)
      → (publish_all redis jobs r).1 ≡ true
      → laws.entries jobs_stream (publish_all redis jobs r).0 ≡ laws.entries jobs_stream r ++ jobs
  unfolding publish_all
  publish_all_sent [] r h = sym (append-nil (laws.entries jobs_stream r))
  publish_all_sent (job ∷ jobs) r h = elim (Bool-cases (redis.x_add jobs_stream job r).1) [
    | inl sent ↦
        let r' = (redis.x_add jobs_stream job r).0 in
        let rest = publish_all_sent jobs r' (ground arith) in
        rw sent (
          rest
          ∙ (ap (λ (l : List Fields). l ++ jobs) (laws.appended jobs_stream job r sent)
              ∙ append_assoc (laws.entries jobs_stream r) (job ∷ []) jobs))
    | inr failed ↦ absurd (ground arith)
  ]

  -- An enqueued test has a fresh ID, and its sub-jobs' messages follow what was on the stream.
  pub enqueue_sent :
      (new_id : ℕ → Text) (url ramp_pattern : Text) (vus duration fanout drawn : ℕ) (r : R)
      (test_id : Text) (job_ids : List Text)
      → let (r', drawn', result) =
          enqueue redis new_id url ramp_pattern vus duration fanout drawn r in
        let specs = build_sub_jobs new_id (suc drawn) vus fanout in
        result ≡ some (test_id, job_ids)
        → (test_id ≡ new_id drawn)
          × (job_ids ≡ map (λ (s : SubJobSpec). s.job_id) specs)
          × (laws.entries jobs_stream r'
              ≡ laws.entries jobs_stream r
                ++ map (job_fields test_id url ramp_pattern duration) specs)
  unfolding enqueue
  enqueue_sent new_id url ramp_pattern vus duration fanout drawn r test_id job_ids h =
      let specs = build_sub_jobs new_id (suc drawn) vus fanout in
      let jobs = map (job_fields (new_id drawn) url ramp_pattern duration) specs in
      elim (Bool-cases (publish_all redis jobs r).1) [
        | inl sent ↦
            let id : new_id drawn ≡ test_id = ground arith in
            (
              sym id,
              ground arith,
              publish_all_sent jobs r sent
                  ∙ ap
                      (λ (t : Text).
                        laws.entries jobs_stream r
                        ++ map (job_fields t url ramp_pattern duration) specs)
                      id,
            )
        | inr failed ↦ absurd (ground arith)
      ]
