-- ===== src/Coordinator/Enqueue.antt =====
-- coordinator/enqueue.go: a test is published on the jobs stream, one message for each sub-job.
-- Redis is a parameter: `R` is its state, `x_add` the command XADD, and `none` its error. UUIDs
-- are `new_id 0`, `new_id 1`, ...: the state counts those that were drawn.
pub mod Published
use sentry_load.Prelude.{
  ℕ, zero, suc, ◌+◌, Bool, List, [], ◌∷◌, ◌++◌, Option, none, some, length, map, Text, bytes, Map,
  pos, if◌then◌else◌,
}
use sentry_load.Strconv.{itoa}
use sentry_load.Coordinator.Capacity.{count_scanned}
use sentry_load.Coordinator.Jobs.{SubJobSpec, build_sub_jobs}

abbrev pub Fields : Type 0
Fields = Map Text Text

pub record Redis (R : Type 0) : Type 0 where
  -- the new state, and whether the command succeeded
  pub x_add : Text → Fields → R → R × Bool
  -- the pages of keys that the iterator of SCAN yields for a pattern, `none` for an error
  pub scan : Text → R → List (Option (List Text))

abbrev pub jobs_stream : Text
jobs_stream = bytes "sentry:jobs"

unfoldable pub job_fields : Text → Text → Text → ℕ → SubJobSpec → Fields
job_fields test_id url ramp_pattern duration_seconds spec =
    (bytes "id", spec.job_id)
    ∷ (bytes "test_id", test_id)
    ∷ (bytes "url", url)
    ∷ (bytes "vus", itoa (pos spec.vus))
    ∷ (bytes "duration_seconds", itoa (pos duration_seconds))
    ∷ (bytes "ramp_pattern", ramp_pattern)
    ∷ []

module _ {R : Type 0} (redis : Redis R) where
  -- The loop: the first command that fails ends it, and what was published before stays.
  unfoldable pub publish_all : List Fields → R → R × Bool
  publish_all [] r = (r, Bool.true)
  publish_all (job ∷ jobs) r =
      let (r', sent) = redis.x_add jobs_stream job r in
      let rest = publish_all jobs r' in if sent then rest else (r', Bool.false)

  -- The test ID and the job IDs, or `none` for an error; the count is that of the UUIDs drawn.
  unfoldable pub enqueue :
      (ℕ → Text) → Text → Text → ℕ → ℕ → ℕ → ℕ → R → R × ℕ × Option (Text × List Text)
  unfolding publish_all
  enqueue new_id url ramp_pattern total_vus duration_seconds fanout drawn r =
      let test_id = new_id drawn in
      let specs = build_sub_jobs new_id (suc drawn) total_vus fanout in
      let (r', sent) =
        publish_all (map (job_fields test_id url ramp_pattern duration_seconds) specs) r in
      (
        r',
        suc drawn + length specs,
        (if sent then some (test_id, map (λ s. s.job_id) specs) else none),
      )

abbrev pub worker_registry_prefix : Text
worker_registry_prefix = bytes "sentry:worker:"

-- coordinator/capacity.go: CountLiveWorkers
unfoldable pub count_live_workers : {R : Type 0} → Redis R → R → Option ℕ
unfolding count_scanned bytes
count_live_workers redis r = count_scanned (redis.scan (worker_registry_prefix ++ bytes "*") r)
