-- ===== src/Wire/Jobs.antt =====
-- The jobs stream: the messages of coordinator/enqueue.go, read by worker/job.go.
use sentry_load.Prelude.{
  ℕ, ◌≤◌, ◌<◌, ◌≡◌, refl, sym, ◌∙◌, ap, ◌⊎◌, arith, Text, text_eq, bytes, same_iff, pos, lookup,
  List, [], ◌∷◌, map, All, sum, subst, same,
}
use sentry_load.Strconv.{itoa}
use sentry_load.Strconv.RoundTrip.{atoi-format_nat}
use sentry_load.Coordinator.Jobs.{SubJobSpec, build_sub_jobs}
use sentry_load.Coordinator.Jobs.Split.{split_vus_exact, vus-build_sub_jobs}
use sentry_load.Coordinator.Enqueue.{job_fields}
use sentry_load.Coordinator.CreateTest.{Plan}
use sentry_load.Coordinator.CreateTest.Guards.{IsBounded}
use sentry_load.Worker.Job.{Job, good, str, number, check_pattern, parse_job, validate, beyond}

-- The job that a worker makes of a sub-job's message.
abbrev pub job_of : Text → Plan → SubJobSpec → Job
job_of test_id plan spec = record {
  id = spec.job_id;
  test_id = test_id;
  url = plan.url;
  vus = pos spec.vus;
  duration_seconds = pos plan.duration_seconds;
  ramp_pattern = plan.ramp_pattern;
}

number-itoa : (key : Text) (n : ℕ) → n ≤ 300 → number key (itoa (pos n)) ≡ good (pos n)
unfolding number itoa
number-itoa key n h = ground (arith, atoi-format_nat n (omega arith))

pattern_known : (t : Text) → (t ≡ bytes "steady") ⊎ (t ≡ bytes "ramp") → check_pattern t ≡ good tt
unfolding check_pattern
pattern_known t h = ground (arith, same_iff t (bytes "steady"), same_iff t (bytes "ramp"))

parse_published :
    (test_id : Text) (plan : Plan) (spec : SubJobSpec)
    → number (bytes "vus") (itoa (pos spec.vus)) ≡ good (pos spec.vus)
    → number (bytes "duration_seconds") (itoa (pos plan.duration_seconds))
      ≡ good (pos plan.duration_seconds)
    → check_pattern plan.ramp_pattern ≡ good tt
    → parse_job (job_fields test_id plan.url plan.ramp_pattern plan.duration_seconds spec)
      ≡ good (job_of test_id plan spec)
unfolding parse_job job_fields str lookup bytes same
parse_published test_id plan spec vus duration pattern = rw (vus, duration, pattern) refl

validate_published :
    (test_id : Text) (plan : Plan) (spec : SubJobSpec)
    → IsBounded plan
    → 0 < spec.vus
    → spec.vus ≤ 200
    → validate (job_of test_id plan spec) ≡ good tt
unfolding validate beyond
validate_published test_id plan spec bounded h k =
    ground (arith, bounded.duration_pos, bounded.duration_capped)

-- What the worker is to make of a sub-job's message.
abbrev pub IsAccepted : Text → Plan → SubJobSpec → Type 0
IsAccepted test_id plan spec =
    (parse_job (job_fields test_id plan.url plan.ramp_pattern plan.duration_seconds spec)
      ≡ good (job_of test_id plan spec))
    × (validate (job_of test_id plan spec) ≡ good tt)

published_job-IsAccepted :
    (test_id : Text) (plan : Plan) (spec : SubJobSpec)
    → IsBounded plan
    → 0 < spec.vus
    → spec.vus ≤ 200
    → IsAccepted test_id plan spec
published_job-IsAccepted test_id plan spec bounded h k = (
  parse_published test_id plan spec (number-itoa (bytes "vus") spec.vus (omega arith))
      (number-itoa (bytes "duration_seconds") plan.duration_seconds
        (omega (arith, bounded.duration_capped)))
      (pattern_known plan.ramp_pattern bounded.known_pattern),
  validate_published test_id plan spec bounded h k,
)

All-IsAccepted :
    (test_id : Text) (plan : Plan)
    → IsBounded plan
    → (specs : List SubJobSpec) → All (λ v. 0 < v) (map (λ (s : SubJobSpec). s.vus) specs)
    → sum (map (λ (s : SubJobSpec). s.vus) specs) ≤ 200
    → All (IsAccepted test_id plan) specs
All-IsAccepted test_id plan bounded [] h k = tt
All-IsAccepted test_id plan bounded (spec ∷ specs) (h, hs) k = (
  published_job-IsAccepted test_id plan spec bounded h (ground arith),
  All-IsAccepted test_id plan bounded specs hs (ground arith),
)

-- Each message that is published for a plan within the caps, on any number of workers up to its
-- virtual users, parses to the job that the coordinator meant, and the worker's own caps accept it.
pub published_jobs-IsAccepted :
    (new_id : ℕ → Text) (drawn : ℕ) (test_id : Text) (plan : Plan) (fanout : ℕ)
    → IsBounded plan
    → 0 < fanout
    → fanout ≤ plan.vus
    → All (IsAccepted test_id plan) (build_sub_jobs new_id drawn plan.vus fanout)
published_jobs-IsAccepted new_id drawn test_id plan fanout bounded h le =
    let (total, count, even, positive) = split_vus_exact plan.vus fanout h le in
    let counts = vus-build_sub_jobs new_id drawn plan.vus fanout in
    All-IsAccepted test_id plan bounded (build_sub_jobs new_id drawn plan.vus fanout)
      (subst (All (λ v. 0 < v)) (sym counts) positive)
      (subst (λ n. n ≤ 200) (sym (ap sum counts ∙ total)) bounded.vus_capped)
