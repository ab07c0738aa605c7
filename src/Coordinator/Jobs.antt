-- ===== src/Coordinator/Jobs.antt =====
-- coordinator/jobs.go: the split of a test into sub-jobs. `uuid.NewString` is the parameter
-- `new_id`: the n-th call returns `new_id n`, and the state is the number of calls made.
pub mod Split
use sentry_load.Prelude.{ℕ, zero, suc, ◌+◌, ◌*◌, ◌/◌, ◌%◌, List, [], ◌∷◌, Text, ltb, if◌then◌else◌}

abbrev pub max_vus_per_test : ℕ
max_vus_per_test = 200

abbrev pub max_duration_seconds : ℕ
max_duration_seconds = 300

abbrev pub max_fanout : ℕ
max_fanout = 5

pub record SubJobSpec : Type 0 where
  pub job_id : Text
  pub vus : ℕ

-- The loop of splitVUs from index `i`, with `rounds` sub-jobs left.
split_from : ℕ → ℕ → ℕ → ℕ → List ℕ
split_from i zero base remainder = []
split_from i (suc rounds) base remainder =
    (if ltb i remainder then base + 1 else base) ∷ split_from (suc i) rounds base remainder

-- `fanout` is at least 1: the only caller clamps it, and Go panics at 0.
unfoldable pub split_vus : ℕ → ℕ → List ℕ
unfolding split_from
split_vus total_vus fanout = split_from 0 fanout (total_vus / fanout) (total_vus % fanout)

specs_from : (ℕ → Text) → ℕ → List ℕ → List SubJobSpec
specs_from new_id n [] = []
specs_from new_id n (vus ∷ counts) =
    record { job_id = new_id n; vus = vus } ∷ specs_from new_id (suc n) counts

unfoldable pub build_sub_jobs : (ℕ → Text) → ℕ → ℕ → ℕ → List SubJobSpec
unfolding specs_from
build_sub_jobs new_id n total_vus fanout = specs_from new_id n (split_vus total_vus fanout)
