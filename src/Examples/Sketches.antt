-- ===== src/Examples/Sketches.antt =====
-- Latency sketches of two workers.
use sentry_load.Prelude.{
  ℕ, ◌+◌, ◌/◌, ◌^◌, ◌≤◌, ◌<◌, ◌≡◌, refl, ◌⊎◌, inl, inr, Bool, true, false, List, [], ◌∷◌, Option,
  none, some, arith, Text, bytes, length, All, ℤ, pos, int_eq, Map, lookup,
}
use mathlib.Core.List.{Perm}
use sentry_load.Strconv.{int64_limit}
use sentry_load.Coordinator.Sketch.{LatencySketch, decode_latency_sketch, merge, bucket_at, keys}
use sentry_load.Coordinator.Sketch.Weight.{weight, member, anywhere, IsExact, weight-merge}
use sentry_load.Coordinator.Sketch.Quantile.{below, up_to, bucket_at_rank}
use sentry_load.Coordinator.Snapshot.{
  SubJobState, TestState, no_result, all_sub_jobs_done, percentile, combined_percentiles,
  build_snapshot,
}
use sentry_load.Coordinator.Snapshot.Merge.{
  any_sub_job, sum_of, views, IsSortedById, build_snapshot_flags, build_snapshot_totals,
  build_snapshot_sub_jobs,
}
use sentry_load.Coordinator.Snapshot.Percentiles.{
  lacks_sketch, reported, AllExact, combined_percentiles_cases,
}
use sentry_load.Worker.Sketch.{encode_buckets}
use sentry_load.Wire.Sketch.{count_where, IsBucket, decode-encode_buckets, merged_rank}
use sentry_load.Examples.World.{whole}

abbrev fast : List ℤ
fast = pos 3 ∷ pos 1 ∷ pos 3 ∷ []

abbrev slow : List ℤ
slow = pos 12 ∷ pos 3 ∷ []

written : encode_buckets fast ≡ bytes "v1:1:1,3:2"
unfolding bytes encode_buckets sentry_load.Prelude.Sorting.sort_ints sentry_load.Prelude.insert
    sentry_load.Prelude.int_beq sentry_load.Prelude.int_ltb sentry_load.Worker.Sketch.write_bucket
    sentry_load.Strconv.itoa sentry_load.Prelude.lookup_or lookup
written = refl

fast-IsBucket : All IsBucket fast
fast-IsBucket = (omega arith, (omega arith, (omega arith, tt)))

slow-IsBucket : All IsBucket slow
slow-IsBucket = (omega arith, (omega arith, tt))

decode-encode_buckets_example :
    (sk : LatencySketch) × (decode_latency_sketch (encode_buckets fast) ≡ some sk)
    × IsExact sk
    × (sk.total ≡ length fast)
    × ((p : ℤ → Bool) → weight p sk.counts ≡ count_where p fast)
decode-encode_buckets_example = decode-encode_buckets fast fast-IsBucket (omega arith)

merged_rank_example :
    (sk : LatencySketch) × (tk : LatencySketch) × (decode_latency_sketch (encode_buckets fast)
      ≡ some sk)
    × (decode_latency_sketch (encode_buckets slow) ≡ some tk)
    × (let i = bucket_at (merge sk tk) 4 in
        (count_where (below i) fast + count_where (below i) slow ≤ 4)
        × (4 < count_where (up_to i) fast + count_where (up_to i) slow))
merged_rank_example =
    merged_rank fast slow fast-IsBucket slow-IsBucket 4 (omega arith) (omega arith)

abbrev three : LatencySketch
three = record { counts = (pos 1, 1) ∷ (pos 3, 2) ∷ []; total = 3 }

abbrev two : LatencySketch
two = record { counts = (pos 12, 1) ∷ (pos 3, 1) ∷ []; total = 2 }

three-IsExact : IsExact three
unfolding weight member keys sentry_load.Prelude.int_beq
three-IsExact = record { counted = refl; distinct = (refl, (refl, tt)) }

two-IsExact : IsExact two
unfolding weight member keys sentry_load.Prelude.int_beq
two-IsExact = record { counted = refl; distinct = (refl, (refl, tt)) }

weight-merge_example :
    IsExact (merge three two)
    × ((merge three two).total ≡ three.total + two.total)
    × ((p : ℤ → Bool)
        → weight p (merge three two).counts ≡ weight p three.counts + weight p two.counts)
weight-merge_example = weight-merge three two three-IsExact two-IsExact (omega arith)

bucket_at_rank_example :
    let i = bucket_at three 2 in
    (weight (below i) three.counts ≤ 2) × (2 < weight (up_to i) three.counts)
bucket_at_rank_example = bucket_at_rank three 2 three-IsExact (omega arith) (omega arith)

abbrev busy : SubJobState ℕ
busy = record no_result { requests = pos 3; errors = pos 1; sketch = some three }

abbrev jobs : Map Text (SubJobState ℕ)
jobs = (bytes "b", busy) ∷ (bytes "a", no_result) ∷ []

abbrev run : TestState ℕ
run = record {
  test_id = bytes "t";
  owner_id = bytes "gh-7";
  url = bytes "a.io";
  created_at = 0;
  sub_jobs = jobs;
}

jobs-AllExact : AllExact jobs
jobs-AllExact = (three-IsExact, (tt, tt))

few : reported {F = ℕ} anywhere jobs < 18446744073709551616
unfolding reported sentry_load.Prelude.int_beq weight
few = omega arith

combined_percentiles_cases_example :
    ((any_sub_job lacks_sketch jobs ≡ true) × (combined_percentiles jobs ≡ (none, none, none)))
    ⊎ ((any_sub_job lacks_sketch jobs ≡ false)
        × (merged : LatencySketch) × IsExact merged
        × ((p : ℤ → Bool) → weight p merged.counts ≡ reported p jobs)
        × (combined_percentiles jobs ≡ (
          percentile merged (50 / 10 ^ 2),
          percentile merged (95 / 10 ^ 2),
          percentile merged (99 / 10 ^ 2),
        )))
combined_percentiles_cases_example = combined_percentiles_cases jobs jobs-AllExact few

build_snapshot_flags_example :
    ((build_snapshot run).done ≡ all_sub_jobs_done run.sub_jobs)
    × ((build_snapshot run).circuit_broken ≡ any_sub_job (λ sj. sj.circuit_broken) run.sub_jobs)
    × ((build_snapshot run).abandoned ≡ any_sub_job (λ sj. sj.abandoned) run.sub_jobs)
build_snapshot_flags_example = build_snapshot_flags run

requests_few : sum_of (λ (sj : SubJobState ℕ). sj.requests) jobs < 9223372036854775808
unfolding sum_of
requests_few = omega arith

errors_few : sum_of (λ (sj : SubJobState ℕ). sj.errors) jobs < 9223372036854775808
unfolding sum_of
errors_few = omega arith

build_snapshot_totals_example :
    ((build_snapshot run).total_requests ≡ pos (sum_of (λ sj. sj.requests) run.sub_jobs))
    × ((build_snapshot run).total_errors ≡ pos (sum_of (λ sj. sj.errors) run.sub_jobs))
build_snapshot_totals_example =
    build_snapshot_totals run (refl, (refl, tt)) (refl, (refl, tt)) requests_few errors_few

build_snapshot_sub_jobs_example :
    Perm (build_snapshot run).sub_jobs (views run.sub_jobs)
    × IsSortedById (build_snapshot run).sub_jobs
build_snapshot_sub_jobs_example = build_snapshot_sub_jobs run
