-- ===== src/Wire/Results.antt =====
-- The results stream: the messages of worker/main.go and worker/reclaim.go, read by
-- coordinator/resultwatcher.go.
use sentry_load.Prelude.{
  length-map, ℕ, ◌+◌, ◌/◌, ◌<◌, ◌≤◌, ◌≡◌, refl, ◌∙◌, sym, ap, Bool, true, false, List, [], ◌∷◌,
  some, arith, Text, text_eq, bytes, same, ◌==◌, pos, lookup, lookup_or, Float, length, map, All,
  subst,
}
use sentry_load.Strconv.{int64_limit, atoi_value, itoa, format_bool}
use sentry_load.Strconv.RoundTrip.{atoi_value-format_nat}
use sentry_load.Coordinator.TestStore.{ResultUpdate, TestStore, update, mark_abandoned}
use sentry_load.Coordinator.ResultWatcher.{str_field, int_field, float_field, result_update, route}
use sentry_load.Coordinator.Sketch.{LatencySketch, decode_latency_sketch}
use sentry_load.Coordinator.Sketch.Weight.{IsExact}
use sentry_load.Wire.Sketch.{IsBucket, decode-encode_buckets}
use sentry_load.Worker.Metrics.{
  Metrics, RequestResult, count_errors, insert_latency, sort_latencies, compute_metrics,
  metrics_fields, abandon_fields,
}
use sentry_load.Worker.Sketch.{sketch_bucket, encode_latency_sketch}

count_errors-le : (rs : List RequestResult) → count_errors rs ≤ length rs
unfolding count_errors
count_errors-le [] = omega arith
count_errors-le (r ∷ rs) = ground (arith, count_errors-le rs)

length-insert_latency : (d : ℕ) (l : List ℕ) → length (insert_latency d l) ≡ length l + 1
unfolding insert_latency
length-insert_latency d [] = refl
length-insert_latency d (e ∷ l) = ground (arith, length-insert_latency d l)

length-sort_latencies : (l : List ℕ) → length (sort_latencies l) ≡ length l
unfolding sort_latencies
length-sort_latencies [] = refl
length-sort_latencies (d ∷ l) =
    omega (arith, length-insert_latency d (sort_latencies l), length-sort_latencies l)

bool_read : (b : Bool) → (format_bool b == bytes "true") ≡ b
unfolding format_bool bytes same
bool_read true = refl
bool_read false = refl

int_read : (n : ℕ) → n < int64_limit → atoi_value (itoa (pos n)) ≡ pos n
unfolding itoa
int_read n h = atoi_value-format_nat n h

module _ {F : Type 0} ⦃fl : Float F⦄ where
  -- The update that the metrics of a worker stand for.
  abbrev pub update_of : Metrics F → ResultUpdate F
  update_of m = record {
    requests = pos m.requests;
    errors = pos m.errors;
    rps = fl.parse (fl.format 1 m.rps);
    p50 = itoa (pos (m.p50 / 1000000));
    p95 = itoa (pos (m.p95 / 1000000));
    p99 = itoa (pos (m.p99 / 1000000));
    done = m.done;
    circuit_broken = m.circuit_broken;
    latency_sketch = m.latency_sketch;
  }

  result_update-metrics_fields :
      (test_id : Text) (m : Metrics F)
      → m.requests < int64_limit
      → m.errors < int64_limit
      → result_update (metrics_fields test_id m) ≡ update_of m
  unfolding result_update metrics_fields str_field int_field float_field lookup lookup_or bytes same
  result_update-metrics_fields test_id m hr he =
      rw
        (int_read m.requests hr, int_read m.errors he, bool_read m.done, bool_read m.circuit_broken)
        refl

  -- A worker's message, where its counts fit in 63 bits, updates the sub-job that it names with the
  -- worker's counts, flags and sketch; the message about a job that the fleet gave up marks the
  -- sub-job abandoned.
  pub published_metrics_arrive :
      (test_id job_id : Text) (m : Metrics F) (s : TestStore F)
      → m.requests < int64_limit
      → m.errors < int64_limit
      → (route (metrics_fields test_id m) s ≡ update test_id m.job_id (update_of m) s)
        × (route (abandon_fields job_id test_id) s ≡ mark_abandoned test_id job_id s)
  unfolding route metrics_fields abandon_fields str_field lookup lookup_or bytes same
  published_metrics_arrive test_id job_id m s hr he = (
    ap (λ (u : ResultUpdate F). update test_id m.job_id u s)
        (result_update-metrics_fields test_id m hr he),
    refl,
  )

  computed_fields :
      (job_id : Text) (results : List RequestResult) (elapsed : ℕ) (done : Bool) (m : Metrics F)
      → compute_metrics job_id results elapsed done ≡ some m
      → 0 < length results
      → (m.requests ≡ length results)
        × (m.errors ≡ count_errors results)
        × (m.latency_sketch
            ≡ encode_latency_sketch F
                (sort_latencies (map (λ (r : RequestResult). r.latency) results)))
  unfolding compute_metrics
  computed_fields job_id results elapsed done m h k = ground arith

  -- The metrics of fewer than 2^63 requests, at least one, where the bucket of each latency is from
  -- 0 and in the range of int: they count every request, and the errors among them; and the
  -- coordinator decodes their sketch to an exact one that holds a sample for each request.
  pub computed_metrics_sound :
      (job_id : Text) (results : List RequestResult) (elapsed : ℕ) (done : Bool) (m : Metrics F)
      → compute_metrics job_id results elapsed done ≡ some m
      → 0 < length results
      → length results < int64_limit
      → All IsBucket
          (map (sketch_bucket F) (sort_latencies (map (λ (r : RequestResult). r.latency) results)))
      → (m.requests ≡ length results)
        × (m.errors ≡ count_errors results)
        × (m.errors ≤ m.requests)
        × ((sk : LatencySketch) × (decode_latency_sketch m.latency_sketch ≡ some sk)
            × IsExact sk
            × (sk.total ≡ m.requests))
  computed_metrics_sound job_id results elapsed done m h k few buckets =
      let (n, e, text) = computed_fields job_id results elapsed done m h k in
      let latencies = sort_latencies (map (λ (r : RequestResult). r.latency) results) in
      let bs = map (sketch_bucket F) latencies in
      let count : length bs ≡ length results =
        length-map (sketch_bucket F) latencies
        ∙ (length-sort_latencies (map (λ (r : RequestResult). r.latency) results)
            ∙ length-map (λ (r : RequestResult). r.latency) results) in
      let (sk, decoded, exact, total, w) =
        decode-encode_buckets bs buckets (subst (λ x. x < int64_limit) (sym count) few) in
      (
        n,
        e,
        omega (arith, count_errors-le results, n, e),
        (
          sk,
          ap decode_latency_sketch text ∙ (unfold encode_latency_sketch in decoded),
          exact,
          omega (arith, total, count, n),
        ),
      )
