-- ===== src/Worker/Metrics.antt =====
-- worker/metrics.go and the messages that a worker publishes: publish of handleJob (worker/main.go)
-- and abandonJob (worker/reclaim.go). Durations are nanoseconds.
use sentry_load.Prelude.{
  ℕ, zero, suc, ◌+◌, ◌-◌, ◌/◌, Bool, false, ◌&&◌, ◌||◌, List, [], ◌∷◌, Option, none, some, map,
  length, Text, bytes, ltb, leb, ◌==◌, nat_eq, if◌then◌else◌, pos, Map, Float,
}
use sentry_load.Strconv.{itoa, format_bool}
use sentry_load.Worker.Sketch.{encode_latency_sketch}

-- RequestResult of worker/loadgen.go; `failed` says that Err is not nil.
pub record RequestResult : Type 0 where
  pub latency : ℕ
  pub status_code : ℕ
  pub failed : Bool

pub record Metrics (F : Type 0) : Type 0 where
  pub job_id : Text
  pub elapsed : ℕ
  pub requests : ℕ
  pub errors : ℕ
  pub rps : F
  pub p50 : ℕ
  pub p95 : ℕ
  pub p99 : ℕ
  pub done : Bool
  pub circuit_broken : Bool
  pub latency_sketch : Text

-- r.Err != nil || r.StatusCode >= 500
unfoldable pub is_error : RequestResult → Bool
is_error r = r.failed || leb 500 r.status_code

unfoldable pub count_errors : List RequestResult → ℕ
unfolding is_error
count_errors [] = 0
count_errors (r ∷ rs) = (if is_error r then 1 else 0) + count_errors rs

unfoldable pub insert_latency : ℕ → List ℕ → List ℕ
insert_latency d [] = d ∷ []
insert_latency d (e ∷ l) = if ltb e d then e ∷ insert_latency d l else d ∷ e ∷ l

-- sort.Slice
unfoldable pub sort_latencies : List ℕ → List ℕ
unfolding insert_latency
sort_latencies [] = []
sort_latencies (d ∷ l) = insert_latency d (sort_latencies l)

-- latencies[i]; `none` is the panic of an index that is out of range.
unfoldable pub at : List ℕ → ℕ → Option ℕ
at [] i = none
at (d ∷ l) zero = some d
at (d ∷ l) (suc i) = at l i

module _ {F : Type 0} ⦃fl : Float F⦄ where
  unfoldable pub error_rate : Metrics F → F
  error_rate m =
      if m.requests == 0 then fl.of_nat 0 else fl.div (fl.of_nat m.errors) (fl.of_nat m.requests)

  unfoldable pub trips_circuit_breaker : Metrics F → Bool
  unfolding error_rate
  trips_circuit_breaker m = leb 20 m.requests && fl.le (fl.lit 5 1) (error_rate m)

  -- The closure `percentile`.
  unfoldable pub latency_at : List ℕ → F → Option ℕ
  unfolding at
  latency_at latencies p = at latencies (fl.trunc (fl.mul p (fl.of_nat (length latencies - 1))))

  -- `none` is a panic.
  unfoldable pub compute_metrics : Text → List RequestResult → ℕ → Bool → Option (Metrics F)
  unfolding count_errors sort_latencies latency_at
  compute_metrics job_id results elapsed done =
      let n = length results in
      let latencies = sort_latencies (map (λ (r : RequestResult). r.latency) results) in
      let m : Metrics F = record {
        job_id = job_id;
        elapsed = elapsed;
        requests = 0;
        errors = 0;
        rps = fl.of_nat 0;
        p50 = 0;
        p95 = 0;
        p99 = 0;
        done = done;
        circuit_broken = false;
        latency_sketch = [];
      } in
      if n == 0 then some m else elim (latency_at latencies (fl.lit 50 2)) [
        | none ↦ none
        | some p50 ↦ elim (latency_at latencies (fl.lit 95 2)) [
          | none ↦ none
          | some p95 ↦ elim (latency_at latencies (fl.lit 99 2)) [
            | none ↦ none
            | some p99 ↦ some (record m {
              requests = n;
              errors = count_errors results;
              rps =
                  (if ltb 0 elapsed
                    then fl.div (fl.of_nat n) (fl.div (fl.of_nat elapsed) (fl.of_nat 1000000000))
                    else fl.of_nat 0);
              p50 = p50;
              p95 = p95;
              p99 = p99;
              latency_sketch = encode_latency_sketch F latencies;
            })
          ]
        ]
      ]

  -- The fields of the closure `publish` of handleJob; Milliseconds() drops the rest.
  unfoldable pub metrics_fields : Text → Metrics F → Map Text Text
  metrics_fields test_id m =
      (bytes "job_id", m.job_id)
      ∷ (bytes "test_id", test_id)
      ∷ (bytes "elapsed_ms", itoa (pos (m.elapsed / 1000000)))
      ∷ (bytes "requests", itoa (pos m.requests))
      ∷ (bytes "errors", itoa (pos m.errors))
      ∷ (bytes "rps", fl.format 1 m.rps)
      ∷ (bytes "p50_ms", itoa (pos (m.p50 / 1000000)))
      ∷ (bytes "p95_ms", itoa (pos (m.p95 / 1000000)))
      ∷ (bytes "p99_ms", itoa (pos (m.p99 / 1000000)))
      ∷ (bytes "done", format_bool m.done)
      ∷ (bytes "circuit_broken", format_bool m.circuit_broken)
      ∷ (bytes "latency_sketch", m.latency_sketch)
      ∷ []

-- The fields of abandonJob, for the job and test IDs of the message that it gives up.
unfoldable pub abandon_fields : Text → Text → Map Text Text
abandon_fields job_id test_id =
    (bytes "job_id", job_id)
    ∷ (bytes "test_id", test_id)
    ∷ (bytes "done", bytes "true")
    ∷ (bytes "abandoned", bytes "true")
    ∷ []
