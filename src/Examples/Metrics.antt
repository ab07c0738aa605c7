-- ===== src/Examples/Metrics.antt =====
-- The metrics of three requests, and the message about them.
use sentry_load.Prelude.{
  ℕ, ◌≤◌, ◌≡◌, refl, true, false, List, [], ◌∷◌, some, arith, bytes, All, map, length,
}
use sentry_load.Coordinator.Sketch.{LatencySketch, decode_latency_sketch}
use sentry_load.Coordinator.Sketch.Weight.{IsExact}
use sentry_load.Coordinator.TestStore.{TestStore, new_test_store, register, update, mark_abandoned}
use sentry_load.Coordinator.ResultWatcher.{route}
use sentry_load.Worker.Sketch.{sketch_bucket, encode_latency_sketch}
use sentry_load.Worker.Metrics.{
  Metrics, RequestResult, count_errors, sort_latencies, compute_metrics, metrics_fields,
  abandon_fields,
}
use sentry_load.Wire.Sketch.{IsBucket}
use sentry_load.Wire.Results.{update_of, published_metrics_arrive, computed_metrics_sound}
use sentry_load.Examples.World.{whole}

abbrev requests : List RequestResult
requests =
    record { latency = 5000; status_code = 200; failed = false }
    ∷ record { latency = 800; status_code = 503; failed = false }
    ∷ record { latency = 9000; status_code = 0; failed = true }
    ∷ []

abbrev metrics : Metrics ℕ
metrics = record {
  job_id = bytes "j";
  elapsed = 2000000000;
  requests = 3;
  errors = 2;
  rps = 1;
  p50 = 800;
  p95 = 800;
  p99 = 800;
  done = true;
  circuit_broken = false;
  latency_sketch = encode_latency_sketch ℕ (800 ∷ 5000 ∷ 9000 ∷ []);
}

computed : compute_metrics (bytes "j") requests 2000000000 true ≡ some metrics
unfolding compute_metrics
computed = refl

in_range :
    All IsBucket
      (map (sketch_bucket ℕ) (sort_latencies (map (λ (r : RequestResult). r.latency) requests)))
unfolding sort_latencies sketch_bucket
in_range = (omega arith, (omega arith, (omega arith, tt)))

computed_metrics_sound_example :
    (metrics.requests ≡ length requests)
    × (metrics.errors ≡ count_errors requests)
    × (metrics.errors ≤ metrics.requests)
    × ((sk : LatencySketch) × (decode_latency_sketch metrics.latency_sketch ≡ some sk)
        × IsExact sk
        × (sk.total ≡ metrics.requests))
computed_metrics_sound_example =
    computed_metrics_sound (bytes "j") requests 2000000000 true metrics computed (omega arith)
      (omega arith) in_range

abbrev store : TestStore ℕ
store = register (bytes "t") (bytes "gh-7") (bytes "a.io") (bytes "j" ∷ []) 5 new_test_store

published_metrics_arrive_example :
    (route (metrics_fields (bytes "t") metrics) store
      ≡ update (bytes "t") (bytes "j") (update_of metrics) store)
    × (route (abandon_fields (bytes "j") (bytes "t")) store
        ≡ mark_abandoned (bytes "t") (bytes "j") store)
published_metrics_arrive_example =
    published_metrics_arrive (bytes "t") (bytes "j") metrics store (omega arith) (omega arith)
