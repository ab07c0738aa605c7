-- ===== src/Examples/Publish.antt =====
-- A job that is run to its end, and calls of publish that overlap.
use sentry_load.Prelude.{
  ℕ, zero, suc, ◌+◌, ◌≤◌, ◌<◌, ◌≡◌, refl, inl, inr, Bool, true, false, List, [], ◌∷◌, ◌++◌, Option,
  none, some, arith, All, length, Text, text_eq, bytes, nat_eq, ◌==◌, same_iff, if◌then◌else◌, pos,
  Map, lookup, lookup_or, insert, delete, lookup-insert, Bool-cases, subst, ltb,
}
use sentry_load.Worker.Job.{Job, good, parse_job, validate}
use sentry_load.Worker.Metrics.{RequestResult, Metrics, count_errors}
use sentry_load.Worker.Sketch.{encode_latency_sketch}
use sentry_load.Worker.Queue.{quiet, Group}
use sentry_load.Worker.Queue.Handle.{Host, advance, handle_job}
use sentry_load.Worker.LoadGen.{
  Event, request_ends, vu_returns, tick, tick_publishes, finish, Run, run_load_test,
}
use sentry_load.Worker.LoadGen.Counted.{requests_counted_once}
use sentry_load.Examples.World.{whole}
use sentry_load.Worker.Queue.Overlap.{
  Calls, no_calls, Reach, here, next, reads, adds, writes, read_counted, add_delta, write_counted,
  overlapping_calls_count_all,
}

abbrev silent : Group Unit
silent = record {
  x_pending = λ idle n q. some [];
  x_claim = λ c idle id q. (q, some []);
  x_claim_just_id = λ c idle id q. (q, true);
  x_read_group = λ c q. (q, quiet);
  x_ack = λ id q. (q, true);
  x_add = λ fields q. (q, true);
  x_group_create = λ q. (q, none);
}

abbrev fields : Map Text Text
fields =
    (bytes "id", bytes "j")
    ∷ (bytes "test_id", bytes "t")
    ∷ (bytes "url", bytes "a.io")
    ∷ (bytes "ramp_pattern", bytes "steady")
    ∷ (bytes "vus", bytes "1")
    ∷ (bytes "duration_seconds", bytes "5")
    ∷ []

abbrev job : Job
job = record {
  id = bytes "j";
  test_id = bytes "t";
  url = bytes "a.io";
  vus = pos 1;
  duration_seconds = pos 5;
  ramp_pattern = bytes "steady";
}

abbrev good_request : RequestResult
good_request = record { latency = 5000; status_code = 200; failed = false }

abbrev bad_request : RequestResult
bad_request = record { latency = 5000; status_code = 503; failed = false }

-- A tick that is published after the final report.
abbrev events : List Event
events =
    request_ends good_request
    ∷ request_ends bad_request
    ∷ tick 1000000000
    ∷ vu_returns
    ∷ finish 2000000000
    ∷ tick_publishes
    ∷ []

abbrev report : Bool → ℕ → Metrics ℕ
report done elapsed = record {
  job_id = bytes "j";
  elapsed = elapsed;
  requests = 2;
  errors = 1;
  rps = if done then 1 else 2;
  p50 = 5000;
  p95 = 5000;
  p99 = 5000;
  done = done;
  circuit_broken = false;
  latency_sketch = encode_latency_sketch ℕ (5000 ∷ 5000 ∷ []);
}

abbrev over : Run ℕ
over = record {
  results = good_request ∷ bad_request ∷ [];
  active = 0;
  aborted = false;
  cancelled = false;
  ticking = true;
  pending = none;
  reports = report true 2000000000 ∷ report false 1000000000 ∷ [];
  finished = true;
}

-- The last report that the coordinator sees says that the job is not done.
late_tick : run_load_test job events ≡ some over
unfolding run_load_test sentry_load.Prelude.same bytes sentry_load.Worker.Metrics.compute_metrics
    sentry_load.Worker.Metrics.trips_circuit_breaker
late_tick = refl

parsed : parse_job fields ≡ good job
unfolding parse_job lookup sentry_load.Prelude.same bytes sentry_load.Strconv.atoi
parsed = refl

valid : validate job ≡ good tt
unfolding validate
valid = refl

abbrev host : Host Unit
host = record {
  queue = tt;
  counters = record {
    requests_generated = 10;
    request_errors = 0;
    jobs_completed = 0;
    jobs_broken = 0;
    jobs_reclaimed = 0;
    jobs_abandoned = 0;
  };
}

requests_counted_once_example :
    ((handle_job silent (λ _. over.reports) fields host).counters.requests_generated ≡ 12)
    × ((handle_job silent (λ _. over.reports) fields host).counters.request_errors
        ≡ 0 + count_errors over.results)
requests_counted_once_example =
    requests_counted_once silent fields job events over host parsed valid late_tick refl

-- Two calls, for 2 and for 5 requests, that both read before the other writes.
abbrev both_added : Calls
both_added = add_delta 1 0 5 (add_delta 0 0 2 (read_counted 1 5 (read_counted 0 2 (no_calls 10))))

abbrev overlapped : Calls
overlapped = write_counted 1 5 (write_counted 0 2 both_added)

-- The counter rises from 10 by 7, although no more than 5 requests were reported.
counted_twice : overlapped.total ≡ 17
unfolding add_delta read_counted write_counted
counted_twice = refl

overlapped_reached : Reach (no_calls 10) overlapped
unfolding add_delta read_counted write_counted lookup insert delete
overlapped_reached =
    next
      (next
        (next (next (next (next here (reads 0 2 refl)) (reads 1 5 refl)) (adds 0 0 2 refl))
          (adds 1 0 5 refl))
        (writes 0 2 refl))
      (writes 1 5 refl)

overlapping_calls_count_all_example :
    All (λ m. 10 + m ≤ overlapped.total) overlapped.ended
    × let added = add_delta 2 overlapped.counted 9 (read_counted 2 9 overlapped) in
      let written = if ltb overlapped.counted 9 then write_counted 2 9 added else added in
      (written.counted, written.total) ≡ advance 9 overlapped.counted overlapped.total
overlapping_calls_count_all_example =
    overlapping_calls_count_all 10 2 9 overlapped overlapped_reached
