-- ===== src/Worker/LoadGen.antt =====
-- runLoadTest of worker/loadgen.go, as a fold over what happens while it runs: requests end, the
-- goroutine of the ticker fires, publishes and stops, virtual users return, the deadline passes.
-- HTTP requests and the rate limiter only say when an event comes. Durations are nanoseconds.
pub mod Counted
pub mod Ramp
use sentry_load.Prelude.{
  ℕ, zero, suc, ◌+◌, ◌-◌, ◌*◌, ◌/◌, Bool, true, false, not, ◌&&◌, ◌||◌, List, [], ◌∷◌, ◌++◌, Option,
  none, some, length, Text, text_eq, bytes, nat_eq, ◌==◌, if◌then◌else◌, pos_part, Float,
}
use sentry_load.Worker.Job.{Job}
use sentry_load.Worker.Metrics.{RequestResult, Metrics, compute_metrics, trips_circuit_breaker}

abbrev pub second : ℕ
second = 1000000000

-- When the virtual users of a job start, after the start of the test: `steady` at once, `ramp` one
-- by one over the duration, any other pattern never.
unfoldable pub ramp_step : ℕ → ℕ → ℕ
ramp_step duration_seconds vus = duration_seconds * second / vus

unfoldable pub offsets_from : ℕ → ℕ → ℕ → List ℕ
offsets_from step i zero = []
offsets_from step i (suc n) = i * step ∷ offsets_from step (suc i) n

unfoldable pub start_offsets : Job → List ℕ
unfolding ramp_step offsets_from
start_offsets job =
    let vus = pos_part job.vus in
    if job.ramp_pattern == bytes "steady"
    then offsets_from 0 0 vus
    else if job.ramp_pattern == bytes "ramp"
    then offsets_from (ramp_step (pos_part job.duration_seconds) vus) 0 vus
    else []

-- The times are those since the start of the test.
pub data Event : Type 0 where
  request_ends : RequestResult → Event
  vu_returns : Event
  deadline : Event
  tick : ℕ → Event
  tick_publishes : Event
  ticker_stops : Event
  finish : ℕ → Event

-- The results, the WaitGroup, the two flags of the breaker and of the context, the goroutine of
-- the ticker with the metrics that it computed and has not published, and what onUpdate was called
-- with, in order.
pub record Run (F : Type 0) : Type 0 where
  pub results : List RequestResult
  pub active : ℕ
  pub aborted : Bool
  pub cancelled : Bool
  pub ticking : Bool
  pub pending : Option (Metrics F)
  pub reports : List (Metrics F)
  pub finished : Bool

module _ {F : Type 0} where
  unfoldable pub start_run : ℕ → Run F
  start_run vus = record {
    results = [];
    active = vus;
    aborted = false;
    cancelled = false;
    ticking = true;
    pending = none;
    reports = [];
    finished = false;
  }

  -- The part of the ticker's goroutine after computeMetrics.
  unfoldable pub publish_tick : Run F → Run F
  publish_tick s = elim s.pending [
    | none ↦ s
    | some m ↦
        let published = record s { pending = none; reports = s.reports ++ m ∷ [] } in
        if m.circuit_broken
        then record published { cancelled = true; ticking = false }
        else published
  ]

module _ {F : Type 0} ⦃fl : Float F⦄ where
  -- A tick that is taken, up to onUpdate; `none` is a panic.
  unfoldable pub take_tick : Text → ℕ → Run F → Option (Run F)
  take_tick job_id elapsed s = elim (compute_metrics job_id s.results elapsed false) [
    | none ↦ none
    | some m ↦
        if trips_circuit_breaker m
        then some (record s { aborted = true; pending = some (record m { circuit_broken = true }) })
        else some (record s { pending = some m })
  ]

  -- After wg.Wait: the final report, with the flag that the ticker left.
  unfoldable pub finish_run : Text → ℕ → Run F → Option (Run F)
  finish_run job_id elapsed s = elim (compute_metrics job_id s.results elapsed true) [
    | none ↦ none
    | some m ↦ some (record s {
      reports = s.reports ++ record m { circuit_broken = s.aborted } ∷ [];
      finished = true;
    })
  ]

  -- An event that cannot come in the state changes nothing. A request that is under way when the
  -- context is cancelled still ends: client.Get does not carry the context.
  unfoldable pub step : Text → Event → Run F → Option (Run F)
  unfolding publish_tick take_tick finish_run
  step job_id (request_ends r) s =
      some (if s.active == 0 then s else record s { results = s.results ++ r ∷ [] })
  step job_id vu_returns s = some (record s { active = s.active - 1 })
  step job_id deadline s = some (record s { cancelled = true })
  step job_id (tick elapsed) s = elim s.pending [
    | some m ↦ some s
    | none ↦ elim s.ticking [ false ↦ some s | true ↦ take_tick job_id elapsed s ]
  ]
  step job_id tick_publishes s = some (publish_tick s)
  step job_id ticker_stops s = elim s.pending [
    | some m ↦ some s
    | none ↦ some (if s.cancelled || s.finished then record s { ticking = false } else s)
  ]
  step job_id (finish elapsed) s = elim (s.active == 0 && not s.finished) [
    | false ↦ some s
    | true ↦ finish_run job_id elapsed s
  ]

  unfoldable pub run_events : Text → List Event → Run F → Option (Run F)
  unfolding step
  run_events job_id [] s = some s
  run_events job_id (e ∷ es) s = elim (step job_id e s) [
    | none ↦ none
    | some t ↦ run_events job_id es t
  ]

  -- The run of a job whose events are `es`.
  unfoldable pub run_load_test : Job → List Event → Option (Run F)
  unfolding run_events start_run start_offsets
  run_load_test job es = run_events job.id es (start_run (length (start_offsets job)))
