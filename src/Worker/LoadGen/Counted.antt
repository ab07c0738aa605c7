-- ===== src/Worker/LoadGen/Counted.antt =====
-- The requests that runLoadTest (worker/loadgen.go) records and the counters that the closure
-- publish of handleJob (worker/main.go) advances by its reports.
use sentry_load.Prelude.{
  ℕ, ◌+◌, ◌≤◌, ◌≡◌, refl, sym, ap, inl, inr, Bool, true, false, List, [], ◌∷◌, ◌++◌, Option, none,
  some, arith, length, length-append, Text, Map, ltb, nat_eq, ◌==◌, if◌then◌else◌, Option-cases,
  Float,
}
use sentry_load.Worker.Job.{Job, good, parse_job, validate}
use sentry_load.Worker.Metrics.{
  RequestResult, Metrics, count_errors, compute_metrics, metrics_fields,
}
use sentry_load.Worker.Queue.{Group}
use sentry_load.Worker.Queue.Handle.{
  Host, Counted, advance, count_report, publish_reports, handle_job,
}
use sentry_load.Worker.LoadGen.{
  Event, request_ends, vu_returns, deadline, tick, tick_publishes, ticker_stops, finish, Run,
  start_run, publish_tick, take_tick, finish_run, step, run_events, run_load_test, start_offsets,
}

count_errors-append :
    (rs : List RequestResult) (r : RequestResult) → count_errors rs ≤ count_errors (rs ++ r ∷ [])
unfolding count_errors
count_errors-append [] r = omega arith
count_errors-append (q ∷ rs) r = ground (arith, count_errors-append rs r)

-- The greatest of a start value and what `f` is on the reports.
unfoldable pub highest : {F : Type 0} → (Metrics F → ℕ) → ℕ → List (Metrics F) → ℕ
highest f c [] = c
highest f c (m ∷ ms) = highest f (if ltb c (f m) then f m else c) ms

highest-append :
    {F : Type 0} (f : Metrics F → ℕ) (c : ℕ) (ms : List (Metrics F)) (m : Metrics F)
    → highest f c (ms ++ m ∷ []) ≡ (if ltb (highest f c ms) (f m) then f m else highest f c ms)
unfolding highest
highest-append f c [] m = refl
highest-append f c (n ∷ ms) m = highest-append f (if ltb c (f n) then f n else c) ms m

highest_ge : {F : Type 0} (f : Metrics F → ℕ) (c : ℕ) (ms : List (Metrics F)) → c ≤ highest f c ms
unfolding highest
highest_ge f c [] = omega arith
highest_ge f c (m ∷ ms) = ground (arith, highest_ge f (if ltb c (f m) then f m else c) ms)

abbrev pub requests_of : {F : Type 0} → Metrics F → ℕ
requests_of m = m.requests

abbrev pub errors_of : {F : Type 0} → Metrics F → ℕ
errors_of m = m.errors

advance_lem :
    (n counted total : ℕ)
    → ((advance n counted total).0 ≡ (if ltb counted n then n else counted))
      × ((advance n counted total).1 + counted ≡ total + (advance n counted total).0)
unfolding advance
advance_lem n counted total = ground arith

module _ {F Q : Type 0} ⦃fl : Float F⦄ (g : Group Q) where
  -- Each counter rises from what was counted to the greatest of the reports.
  publish_reports-counters :
      (test_id : Text) (ms : List (Metrics F)) (c : Counted) (h : Host Q)
      → let h' = publish_reports g test_id ms c h in
        (h'.counters.requests_generated + c.requests
          ≡ h.counters.requests_generated + highest requests_of c.requests ms)
        × (h'.counters.request_errors + c.errors
            ≡ h.counters.request_errors + highest errors_of c.errors ms)
  unfolding publish_reports highest count_report
  publish_reports-counters test_id [] c h = (refl, refl)
  publish_reports-counters test_id (m ∷ ms) c h =
      let (counted, counters) = count_report m c h.counters in
      let rest =
        publish_reports-counters test_id ms counted (record {
          queue = (g.x_add (metrics_fields test_id m) h.queue).0;
          counters = counters;
        }) in
      let (r, more_r) = advance_lem m.requests c.requests h.counters.requests_generated in
      let (e, more_e) = advance_lem m.errors c.errors h.counters.request_errors in
      let top_r = ap (λ n. highest requests_of n ms) (sym r) in
      let top_e = ap (λ n. highest errors_of n ms) (sym e) in
      (omega (arith, rest.0, more_r, top_r), omega (arith, rest.1, more_e, top_e))

module _ {F : Type 0} ⦃fl : Float F⦄ where
  compute_metrics-counts :
      (job_id : Text) (results : List RequestResult) (elapsed : ℕ) (done : Bool) (m : Metrics F)
      → compute_metrics job_id results elapsed done ≡ some m
      → (m.requests ≡ length results) × (m.errors ≡ count_errors results)
  unfolding compute_metrics count_errors
  compute_metrics-counts job_id [] elapsed done m h = ground arith
  compute_metrics-counts job_id (r ∷ rs) elapsed done m h = ground arith

  abbrev Within : Run F → Metrics F → Type 0
  Within s m = (m.requests ≤ length s.results) × (m.errors ≤ count_errors s.results)

  record IsTallied (s : Run F) : Type 0 where
    pub requests_within : highest requests_of 0 s.reports ≤ length s.results
    pub errors_within : highest errors_of 0 s.reports ≤ count_errors s.results
    pub pending_within : (m : Metrics F) → s.pending ≡ some m → Within s m
    pub all_counted :
        s.finished ≡ true
        → (s.active ≡ 0)
          × (highest requests_of 0 s.reports ≡ length s.results)
          × (highest errors_of 0 s.reports ≡ count_errors s.results)

  start_run-IsTallied : (vus : ℕ) → IsTallied (start_run vus)
  unfolding start_run highest
  start_run-IsTallied vus = record {
    requests_within = omega arith;
    errors_within = omega arith;
    pending_within = λ m e. ground arith;
    all_counted = λ e. ground arith;
  }

  add_result-IsTallied :
      (r : RequestResult) (s : Run F)
      → (s.active == 0) ≡ false
      → IsTallied s
      → IsTallied (record s { results = s.results ++ r ∷ [] })
  add_result-IsTallied r s n k =
      let longer = length-append s.results (r ∷ []) in
      let worse = count_errors-append s.results r in
      record {
        requests_within = omega (arith, k.requests_within, longer);
        errors_within = omega (arith, k.errors_within, worse);
        pending_within = λ m e. (
          omega (arith, (k.pending_within m e).0, longer),
          omega (arith, (k.pending_within m e).1, worse),
        );
        all_counted = λ e. absurd (ground (arith, k.all_counted e));
      }

  -- Reports that are within what is recorded leave the greatest of them as it was at the end.
  report-IsTallied :
      (m : Metrics F) (s : Run F)
      → Within s m
      → IsTallied s
      → IsTallied (record s { pending = none; reports = s.reports ++ m ∷ [] })
  report-IsTallied m s w k =
      let r = highest-append requests_of 0 s.reports m in
      let e = highest-append errors_of 0 s.reports m in
      record {
        requests_within = ground (arith, r, w, k.requests_within);
        errors_within = ground (arith, e, w, k.errors_within);
        pending_within = λ m e. ground arith;
        all_counted = λ f. ground (arith, r, e, w, k.all_counted f);
      }

  either : (b : Bool) (x y : Run F) → IsTallied x → IsTallied y → IsTallied (if b then x else y)
  either true x y h k = h
  either false x y h k = k

  publish_tick-IsTallied : (s : Run F) → IsTallied s → IsTallied (publish_tick s)
  unfolding publish_tick
  publish_tick-IsTallied s k = elim (Option-cases s.pending) [
    | inl e ↦ rw (publish_tick, e) k
    | inr (m, e) ↦
        let h = report-IsTallied m s (k.pending_within m e) k in
        rw (publish_tick, e)
          (either m.circuit_broken _ _
            (record {
              requests_within = h.requests_within;
              errors_within = h.errors_within;
              pending_within = h.pending_within;
              all_counted = h.all_counted;
            })
            h)
  ]

  take_tick-IsTallied :
      (job_id : Text) (elapsed : ℕ) (s t : Run F)
      → take_tick job_id elapsed s ≡ some t
      → IsTallied s
      → IsTallied t
  unfolding take_tick
  take_tick-IsTallied job_id elapsed s t h k =
      let computed : Option (Metrics F) = compute_metrics job_id s.results elapsed false in
      elim (Option-cases computed) [
        | inl e ↦ absurd (ground arith)
        | inr (m, e) ↦ ground (arith, compute_metrics-counts job_id s.results elapsed false m e, k)
      ]

  finish_run-IsTallied :
      (job_id : Text) (elapsed : ℕ) (s t : Run F)
      → s.active ≡ 0
      → finish_run job_id elapsed s ≡ some t
      → IsTallied s
      → IsTallied t
  unfolding finish_run
  finish_run-IsTallied job_id elapsed s t a h k =
      let computed : Option (Metrics F) = compute_metrics job_id s.results elapsed true in
      elim (Option-cases computed) [
        | inl e ↦ absurd (ground arith)
        | inr (m, e) ↦
            let c = compute_metrics-counts job_id s.results elapsed true m e in
            let m' : Metrics F = record m { circuit_broken = s.aborted } in
            ground (
              arith,
              c,
              k,
              highest-append requests_of 0 s.reports m',
              highest-append errors_of 0 s.reports m',
            )
      ]

  step-IsTallied :
      (job_id : Text) (e : Event) (s t : Run F)
      → step job_id e s ≡ some t
      → IsTallied s
      → IsTallied t
  unfolding step
  step-IsTallied job_id (request_ends r) s t h k = ground (arith, k, add_result-IsTallied r s)
  step-IsTallied job_id vu_returns s t h k = ground (arith, k)
  step-IsTallied job_id deadline s t h k = ground (arith, k)
  step-IsTallied job_id (tick elapsed) s t h k =
      ground (arith, k, take_tick-IsTallied job_id elapsed s t)
  step-IsTallied job_id tick_publishes s t h k = ground (arith, publish_tick-IsTallied s k)
  step-IsTallied job_id ticker_stops s t h k = ground (arith, k)
  step-IsTallied job_id (finish elapsed) s t h k =
      ground (arith, k, finish_run-IsTallied job_id elapsed s t)

  run_events-IsTallied :
      (job_id : Text) (es : List Event) (s t : Run F)
      → run_events job_id es s ≡ some t
      → IsTallied s
      → IsTallied t
  unfolding run_events
  run_events-IsTallied job_id [] s t h k = ground (arith, k)
  run_events-IsTallied job_id (e ∷ es) s t h k =
      let first : Option (Run F) = step job_id e s in
      elim (Option-cases first) [
        | inl stop ↦ absurd (ground arith)
        | inr (u, go) ↦
            run_events-IsTallied job_id es u t (ground arith) (step-IsTallied job_id e s u go k)
      ]

  run_load_test-IsTallied :
      (job : Job) (es : List Event) (s : Run F) → run_load_test job es ≡ some s → IsTallied s
  unfolding run_load_test
  run_load_test-IsTallied job es s h =
      let vus = length (start_offsets job) in
      run_events-IsTallied job.id es (start_run vus) s h (start_run-IsTallied vus)

module _ {F Q : Type 0} ⦃fl : Float F⦄ (g : Group Q) where
  -- Where no two calls of publish overlap: whatever happens while an accepted job runs to its final
  -- report, in whatever order its reports are published, the worker's counters of requests and of
  -- errors rise by exactly the requests that were recorded and by those of them that failed: no
  -- report counts a request twice, and none is left out.
  pub requests_counted_once :
      (values : Map Text Text) (job : Job) (es : List Event) (s : Run F) (h : Host Q)
      → parse_job values ≡ good job
      → validate job ≡ good tt
      → run_load_test job es ≡ some s
      → s.finished ≡ true
      → let h' = handle_job g (λ _. s.reports) values h in
        (h'.counters.requests_generated ≡ h.counters.requests_generated + length s.results)
        × (h'.counters.request_errors ≡ h.counters.request_errors + count_errors s.results)
  unfolding handle_job
  requests_counted_once values job es s h parsed valid ran over =
      let tallied = run_load_test-IsTallied job es s ran in
      let (_, requests, errors) = tallied.all_counted over in
      let (r, e) =
        publish_reports-counters g job.test_id s.reports (record { requests = 0; errors = 0 }) h in
      rw (handle_job, parsed, valid) (omega (arith, r, requests), omega (arith, e, errors))
