-- ===== src/Worker/Queue/Handle.antt =====
-- handleJob and the rest of a round of worker/main.go, and abandonJob of worker/reclaim.go: what a
-- worker does with its work, and its Prometheus counters.
use sentry_load.Prelude.{
  ℕ, ◌+◌, ◌-◌, List, [], ◌∷◌, none, some, Text, text_eq, bytes, ltb, if◌then◌else◌, Map, lookup_or,
  Float,
}
use sentry_load.Worker.Job.{Job, good, bad, parse_job, validate}
use sentry_load.Worker.Metrics.{Metrics, metrics_fields, abandon_fields}
use sentry_load.Worker.Queue.{Message, Group, Work, stalled, fresh, no_work, take_work}

-- The gauge of jobs in progress, which handleJob raises and lowers again, is left out; jobsTotal
-- stands by the value of its label circuit_broken.
pub record Counters : Type 0 where
  pub requests_generated : ℕ
  pub request_errors : ℕ
  pub jobs_completed : ℕ
  pub jobs_broken : ℕ
  pub jobs_reclaimed : ℕ
  pub jobs_abandoned : ℕ

-- Redis and the counters; countedRequests and countedErrors belong to one call of handleJob.
pub record Host (Q : Type 0) : Type 0 where
  pub queue : Q
  pub counters : Counters

pub record Counted : Type 0 where
  pub requests : ℕ
  pub errors : ℕ

-- if delta := n - counted; delta > 0 { total += delta; counted = n }
unfoldable pub advance : ℕ → ℕ → ℕ → ℕ × ℕ
advance n counted total = if ltb counted n then (n, total + (n - counted)) else (counted, total)

module _ {F : Type 0} where
  -- The counters of the closure publish.
  unfoldable pub count_report : Metrics F → Counted → Counters → Counted × Counters
  unfolding advance
  count_report m counted c =
      let (requests, requests_generated) =
        advance m.requests counted.requests c.requests_generated in
      let (errors, request_errors) = advance m.errors counted.errors c.request_errors in
      (
        record { requests = requests; errors = errors },
        record c {
          requests_generated = requests_generated;
          request_errors = request_errors;
          jobs_completed =
              (if m.done
                then (if m.circuit_broken then c.jobs_completed else c.jobs_completed + 1)
                else c.jobs_completed);
          jobs_broken =
              (if m.done
                then (if m.circuit_broken then c.jobs_broken + 1 else c.jobs_broken)
                else c.jobs_broken);
        },
      )

module _ {Q : Type 0} (g : Group Q) where
  -- A field that is missing reads as the empty text.
  unfoldable pub abandon_job : Map Text Text → Host Q → Host Q
  abandon_job values h = record h {
    queue =
        (g.x_add
          (abandon_fields (lookup_or [] (bytes "id") values)
            (lookup_or [] (bytes "test_id") values))
          h.queue).0;
    counters = record (h.counters) { jobs_abandoned = h.counters.jobs_abandoned + 1 };
  }

  unfoldable pub acknowledge : Text → Host Q → Host Q
  acknowledge id h = record h { queue = (g.x_ack id h.queue).0 }

module _ {F Q : Type 0} ⦃fl : Float F⦄ (g : Group Q) where
  -- The closure publish on every report, where its calls come one after another; Overlap is about
  -- calls that do not. A message that Redis refuses is logged and lost.
  unfoldable pub publish_reports : Text → List (Metrics F) → Counted → Host Q → Host Q
  unfolding count_report
  publish_reports test_id [] counted h = h
  publish_reports test_id (m ∷ ms) counted h =
      let (counted', counters') = count_report m counted h.counters in
      publish_reports test_id ms counted'
        (record { queue = (g.x_add (metrics_fields test_id m) h.queue).0; counters = counters' })

  -- A job that does not parse, or that is beyond the caps, is logged and dropped.
  unfoldable pub handle_job :
      (run_load_test : Job → List (Metrics F)) → Map Text Text → Host Q → Host Q
  unfolding publish_reports
  handle_job run_load_test values h = elim (parse_job values) [
    | bad e ↦ h
    | good job ↦ elim (validate job) [
      | bad e ↦ h
      | good _ ↦
          publish_reports job.test_id (run_load_test job) (record { requests = 0; errors = 0 }) h
    ]
  ]

  module _ (run_load_test : Job → List (Metrics F)) where
    -- A message without fields has no job that parses.
    unfoldable pub run_fresh : List Message → Host Q → Host Q
    unfolding handle_job acknowledge
    run_fresh [] h = h
    run_fresh (msg ∷ ms) h =
        let values : Map Text Text = elim msg.fields [ none ↦ [] | some fields ↦ fields ] in
        run_fresh ms (acknowledge g msg.id (handle_job run_load_test values h))

    unfoldable pub finish_work : Work → Host Q → Host Q
    unfolding run_fresh abandon_job
    finish_work (stalled id fields exhausted) h =
        let reclaimed = record h {
          counters = record (h.counters) { jobs_reclaimed = h.counters.jobs_reclaimed + 1 };
        } in
        acknowledge g id
          (if exhausted then abandon_job g fields h else handle_job run_load_test fields reclaimed)
    finish_work (fresh ms) h = run_fresh ms h
    finish_work no_work h = h

    -- One round of the loop of main.
    unfoldable pub one_round : Text → Host Q → Host Q
    unfolding take_work finish_work
    one_round consumer h =
        let (q, work) = take_work g consumer h.queue in finish_work work (record h { queue = q })
