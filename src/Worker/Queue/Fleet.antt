-- ===== src/Worker/Queue/Fleet.antt =====
-- Workers that share a consumer group (worker/main.go and worker/reclaim.go). The commands of a
-- round, XPENDING, each XCLAIM and XREADGROUP, are steps of their own, between which the other
-- workers and Redis go on. A worker may die at any point. An XCLAIM is a step only within
-- staleJobAfter of the XPENDING that it follows: the counter that a worker goes by is that of its
-- XPENDING, and a worker that stalls for longer may claim with one that is out of date.
use sentry_load.Prelude.{
  ℕ, ◌+◌, ◌<◌, ◌≡◌, List, [], ◌∷◌, Option, none, some, Text, text_eq, Map, lookup, insert, delete,
  Float,
}
use sentry_load.Worker.Job.{Job}
use sentry_load.Worker.Metrics.{Metrics}
use sentry_load.Worker.Queue.{
  Group, Pending, Claim, claimed, nothing_stale, claim_failed, Work, stalled, max_deliveries,
  stale_job_after, pending_count, renew_lease, claim_one, read_new,
}
use sentry_load.Worker.Queue.Handle.{Counters, finish_work}
use sentry_load.Worker.Queue.Deliveries.{Ledger, Later, runs}

-- Where a worker is in its round: in the loop of claimStale, with the entries that are left and the
-- time of its XPENDING; before XREADGROUP; or at work.
pub data Worker : Type 0 where
  claiming : (looked_at : ℕ) → List Pending → Worker
  reading : Worker
  working : Work → Worker

-- The workers in a round by their consumer names, and the work that was ever taken, latest first.
pub record Fleet (Q : Type 0) : Type 0 where
  pub queue : Q
  pub workers : Map Text Worker
  pub taken : List Work

abbrev pub idle_fleet : {Q : Type 0} → Q → Fleet Q
idle_fleet q = record { queue = q; workers = []; taken = [] }

-- How often a message was run.
unfoldable pub times_run : Text → List Work → ℕ
times_run id [] = 0
times_run id (w ∷ ws) = runs id w + times_run id ws

module _ {Q : Type 0} (g : Group Q) where
  unfoldable pub set_worker : Text → Worker → Fleet Q → Fleet Q
  set_worker consumer w s = record s { workers = insert consumer w s.workers }

  -- XPENDING; after an error the round goes on.
  unfoldable pub look : (Q → ℕ) → Text → Fleet Q → Fleet Q
  unfolding set_worker
  look now consumer s = elim (g.x_pending stale_job_after pending_count s.queue) [
    | none ↦ set_worker consumer reading s
    | some pending ↦ set_worker consumer (claiming (now s.queue) pending) s
  ]

  -- What an XCLAIM that has been answered leaves the worker to do.
  unfoldable pub after_claim : Text → ℕ → List Pending → Option Claim → Fleet Q → Fleet Q
  unfolding set_worker
  after_claim consumer looked_at ps none s = set_worker consumer (claiming looked_at ps) s
  after_claim consumer looked_at ps (some nothing_stale) s = set_worker consumer reading s
  after_claim consumer looked_at ps (some claim_failed) s = set_worker consumer reading s
  after_claim consumer looked_at ps (some (claimed id fields exhausted)) s =
      let work = stalled id fields exhausted in
      set_worker consumer (working work) (record s { taken = work ∷ s.taken })

  unfoldable pub claim : Text → ℕ → Pending → List Pending → Fleet Q → Fleet Q
  unfolding after_claim
  claim consumer looked_at p ps s =
      let (q, found) = claim_one g consumer stale_job_after max_deliveries p s.queue in
      after_claim consumer looked_at ps found (record s { queue = q })

  unfoldable pub read : Text → Fleet Q → Fleet Q
  unfolding set_worker
  read consumer s =
      let (q, work) = read_new g consumer s.queue in
      set_worker consumer (working work) (record s { queue = q; taken = work ∷ s.taken })

  module _ {F : Type 0} ⦃fl : Float F⦄ (run_load_test : Job → List (Metrics F)) where
    unfoldable pub finish : Text → Work → Counters → Fleet Q → Fleet Q
    finish consumer work counters s = record s {
      queue =
          (finish_work g run_load_test work
            (record { queue = s.queue; counters = counters })).queue;
      workers = delete consumer s.workers;
    }

    module _ (l : Ledger Q) where
      -- `others` is whatever else happens to the stream meanwhile: time passes, tests are
      -- published, a report or an acknowledgement arrives early.
      pub data Step (s : Fleet Q) : Fleet Q → Type 0 where
        looks :
            (consumer : Text) → lookup consumer s.workers ≡ none → Step s (look l.now consumer s)
        claims :
            (consumer : Text) (looked_at : ℕ) (p : Pending) (ps : List Pending)
            → lookup consumer s.workers ≡ some (claiming looked_at (p ∷ ps))
            → l.now s.queue < looked_at + stale_job_after
            → Step s (claim consumer looked_at p ps s)
        gives_up :
            (consumer : Text) (looked_at : ℕ)
            → lookup consumer s.workers ≡ some (claiming looked_at [])
            → Step s (set_worker consumer reading s)
        reads :
            (consumer : Text) → lookup consumer s.workers ≡ some reading → Step s (read consumer s)
        renews :
            (consumer id : Text)
            → Step s (record s { queue = (renew_lease g consumer id s.queue).0 })
        finishes :
            (consumer : Text) (work : Work) (counters : Counters)
            → lookup consumer s.workers ≡ some (working work)
            → Step s (finish consumer work counters s)
        dies : (consumer : Text) → Step s (record s { workers = delete consumer s.workers })
        others : (q : Q) → Later l s.queue q → Step s (record s { queue = q })

      pub data Reach (s : Fleet Q) : Fleet Q → Type 0 where
        here : Reach s s
        next : {t u : Fleet Q} → Reach s t → Step t u → Reach s u
