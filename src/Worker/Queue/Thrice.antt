-- ===== src/Worker/Queue/Thrice.antt =====
-- How often the workers of Fleet run a message (worker/reclaim.go: maxDeliveries).
use sentry_load.Prelude.{
  ℕ, ◌+◌, ◌≤◌, ◌<◌, ◌≡◌, subst, inl, inr, List, [], ◌∷◌, some, arith, All, Text, text_eq, same_iff,
  ◌==◌, Bool-cases, Option-cases, Map, lookup, insert, delete, Float,
}
use sentry_load.Worker.Job.{Job}
use sentry_load.Worker.Metrics.{Metrics}
use sentry_load.Worker.Queue.{
  Group, Pending, claimed, nothing_stale, claim_failed, Work, stalled, max_deliveries,
  stale_job_after, pending_count, renew_lease, claim_one, read_new,
}
use sentry_load.Worker.Queue.Deliveries.{
  Ledger, Later, Later-refl, Delivers, runs, IsCurrent, IsCounted, claim_one-Later,
  claim_one-counts, read_new-Later, read_new-IsCounted, finish_work-Later,
}
use sentry_load.Worker.Queue.Fleet.{
  Worker, claiming, reading, working, Fleet, idle_fleet, times_run, set_worker, look, after_claim,
  claim, read, finish, Step, looks, claims, gives_up, reads, renews, finishes, dies, others, Reach,
  here, next,
}

module _ {Q : Type 0} (g : Group Q) (l : Ledger Q) (laws : Delivers g l) where
  -- What a worker knows is not from the future, and current as far as nobody else delivered.
  abbrev IsInformed : Q → Worker → Type 0
  IsInformed q (claiming looked_at ps) =
      (looked_at ≤ l.now q) × All (IsCurrent g l laws looked_at q) ps
  IsInformed q reading = Unit
  IsInformed q (working work) = Unit

  IsCurrent-Later :
      (looked_at : ℕ) (q q' : Q) (ps : List Pending)
      → Later l q q'
      → looked_at ≤ l.now q
      → All (IsCurrent g l laws looked_at q) ps
      → All (IsCurrent g l laws looked_at q') ps
  IsCurrent-Later looked_at q q' [] h b a = tt
  IsCurrent-Later looked_at q q' (p ∷ ps) h b a =
      (ground (arith, h.1 p.id, b, a.0), IsCurrent-Later looked_at q q' ps h b a.1)

  IsInformed-Later : (q q' : Q) (w : Worker) → Later l q q' → IsInformed q w → IsInformed q' w
  IsInformed-Later q q' (claiming looked_at ps) h k =
      (omega (arith, h.0, k.0), IsCurrent-Later looked_at q q' ps h k.0 k.1)
  IsInformed-Later q q' reading h k = tt
  IsInformed-Later q q' (working work) h k = tt

  IsCurrent-now :
      (q : Q) (ps : List Pending)
      → All (λ p. p.retry_count ≡ l.count p.id q) ps
      → All (IsCurrent g l laws (l.now q) q) ps
  IsCurrent-now q [] h = tt
  IsCurrent-now q (p ∷ ps) h = (inl h.0, IsCurrent-now q ps h.1)

  -- Every worker of the map.
  abbrev AreInformed : Q → Map Text Worker → Type 0
  AreInformed q m = All (λ e. IsInformed q e.1) m

  AreInformed-Later :
      (q q' : Q) (m : Map Text Worker) → Later l q q' → AreInformed q m → AreInformed q' m
  AreInformed-Later q q' [] h a = tt
  AreInformed-Later q q' ((c, w) ∷ m) h a =
      (IsInformed-Later q q' w h a.0, AreInformed-Later q q' m h a.1)

  insert-AreInformed :
      (q : Q) (c : Text) (w : Worker) (m : Map Text Worker)
      → IsInformed q w
      → AreInformed q m
      → AreInformed q (insert c w m)
  unfolding insert
  insert-AreInformed q c w [] h a = (h, tt)
  insert-AreInformed q c w ((d, v) ∷ m) h a = elim (Bool-cases (d == c)) [
    | inl e ↦ rw e (h, a.1)
    | inr e ↦ rw e (a.0, insert-AreInformed q c w m h a.1)
  ]

  delete-AreInformed :
      (q : Q) (c : Text) (m : Map Text Worker) → AreInformed q m → AreInformed q (delete c m)
  unfolding delete
  delete-AreInformed q c [] a = tt
  delete-AreInformed q c ((d, v) ∷ m) a = elim (Bool-cases (d == c)) [
    | inl e ↦ rw e (delete-AreInformed q c m a.1)
    | inr e ↦ rw e (a.0, delete-AreInformed q c m a.1)
  ]

  lookup-IsInformed :
      (q : Q) (c : Text) (w : Worker) (m : Map Text Worker)
      → lookup c m ≡ some w
      → AreInformed q m
      → IsInformed q w
  unfolding lookup
  lookup-IsInformed q c w [] e a = absurd (ground arith)
  lookup-IsInformed q c w ((d, v) ∷ m) e a = elim (Bool-cases (d == c)) [
    | inl k ↦ subst (IsInformed q) (ground (arith, e, k)) a.0
    | inr k ↦ lookup-IsInformed q c w m (ground (arith, e, k)) a.1
  ]

  record IsBounded (id : Text) (s : Fleet Q) : Type 0 where
    counted : times_run id s.taken ≤ l.count id s.queue
    bounded : times_run id s.taken ≤ max_deliveries
    informed : AreInformed s.queue s.workers

  set_worker-IsBounded :
      (id c : Text) (w : Worker) (s : Fleet Q)
      → IsInformed s.queue w
      → IsBounded id s
      → IsBounded id (set_worker g c w s)
  unfolding set_worker
  set_worker-IsBounded id c w s h k = record {
    counted = k.counted;
    bounded = k.bounded;
    informed = insert-AreInformed s.queue c w s.workers h k.informed;
  }

  Later-IsBounded :
      (id : Text) (q : Q) (s : Fleet Q)
      → Later l s.queue q
      → IsBounded id s
      → IsBounded id (record s { queue = q })
  Later-IsBounded id q s h k = record {
    counted = omega (arith, h.1 id, k.counted);
    bounded = k.bounded;
    informed = AreInformed-Later s.queue q s.workers h k.informed;
  }

  take-IsBounded :
      (id c : Text) (q : Q) (work : Work) (s : Fleet Q)
      → Later l s.queue q
      → IsCounted g l laws id s.queue q work
      → IsBounded id s
      → IsBounded id
          (set_worker g c (working work) (record s { queue = q; taken = work ∷ s.taken }))
  unfolding times_run
  take-IsBounded id c q work s h n k = set_worker-IsBounded id c (working work) _ tt (record {
    counted = ground (arith, h.1 id, n, k.counted);
    bounded = ground (arith, n, k.counted, k.bounded);
    informed = AreInformed-Later s.queue q s.workers h k.informed;
  })

  look-IsBounded : (id c : Text) (s : Fleet Q) → IsBounded id s → IsBounded id (look g l.now c s)
  unfolding look
  look-IsBounded id c s k =
      elim (Option-cases (g.x_pending stale_job_after pending_count s.queue)) [
        | inl e ↦ rw (look, e) (set_worker-IsBounded id c reading s tt k)
        | inr (ps, e) ↦
            let current = IsCurrent-now s.queue ps (laws.reported _ _ s.queue ps e) in
            rw (look, e)
              (set_worker-IsBounded id c (claiming (l.now s.queue) ps) s (omega arith, current) k)
      ]

  claim-IsBounded :
      (id c : Text) (looked_at : ℕ) (p : Pending) (ps : List Pending) (s : Fleet Q)
      → IsInformed s.queue (claiming looked_at (p ∷ ps))
      → l.now s.queue < looked_at + stale_job_after
      → IsBounded id s
      → IsBounded id (claim g c looked_at p ps s)
  unfolding claim after_claim
  claim-IsBounded id c looked_at p ps s h soon k =
      let q = (claim_one g c stale_job_after max_deliveries p s.queue).0 in
      let later : Later l s.queue q = claim_one-Later g l laws c stale_job_after p s.queue in
      let k' = Later-IsBounded id q s later k in
      elim (Option-cases (claim_one g c stale_job_after max_deliveries p s.queue).1) [
        | inl e ↦
            rw (claim, e, after_claim)
              (set_worker-IsBounded id c (claiming looked_at ps) _
                (
                  omega (arith, later.0, h.0),
                  IsCurrent-Later looked_at s.queue q ps later h.0 h.1.1,
                )
                k')
        | inr (nothing_stale, e) ↦
            rw (claim, e, after_claim) (set_worker-IsBounded id c reading _ tt k')
        | inr (claim_failed, e) ↦
            rw (claim, e, after_claim) (set_worker-IsBounded id c reading _ tt k')
        | inr (claimed j fields exhausted, e) ↦
            rw (claim, e, after_claim)
              (take-IsBounded id c q (stalled j fields exhausted) s later
                (unfold runs in
                  ground (
                    arith,
                    claim_one-counts g l laws c stale_job_after looked_at p s.queue j fields
                        exhausted h.1.0 soon e,
                    same_iff j id,
                  ))
                k)
      ]

  read-IsBounded : (id c : Text) (s : Fleet Q) → IsBounded id s → IsBounded id (read g c s)
  unfolding read
  read-IsBounded id c s k =
      take-IsBounded id c (read_new g c s.queue).0 (read_new g c s.queue).1 s
        (read_new-Later g l laws c s.queue) (read_new-IsCounted g l laws c id s.queue) k

  leave-IsBounded :
      (id c : Text) (q : Q) (s : Fleet Q)
      → Later l s.queue q
      → IsBounded id s
      → IsBounded id (record s { queue = q; workers = delete c s.workers })
  leave-IsBounded id c q s h k =
      let k' = Later-IsBounded id q s h k in
      record {
        counted = k'.counted;
        bounded = k'.bounded;
        informed = delete-AreInformed q c s.workers k'.informed;
      }

  module _ {F : Type 0} ⦃fl : Float F⦄ (run_load_test : Job → List (Metrics F)) where
    Step-IsBounded :
        (id : Text) {s t : Fleet Q} → Step g run_load_test l s t → IsBounded id s → IsBounded id t
    unfolding finish renew_lease
    Step-IsBounded id {s = s} (looks c free) k = look-IsBounded id c s k
    Step-IsBounded id {s = s} (claims c looked_at p ps e soon) k =
        claim-IsBounded id c looked_at p ps s (lookup-IsInformed s.queue c _ s.workers e k.informed)
          soon k
    Step-IsBounded id {s = s} (gives_up c looked_at e) k = set_worker-IsBounded id c reading s tt k
    Step-IsBounded id {s = s} (reads c e) k = read-IsBounded id c s k
    Step-IsBounded id {s = s} (renews c j) k =
        Later-IsBounded id _ s (laws.just_id_later c 0 j s.queue) k
    Step-IsBounded id {s = s} (finishes c work counters e) k =
        leave-IsBounded id c _ s
          (finish_work-Later g l laws run_load_test work
            (record { queue = s.queue; counters = counters }))
          k
    Step-IsBounded id {s = s} (dies c) k = leave-IsBounded id c s.queue s (Later-refl l s.queue) k
    Step-IsBounded id {s = s} (others q h) k = Later-IsBounded id q s h k

    Reach-IsBounded :
        (id : Text) (q : Q) {s : Fleet Q}
        → Reach g run_load_test l (idle_fleet q) s
        → IsBounded id s
    unfolding times_run
    Reach-IsBounded id q here = record {
      counted = omega arith;
      bounded = omega arith;
      informed = tt;
    }
    Reach-IsBounded id q (next r step) = Step-IsBounded id step (Reach-IsBounded id q r)

    -- Any number of workers look for stalled jobs, claim them one by one, read new ones, finish and
    -- die, and others change the stream without setting the group's counters or the clock back, in
    -- any order: where no XCLAIM takes effect staleJobAfter or longer after the XPENDING that it
    -- follows, no message of the jobs stream is run more than three times, given what is documented
    -- of the group's counters and idle times.
    pub job_runs_at_most_thrice :
        (id : Text) (q : Q) (s : Fleet Q)
        → Reach g run_load_test l (idle_fleet q) s
        → times_run id s.taken ≤ max_deliveries
    job_runs_at_most_thrice id q s r = (Reach-IsBounded id q r).bounded
