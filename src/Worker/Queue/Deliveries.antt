-- ===== src/Worker/Queue/Deliveries.antt =====
-- What the workers rely on of the consumer group of Redis: its counter of deliveries and its idle
-- times, and how the commands of worker/reclaim.go and worker/main.go change them.
use sentry_load.Prelude.{
  ℕ, ◌+◌, ◌≤◌, ◌<◌, ◌≡◌, refl, inl, inr, ◌⊎◌, Bool, true, false, List, [], ◌∷◌, none, some, arith,
  All, Text, text_eq, ◌==◌, leb, if◌then◌else◌, Option-cases, Bool-cases, same_iff, Map, Float,
}
use sentry_load.Worker.Job.{Job, JobError, Result, good, bad, parse_job, validate}
use sentry_load.Worker.Metrics.{Metrics, metrics_fields}
use sentry_load.Worker.Queue.{
  Message, Pending, Read, messages, quiet, failed, Group, claimed, Work, stalled, fresh, no_work,
  max_deliveries, claim_one, read_new, is_no_group,
}
use sentry_load.Worker.Queue.Handle.{
  Host, Counted, handle_job, abandon_job, acknowledge, publish_reports, finish_work, run_fresh,
}

-- What Redis keeps: how often the group has delivered a message, when it last did so or its lease
-- was last renewed, and its clock.
pub record Ledger (Q : Type 0) : Type 0 where
  pub count : Text → Q → ℕ
  pub delivered_at : Text → Q → ℕ
  pub now : Q → ℕ

module _ {Q : Type 0} (l : Ledger Q) where
  -- The state `q` may become `q'`: the clock and the counters do not go back, and a message whose
  -- counter rises is delivered at that time.
  abbrev pub Later : Q → Q → Type 0
  Later q q' =
      (l.now q ≤ l.now q')
      × ((id : Text)
          → (l.count id q ≤ l.count id q')
            × (l.delivered_at id q ≤ l.delivered_at id q')
            × ((l.count id q' ≡ l.count id q) ⊎ (l.now q ≤ l.delivered_at id q')))

  pub Later-refl : (q : Q) → Later q q
  Later-refl q = (omega arith, λ id. (omega arith, omega arith, inl refl))

  pub Later-trans : (q r s : Q) → Later q r → Later r s → Later q s
  Later-trans q r s h k = (omega (arith, h.0, k.0), λ id. ground (arith, h.0, h.1 id, k.1 id))

-- What is documented of the commands: none sets a counter or the clock back, XPENDING reports the
-- counters, XCLAIM returns only the message that was asked for, which was idle for as long as was
-- asked, and counts that delivery, and XREADGROUP with COUNT 1 returns one message at most, that was
-- not delivered before.
pub record Delivers {Q : Type 0} (g : Group Q) (l : Ledger Q) : Type 0 where
  pub reported :
      (idle n : ℕ) (q : Q) (ps : List Pending)
      → g.x_pending idle n q ≡ some ps
      → All (λ p. p.retry_count ≡ l.count p.id q) ps
  pub claim_later : (c : Text) (idle : ℕ) (id : Text) (q : Q) → Later l q (g.x_claim c idle id q).0
  pub claim_counts :
      (c : Text) (idle : ℕ) (id : Text) (q : Q) (m : Message) (ms : List Message)
      → (g.x_claim c idle id q).1 ≡ some (m ∷ ms)
      → (m.id ≡ id)
        × (l.count id q < l.count id (g.x_claim c idle id q).0)
        × (l.delivered_at id q + idle ≤ l.now q)
  pub just_id_later :
      (c : Text) (idle : ℕ) (id : Text) (q : Q) → Later l q (g.x_claim_just_id c idle id q).0
  pub read_later : (c : Text) (q : Q) → Later l q (g.x_read_group c q).0
  pub read_counts :
      (c : Text) (q : Q) (m : Message) (ms : List Message)
      → (g.x_read_group c q).1 ≡ messages (m ∷ ms)
      → (ms ≡ []) × (l.count m.id q ≡ 0) × (0 < l.count m.id (g.x_read_group c q).0)
  pub ack_later : (id : Text) (q : Q) → Later l q (g.x_ack id q).0
  pub add_later : (fields : Map Text Text) (q : Q) → Later l q (g.x_add fields q).0
  pub create_later : (q : Q) → Later l q (g.x_group_create q).0

-- The messages that the work runs, as opposed to abandons.
unfoldable pub runs : Text → Work → ℕ
runs id (stalled j fields exhausted) = if exhausted then 0 else if j == id then 1 else 0
runs id (fresh []) = 0
runs id (fresh (m ∷ ms)) = (if m.id == id then 1 else 0) + runs id (fresh ms)
runs id no_work = 0

Read-cases :
    (r : Read)
    → (r ≡ quiet) ⊎ (((err : Text) × (r ≡ failed err)) ⊎ ((ms : List Message) × (r ≡ messages ms)))
Read-cases quiet = inl refl
Read-cases (failed err) = inr (inl (err, refl))
Read-cases (messages ms) = inr (inr (ms, refl))

parsed-cases :
    {A : Type 0} (r : Result A) → ((e : JobError) × (r ≡ bad e)) ⊎ ((a : A) × (r ≡ good a))
parsed-cases (bad e) = inl (e, refl)
parsed-cases (good a) = inr (a, refl)

module _ {Q : Type 0} (g : Group Q) (l : Ledger Q) (laws : Delivers g l) where
  -- Work that runs a message was not delivered three times before, and counts as a delivery.
  abbrev pub IsCounted : Text → Q → Q → Work → Type 0
  IsCounted j q q' work =
      (runs j work ≡ 0)
      ⊎ ((runs j work ≡ 1) × (l.count j q < l.count j q') × (l.count j q < max_deliveries))

  -- The entry tells the counter as it is, unless the message was delivered since `looked_at`.
  abbrev pub IsCurrent : ℕ → Q → Pending → Type 0
  IsCurrent looked_at q p = (p.retry_count ≡ l.count p.id q) ⊎ (looked_at ≤ l.delivered_at p.id q)

  pub claim_one-Later :
      (consumer : Text) (idle : ℕ) (p : Pending) (q : Q)
      → Later l q (claim_one g consumer idle max_deliveries p q).0
  unfolding claim_one
  claim_one-Later consumer idle p q =
      let later = laws.claim_later consumer idle p.id q in
      elim (Option-cases (g.x_claim consumer idle p.id q).1) [
        | inl e ↦ rw (claim_one, e) later
        | inr ([], e) ↦ rw (claim_one, e) later
        | inr (m ∷ ms, e) ↦ (elim (Option-cases m.fields) [
          | inl trimmed ↦ rw (claim_one, e, trimmed) later
          | inr (values, whole) ↦ rw (claim_one, e, whole) later
        ])
      ]

  -- An XCLAIM that follows its XPENDING within the idle time finds the counter that was reported.
  pub claim_one-counts :
      (consumer : Text) (idle looked_at : ℕ) (p : Pending) (q : Q) (id : Text)
      (fields : Map Text Text) (exhausted : Bool)
      → IsCurrent looked_at q p
      → l.now q < looked_at + idle
      → (claim_one g consumer idle max_deliveries p q).1 ≡ some (claimed id fields exhausted)
      → (exhausted ≡ leb max_deliveries (l.count id q))
        × (l.count id q < l.count id (claim_one g consumer idle max_deliveries p q).0)
  unfolding claim_one
  claim_one-counts consumer idle looked_at p q id fields exhausted current soon h =
      elim (Option-cases (g.x_claim consumer idle p.id q).1) [
        | inl e ↦ absurd (ground arith)
        | inr ([], e) ↦ absurd (ground arith)
        | inr (m ∷ ms, e) ↦ (elim (Option-cases m.fields) [
          | inl trimmed ↦ absurd (ground arith)
          | inr (values, whole) ↦
              ground (arith, laws.claim_counts consumer idle p.id q m ms e, current, soon)
        ])
      ]

  pub read_new-Later : (consumer : Text) (q : Q) → Later l q (read_new g consumer q).0
  unfolding read_new
  read_new-Later consumer q =
      let later = laws.read_later consumer q in
      elim (Read-cases (g.x_read_group consumer q).1) [
        | inl e ↦ rw (read_new, e) later
        | inr (inl (err, e)) ↦ elim (Bool-cases (is_no_group (some err))) [
          | inl gone ↦
              let q1 = (g.x_group_create (g.x_read_group consumer q).0).0 in
              rw (read_new, e, gone)
                (Later-trans l q (g.x_read_group consumer q).0 q1 later (laws.create_later _))
          | inr other ↦ rw (read_new, e, other) later
        ]
        | inr (inr (ms, e)) ↦ rw (read_new, e) later
      ]

  pub read_new-IsCounted :
      (consumer j : Text) (q : Q) → let (q', work) = read_new g consumer q in IsCounted j q q' work
  unfolding read_new runs
  read_new-IsCounted consumer j q = elim (Read-cases (g.x_read_group consumer q).1) [
    | inl e ↦ rw (read_new, e) (inl refl)
    | inr (inl (err, e)) ↦ ground (arith, e)
    | inr (inr ([], e)) ↦ rw (read_new, e) (inl refl)
    | inr (inr (m ∷ ms, e)) ↦ ground (arith, e, laws.read_counts consumer q m ms e, same_iff m.id j)
  ]

  module _ {F : Type 0} ⦃fl : Float F⦄ where
    publish_reports-Later :
        (test_id : Text) (ms : List (Metrics F)) (c : Counted) (h : Host Q)
        → Later l h.queue (publish_reports g test_id ms c h).queue
    unfolding publish_reports
    publish_reports-Later test_id [] c h = Later-refl l h.queue
    publish_reports-Later test_id (m ∷ ms) c h =
        Later-trans l h.queue _ _ (laws.add_later (metrics_fields test_id m) h.queue)
          (publish_reports-Later test_id ms _ _)

    handle_job-Later :
        (run : Job → List (Metrics F)) (values : Map Text Text) (h : Host Q)
        → Later l h.queue (handle_job g run values h).queue
    unfolding handle_job
    handle_job-Later run values h = elim (parsed-cases (parse_job values)) [
      | inl (err, e) ↦ rw (handle_job, e) (Later-refl l h.queue)
      | inr (job, e) ↦ elim (parsed-cases (validate job)) [
        | inl (err, k) ↦ rw (handle_job, e, k) (Later-refl l h.queue)
        | inr (_, k) ↦ rw (handle_job, e, k) (publish_reports-Later job.test_id (run job) _ h)
      ]
    ]

    run_fresh-Later :
        (run : Job → List (Metrics F)) (ms : List Message) (h : Host Q)
        → Later l h.queue (run_fresh g run ms h).queue
    unfolding run_fresh acknowledge
    run_fresh-Later run [] h = Later-refl l h.queue
    run_fresh-Later run (m ∷ ms) h =
        let values : Map Text Text = elim m.fields [ none ↦ [] | some fields ↦ fields ] in
        let handled = handle_job g run values h in
        let acked = acknowledge g m.id handled in
        Later-trans l h.queue handled.queue _ (handle_job-Later run values h) (
          Later-trans l handled.queue acked.queue _ (laws.ack_later m.id handled.queue)
            (run_fresh-Later run ms acked))

    pub finish_work-Later :
        (run : Job → List (Metrics F)) (work : Work) (h : Host Q)
        → Later l h.queue (finish_work g run work h).queue
    unfolding finish_work abandon_job acknowledge
    finish_work-Later run no_work h = Later-refl l h.queue
    finish_work-Later run (fresh ms) h = run_fresh-Later run ms h
    finish_work-Later run (stalled id fields true) h =
        Later-trans l h.queue (abandon_job g fields h).queue _ (laws.add_later _ h.queue)
          (laws.ack_later id _)
    finish_work-Later run (stalled id fields false) h =
        let reclaimed = record h {
          counters = record (h.counters) { jobs_reclaimed = h.counters.jobs_reclaimed + 1 };
        } in
        Later-trans l h.queue (handle_job g run fields reclaimed).queue _
          (handle_job-Later run fields reclaimed) (laws.ack_later id _)
