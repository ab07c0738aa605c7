-- ===== src/Examples/Queue.antt =====
-- A job that two workers take one after the other.
use sentry_load.Prelude.{
  ℕ, zero, suc, ◌+◌, ◌≤◌, ◌<◌, ◌≡◌, refl, inl, inr, Bool, true, false, List, [], ◌∷◌, ◌++◌, Option,
  none, some, arith, All, length, Text, text_eq, bytes, nat_eq, ◌==◌, same_iff, if◌then◌else◌, pos,
  Map, lookup, lookup_or, insert, delete, lookup-insert, Bool-cases, subst, ◌||◌, ltb, min,
}
use sentry_load.Worker.Job.{Job}
use sentry_load.Worker.Metrics.{Metrics}
use sentry_load.Worker.Queue.{
  Message, Pending, Read, messages, quiet, Group, Work, fresh, stalled, max_deliveries,
}
use sentry_load.Worker.Queue.Deliveries.{Ledger, Later, Later-refl, Later-trans, Delivers}
use sentry_load.Worker.Queue.Fleet.{
  claiming, Fleet, idle_fleet, looks, claims, gives_up, reads, dies, others, Reach, here, next,
  look, claim, read, set_worker, times_run,
}
use sentry_load.Worker.Queue.Thrice.{job_runs_at_most_thrice}
use sentry_load.Examples.World.{whole}

-- Messages that wait, how often each was delivered and when it last was, and the clock.
record Stream : Type 0 where
  waiting : List Text
  delivered : Map Text ℕ
  times : Map Text ℕ
  clock : ℕ

count : Text → Stream → ℕ
count id q = lookup_or 0 id q.delivered

last : Text → Stream → ℕ
last id q = min q.clock (lookup_or 0 id q.times)

abbrev ledger : Ledger Stream
ledger = record { count = count; delivered_at = last; now = λ q. q.clock }

delivery : Text → Message
delivery id = record { id = id; fields = some [] }

report_all : Map Text ℕ → Stream → List Pending
report_all [] q = []
report_all ((id, n) ∷ rest) q = record { id = id; retry_count = count id q } ∷ report_all rest q

deliver : Text → Stream → Stream
deliver id q = record q {
  delivered = insert id (suc (count id q)) q.delivered;
  times = insert id q.clock q.times;
}

claim_from : ℕ → Text → Stream → Stream × Option (List Message)
claim_from idle id q =
    if count id q == 0 || ltb q.clock (last id q + idle)
    then (q, some [])
    else (deliver id q, some (delivery id ∷ []))

read_from : List Text → Stream → Stream × Read
read_from [] q = (q, quiet)
read_from (id ∷ ids) q =
    let rest : Stream = record q { waiting = ids } in
    if count id q == 0 then (deliver id rest, messages (delivery id ∷ [])) else (rest, quiet)

abbrev group : Group Stream
group = record {
  x_pending = λ idle n q. some (report_all q.delivered q);
  x_claim = λ c idle id q. claim_from idle id q;
  x_claim_just_id = λ c idle id q. (q, true);
  x_read_group = λ c q. read_from q.waiting q;
  x_ack = λ id q. (q, true);
  x_add = λ fields q. (q, true);
  x_group_create = λ q. (q, none);
}

count-deliver :
    (id j : Text) (q : Stream)
    → count j (deliver id q) ≡ (if id == j then suc (count id q) else count j q)
unfolding count deliver lookup_or
count-deliver id j q = ground (arith, lookup-insert id j (suc (count id q)) q.delivered)

last-deliver :
    (id j : Text) (q : Stream) → last j (deliver id q) ≡ (if id == j then q.clock else last j q)
unfolding last deliver lookup_or
last-deliver id j q = ground (arith, lookup-insert id j q.clock q.times)

last-le : (j : Text) (q : Stream) → last j q ≤ q.clock
unfolding last
last-le j q = ground arith

deliver-Later : (id : Text) (q : Stream) → Later ledger q (deliver id q)
unfolding deliver
deliver-Later id q = (
  omega arith,
  λ j. ground (arith, count-deliver id j q, last-deliver id j q, last-le j q, same_iff id j),
)

report_all-count :
    (m : Map Text ℕ) (q : Stream) → All (λ p. p.retry_count ≡ count p.id q) (report_all m q)
unfolding report_all
report_all-count [] q = tt
report_all-count ((id, n) ∷ m) q = (refl, report_all-count m q)

claim-Later : (idle : ℕ) (id : Text) (q : Stream) → Later ledger q (claim_from idle id q).0
unfolding claim_from
claim-Later idle id q = elim (Bool-cases (count id q == 0 || ltb q.clock (last id q + idle))) [
  | inl e ↦ rw (claim_from, e) (Later-refl ledger q)
  | inr e ↦ rw (claim_from, e) (deliver-Later id q)
]

claim-counts :
    (idle : ℕ) (id : Text) (q : Stream) (m : Message) (ms : List Message)
    → (claim_from idle id q).1 ≡ some (m ∷ ms)
    → (m.id ≡ id) × (count id q < count id (claim_from idle id q).0) × (last id q + idle ≤ q.clock)
unfolding claim_from delivery
claim-counts idle id q m ms e = ground (arith, e, count-deliver id id q, same_iff id id)

count-rest :
    (ids : List Text) (j : Text) (q : Stream) → count j (record q { waiting = ids }) ≡ count j q
unfolding count
count-rest ids j q = refl

rest-Later : (ids : List Text) (q : Stream) → Later ledger q (record q { waiting = ids })
unfolding count last
rest-Later ids q = Later-refl ledger q

read-Later : (ids : List Text) (q : Stream) → Later ledger q (read_from ids q).0
unfolding read_from
read-Later [] q = Later-refl ledger q
read-Later (id ∷ ids) q =
    let rest : Stream = record q { waiting = ids } in
    elim (Bool-cases (count id q == 0)) [
      | inl e ↦
          rw (read_from, e)
            (Later-trans ledger q rest (deliver id rest) (rest-Later ids q) (deliver-Later id rest))
      | inr e ↦ rw (read_from, e) (rest-Later ids q)
    ]

read-counts :
    (ids : List Text) (q : Stream) (m : Message) (ms : List Message)
    → (read_from ids q).1 ≡ messages (m ∷ ms)
    → (ms ≡ []) × (count m.id q ≡ 0) × (0 < count m.id (read_from ids q).0)
unfolding read_from delivery
read-counts [] q m ms e = absurd (ground arith)
read-counts (id ∷ ids) q m ms e =
    let rest : Stream = record q { waiting = ids } in
    ground (arith, e, count-rest ids id q, count-deliver id id rest, same_iff id id)

reported :
    (q : Stream) (ps : List Pending)
    → some (report_all q.delivered q) ≡ some ps
    → All (λ p. p.retry_count ≡ count p.id q) ps
reported q ps e =
    let same_list : report_all q.delivered q ≡ ps = ground (arith, e) in
    subst (All (λ p. p.retry_count ≡ count p.id q)) same_list (report_all-count q.delivered q)

abbrev delivers : Delivers group ledger
delivers = record {
  reported = λ idle n q ps e. reported q ps e;
  claim_later = λ c idle id q. claim-Later idle id q;
  claim_counts = λ c idle id q m ms e. claim-counts idle id q m ms e;
  just_id_later = λ c idle id q. Later-refl ledger q;
  read_later = λ c q. read-Later q.waiting q;
  read_counts = λ c q m ms e. read-counts q.waiting q m ms e;
  ack_later = λ id q. Later-refl ledger q;
  add_later = λ fields q. Later-refl ledger q;
  create_later = λ q. Later-refl ledger q;
}

abbrev first : Text
first = bytes "1"

abbrev reports_nothing : Job → List (Metrics ℕ)
reports_nothing job = []

abbrev w : Text
w = bytes "w"

abbrev v : Text
v = bytes "v"

abbrev q0 : Stream
q0 = record { waiting = first ∷ []; delivered = []; times = []; clock = 0 }

abbrev q1 : Stream
q1 = record { waiting = []; delivered = (first, 1) ∷ []; times = (first, 0) ∷ []; clock = 0 }

abbrev q2 : Stream
q2 = record q1 { clock = 60000000000 }

abbrev once : Pending
once = record { id = first; retry_count = 1 }

abbrev run_first : Work
run_first = fresh (delivery first ∷ [])

-- The first worker has read the message; it dies, and a minute passes.
abbrev later_fleet : Fleet Stream
later_fleet = record { queue = q2; workers = []; taken = run_first ∷ [] }

abbrev claimed_again : Fleet Stream
claimed_again = claim group v 60000000000 once [] (record {
  queue = q2;
  workers = (v, claiming 60000000000 (once ∷ [])) ∷ [];
  taken = run_first ∷ [];
})

minute : Later ledger q1 q2
unfolding last count
minute = (omega arith, λ id. (omega arith, ground arith, inl refl))

reached : Reach group reports_nothing ledger (idle_fleet q0) claimed_again
unfolding lookup look set_worker read claim sentry_load.Worker.Queue.read_new
    sentry_load.Prelude.same bytes insert delete read_from deliver delivery count lookup_or
    report_all
reached =
    next
      (next
        (next
          (next (next (next (next here (looks w refl)) (gives_up w 0 refl)) (reads w refl))
            (dies w))
          (others q2 minute))
        (looks v refl))
      (claims v 60000000000 once [] refl (omega arith))

runs_twice : times_run first claimed_again.taken ≡ 2
unfolding times_run claim sentry_load.Worker.Queue.Deliveries.runs
    sentry_load.Worker.Queue.claim_one claim_from last deliver delivery count lookup_or lookup
    insert sentry_load.Prelude.same bytes set_worker
runs_twice = refl

job_runs_at_most_thrice_example : times_run first claimed_again.taken ≤ max_deliveries
job_runs_at_most_thrice_example =
    job_runs_at_most_thrice group ledger delivers reports_nothing first q0 claimed_again reached

-- Two workers look when the message was delivered twice. One claims it and dies; the other stalls
-- for a minute, and then claims it by what it saw: it runs a third and a fourth time.
abbrev both_looking : Fleet Stream
both_looking =
    let twice : Pending = record { id = first; retry_count = 2 } in
    record {
      queue = record {
        waiting = [];
        delivered = (first, 2) ∷ [];
        times = (first, 0) ∷ [];
        clock = 60000000000;
      };
      workers =
          (w, claiming 60000000000 (twice ∷ [])) ∷ (v, claiming 60000000000 (twice ∷ [])) ∷ [];
      taken = run_first ∷ run_first ∷ [];
    }

abbrev one_claimed : Fleet Stream
one_claimed = claim group v 60000000000 (record { id = first; retry_count = 2 }) [] both_looking

abbrev minute_later : Fleet Stream
minute_later = record one_claimed { queue = record (one_claimed.queue) { clock = 120000000000 } }

stalled_claim :
    times_run first
      (claim group w 60000000000 (record { id = first; retry_count = 2 }) [] minute_later).taken
    ≡ 4
unfolding times_run claim sentry_load.Worker.Queue.Deliveries.runs
    sentry_load.Worker.Queue.claim_one claim_from last deliver delivery count lookup_or lookup
    insert sentry_load.Prelude.same bytes set_worker
stalled_claim = refl
