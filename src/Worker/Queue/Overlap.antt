-- ===== src/Worker/Queue/Overlap.antt =====
-- Calls of the closure publish of handleJob (worker/main.go) that overlap: the goroutine of the
-- ticker and runLoadTest share countedRequests and countedErrors without a lock. What a call does to
-- one of them and to its Prometheus counter is three steps, a read, an addition and a write, between
-- which the steps of other calls come.
use sentry_load.Prelude.{
  ℕ, ◌+◌, ◌-◌, ◌≤◌, ◌≡◌, subst, inl, inr, List, [], ◌∷◌, none, some, arith, All, nat_eq, ltb, ◌==◌,
  if◌then◌else◌, Bool-cases, Map, lookup, insert, delete,
}
use sentry_load.Worker.Queue.Handle.{advance}

-- A call for the count `n`: it has read `counted`, or it has added its difference too.
pub data Phase : Type 0 where
  has_read : (counted n : ℕ) → Phase
  has_added : (n : ℕ) → Phase

-- The shared variable, the Prometheus counter, the calls under way by a number of each, and the
-- counts of the calls that have ended.
pub record Calls : Type 0 where
  pub counted : ℕ
  pub total : ℕ
  pub under_way : Map ℕ Phase
  pub ended : List ℕ

abbrev pub no_calls : ℕ → Calls
no_calls total = record { counted = 0; total = total; under_way = []; ended = [] }

unfoldable pub read_counted : ℕ → ℕ → Calls → Calls
read_counted i n s = record s { under_way = insert i (has_read s.counted n) s.under_way }

unfoldable pub add_delta : ℕ → ℕ → ℕ → Calls → Calls
add_delta i counted n s =
    if ltb counted n
    then record s {
      total = s.total + (n - counted);
      under_way = insert i (has_added n) s.under_way;
    }
    else record s { under_way = delete i s.under_way; ended = n ∷ s.ended }

unfoldable pub write_counted : ℕ → ℕ → Calls → Calls
write_counted i n s = record s {
  counted = n;
  under_way = delete i s.under_way;
  ended = n ∷ s.ended;
}

pub data Step (s : Calls) : Calls → Type 0 where
  reads : (i n : ℕ) → lookup i s.under_way ≡ none → Step s (read_counted i n s)
  adds :
      (i counted n : ℕ)
      → lookup i s.under_way ≡ some (has_read counted n)
      → Step s (add_delta i counted n s)
  writes : (i n : ℕ) → lookup i s.under_way ≡ some (has_added n) → Step s (write_counted i n s)

pub data Reach (s : Calls) : Calls → Type 0 where
  here : Reach s s
  next : {t u : Calls} → Reach s t → Step t u → Reach s u

-- The total has been raised by what the call has read, or by what it counts.
abbrev IsCovered : ℕ → ℕ → Phase → Type 0
IsCovered start total (has_read counted n) = start + counted ≤ total
IsCovered start total (has_added n) = start + n ≤ total

IsCovered-le :
    (start total total' : ℕ) (p : Phase)
    → total ≤ total'
    → IsCovered start total p
    → IsCovered start total' p
IsCovered-le start total total' (has_read counted n) h k = omega (arith, h, k)
IsCovered-le start total total' (has_added n) h k = omega (arith, h, k)

abbrev AreCovered : ℕ → ℕ → Map ℕ Phase → Type 0
AreCovered start total m = All (λ e. IsCovered start total e.1) m

AreCovered-le :
    (start total total' : ℕ) (m : Map ℕ Phase)
    → total ≤ total'
    → AreCovered start total m
    → AreCovered start total' m
AreCovered-le start total total' [] h a = tt
AreCovered-le start total total' ((i, p) ∷ m) h a =
    (IsCovered-le start total total' p h a.0, AreCovered-le start total total' m h a.1)

insert-AreCovered :
    (start total i : ℕ) (p : Phase) (m : Map ℕ Phase)
    → IsCovered start total p
    → AreCovered start total m
    → AreCovered start total (insert i p m)
unfolding insert
insert-AreCovered start total i p [] h a = (h, tt)
insert-AreCovered start total i p ((j, q) ∷ m) h a = elim (Bool-cases (j == i)) [
  | inl e ↦ rw e (h, a.1)
  | inr e ↦ rw e (a.0, insert-AreCovered start total i p m h a.1)
]

delete-AreCovered :
    (start total i : ℕ) (m : Map ℕ Phase)
    → AreCovered start total m
    → AreCovered start total (delete i m)
unfolding delete
delete-AreCovered start total i [] a = tt
delete-AreCovered start total i ((j, q) ∷ m) a = elim (Bool-cases (j == i)) [
  | inl e ↦ rw e (delete-AreCovered start total i m a.1)
  | inr e ↦ rw e (a.0, delete-AreCovered start total i m a.1)
]

lookup-IsCovered :
    (start total i : ℕ) (p : Phase) (m : Map ℕ Phase)
    → lookup i m ≡ some p
    → AreCovered start total m
    → IsCovered start total p
unfolding lookup
lookup-IsCovered start total i p [] e a = absurd (ground arith)
lookup-IsCovered start total i p ((j, q) ∷ m) e a = elim (Bool-cases (j == i)) [
  | inl k ↦ subst (IsCovered start total) (ground (arith, e, k)) a.0
  | inr k ↦ lookup-IsCovered start total i p m (ground (arith, e, k)) a.1
]

abbrev AreCounted : ℕ → ℕ → List ℕ → Type 0
AreCounted start total ended = All (λ n. start + n ≤ total) ended

AreCounted-le :
    (start total total' : ℕ) (ended : List ℕ)
    → total ≤ total'
    → AreCounted start total ended
    → AreCounted start total' ended
AreCounted-le start total total' [] h a = tt
AreCounted-le start total total' (n ∷ ended) h a =
    (omega (arith, h, a.0), AreCounted-le start total total' ended h a.1)

record IsSafe (start : ℕ) (s : Calls) : Type 0 where
  variable : start + s.counted ≤ s.total
  calls : AreCovered start s.total s.under_way
  done : AreCounted start s.total s.ended

add_delta-IsSafe :
    (start i counted n : ℕ) (s : Calls)
    → start + counted ≤ s.total
    → IsSafe start s
    → IsSafe start (add_delta i counted n s)
unfolding add_delta
add_delta-IsSafe start i counted n s h k = elim (Bool-cases (ltb counted n)) [
  | inl e ↦
      let more : s.total ≤ s.total + (n - counted) = omega arith in
      rw (add_delta, e)
        (record {
          variable = omega (arith, k.variable);
          calls =
              insert-AreCovered start (s.total + (n - counted)) i (has_added n) s.under_way
                (ground (arith, h, e)) (AreCovered-le start s.total _ s.under_way more k.calls);
          done = AreCounted-le start s.total _ s.ended more k.done;
        })
  | inr e ↦
      rw (add_delta, e)
        (record {
          variable = k.variable;
          calls = delete-AreCovered start s.total i s.under_way k.calls;
          done = (ground (arith, h, e), k.done);
        })
]

Step-IsSafe : (start : ℕ) {s t : Calls} → Step s t → IsSafe start s → IsSafe start t
unfolding read_counted write_counted
Step-IsSafe start {s = s} (reads i n free) k = record {
  variable = k.variable;
  calls = insert-AreCovered start s.total i (has_read s.counted n) s.under_way k.variable k.calls;
  done = k.done;
}
Step-IsSafe start {s = s} (adds i counted n e) k =
    add_delta-IsSafe start i counted n s
      (lookup-IsCovered start s.total i (has_read counted n) s.under_way e k.calls) k
Step-IsSafe start {s = s} (writes i n e) k =
    let own : start + n ≤ s.total =
      lookup-IsCovered start s.total i (has_added n) s.under_way e k.calls in
    record {
      variable = own;
      calls = delete-AreCovered start s.total i s.under_way k.calls;
      done = (own, k.done);
    }

Reach-IsSafe : (start : ℕ) {s : Calls} → Reach (no_calls start) s → IsSafe start s
Reach-IsSafe start here = record { variable = omega arith; calls = tt; done = tt }
Reach-IsSafe start (next r step) = Step-IsSafe start step (Reach-IsSafe start r)

-- A call of which no step of another comes in between does what `advance` says.
alone :
    (i n : ℕ) (s : Calls)
    → let read = read_counted i n s in
      let added = add_delta i s.counted n read in
      let written = if ltb s.counted n then write_counted i n added else added in
      (written.counted, written.total) ≡ advance n s.counted s.total
unfolding read_counted add_delta write_counted advance
alone i n s = ground arith

-- However the steps of the calls of publish of one job come between one another, each Prometheus
-- counter that they advance has risen by no less than what any call that has ended reports. A call
-- that no step of another comes between adds and stores what the closure does in one piece.
pub overlapping_calls_count_all :
    (start i n : ℕ) (s : Calls)
    → Reach (no_calls start) s
    → All (λ m. start + m ≤ s.total) s.ended
      × let added = add_delta i s.counted n (read_counted i n s) in
        let written = if ltb s.counted n then write_counted i n added else added in
        (written.counted, written.total) ≡ advance n s.counted s.total
overlapping_calls_count_all start i n s r = ((Reach-IsSafe start r).done, alone i n s)
