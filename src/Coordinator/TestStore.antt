-- ===== src/Coordinator/TestStore.antt =====
-- coordinator/teststore.go: the tests that the coordinator has accepted, what their workers last
-- reported, and the live subscribers. A method returns the new store and its result; the lock
-- makes each method one step. A Go map is an association list, a channel a bounded buffer in the
-- store, found by its number. Times are nanoseconds on the monotonic clock, given as arguments.
pub mod Finish
pub mod Runs
pub mod Access
use sentry_load.Prelude.{
  ℕ, zero, suc, ◌+◌, ◌-◌, ◌≡◌, Bool, true, false, not, ◌&&◌, ◌||◌, List, [], ◌∷◌, ◌++◌, Option,
  none, some, length, Text, text_eq, nat_eq, ltb, leb, ◌==◌, if◌then◌else◌, ℤ, pos, int_eq, int_add,
  Map, lookup, lookup_or, insert, delete, Float,
}
use sentry_load.Coordinator.Sketch.{decode_latency_sketch}
use sentry_load.Coordinator.Snapshot.{
  SubJobState, TestState, TestSnapshot, all_sub_jobs_done, no_result, build_snapshot,
}

pub record ResultUpdate (F : Type 0) : Type 0 where
  pub requests : ℤ
  pub errors : ℤ
  pub rps : F
  pub p50 : Text
  pub p95 : Text
  pub p99 : Text
  pub done : Bool
  pub circuit_broken : Bool
  pub latency_sketch : Text

-- A channel of capacity 4: what was sent and not yet received, oldest first.
pub record Channel (F : Type 0) : Type 0 where
  pub buffer : List (TestSnapshot F)
  pub closed : Bool

pub record TestStore (F : Type 0) : Type 0 where
  pub tests : Map Text (TestState F)
  pub last_submitted : Map Text ℕ
  pub subscribers : Map Text (List ℕ)
  pub channels : Map ℕ (Channel F)
  pub next_channel : ℕ

abbrev pub channel_capacity : ℕ
channel_capacity = 4

-- The loop of unsubscribe: the first entry that is `ch` goes.
unfoldable pub remove_first : ℕ → List ℕ → List ℕ
remove_first ch [] = []
remove_first ch (c ∷ subs) = if c == ch then subs else c ∷ remove_first ch subs

module _ {F : Type 0} where
  unfoldable pub new_test_store : TestStore F
  new_test_store = record {
    tests = [];
    last_submitted = [];
    subscribers = [];
    channels = [];
    next_channel = 0;
  }

  unfoldable pub subscribe : Text → TestStore F → TestStore F × ℕ
  subscribe test_id s =
      let ch = s.next_channel in
      (
        record s {
          subscribers =
              insert test_id (lookup_or [] test_id s.subscribers ++ ch ∷ []) s.subscribers;
          channels = insert ch (record { buffer = []; closed = false }) s.channels;
          next_channel = suc ch;
        },
        ch,
      )

  close_channel : ℕ → TestStore F → TestStore F
  close_channel ch s = elim (lookup ch s.channels) [
    | none ↦ s
    | some c ↦ record s { channels = insert ch (record c { closed = true }) s.channels }
  ]

  -- The function that Subscribe returns; `once` makes every later call do nothing.
  unfoldable pub unsubscribe : Text → ℕ → TestStore F → TestStore F
  unfolding remove_first close_channel
  unsubscribe test_id ch s = elim (lookup ch s.channels) [
    | none ↦ s
    | some c ↦
        if c.closed
        then s
        else close_channel ch (record s {
          subscribers =
              insert test_id (remove_first ch (lookup_or [] test_id s.subscribers)) s.subscribers;
        })
  ]

  -- The non-blocking send of notifySubscribers: a full channel drops the snapshot.
  unfoldable pub offer : TestSnapshot F → Channel F → Channel F
  offer snap c =
      if ltb (length c.buffer) channel_capacity
      then record c { buffer = c.buffer ++ snap ∷ [] }
      else c

  unfoldable pub offer_all : TestSnapshot F → List ℕ → Map ℕ (Channel F) → Map ℕ (Channel F)
  offer_all snap [] channels = channels
  offer_all snap (ch ∷ subs) channels = elim (lookup ch channels) [
    | none ↦ offer_all snap subs channels
    | some c ↦ offer_all snap subs (insert ch (offer snap c) channels)
  ]

  unfoldable pub notify_subscribers : Text → TestSnapshot F → TestStore F → TestStore F
  unfolding offer_all offer
  notify_subscribers test_id snap s = record s {
    channels = offer_all snap (lookup_or [] test_id s.subscribers) s.channels;
  }

  -- How much longer `owner_id` waits at time `now`.
  unfoldable pub cooldown_remaining : Text → ℕ → ℕ → TestStore F → ℕ
  cooldown_remaining owner_id cooldown now s = elim (lookup owner_id s.last_submitted) [
    | none ↦ 0
    | some last ↦ let elapsed = now - last in if leb cooldown elapsed then 0 else cooldown - elapsed
  ]

module _ {F : Type 0} ⦃fl : Float F⦄ where
  unfoldable pub init_sub_jobs : List Text → Map Text (SubJobState F) → Map Text (SubJobState F)
  init_sub_jobs [] sub_jobs = sub_jobs
  init_sub_jobs (id ∷ ids) sub_jobs = init_sub_jobs ids (insert id no_result sub_jobs)

  unfoldable pub register : Text → Text → Text → List Text → ℕ → TestStore F → TestStore F
  unfolding init_sub_jobs
  register test_id owner_id url job_ids now s = record s {
    tests =
        insert test_id
          (record {
            test_id = test_id;
            owner_id = owner_id;
            url = url;
            created_at = now;
            sub_jobs = init_sub_jobs job_ids [];
          })
          s.tests;
    last_submitted = insert owner_id now s.last_submitted;
  }

  -- What Update and MarkAbandoned share: the new state `f sj` of a known sub-job is stored, the
  -- subscribers are notified, and the result is whether the test finished by this.
  unfoldable pub change_sub_job :
      Text → Text → (SubJobState F → SubJobState F) → TestStore F → TestStore F × Bool
  unfolding all_sub_jobs_done
  change_sub_job test_id job_id f s = elim (lookup test_id s.tests) [
    | none ↦ (s, false)
    | some t ↦ elim (lookup job_id t.sub_jobs) [
      | none ↦ (s, false)
      | some sj ↦
          let was_done = all_sub_jobs_done t.sub_jobs in
          let t' = record t { sub_jobs = insert job_id (f sj) t.sub_jobs } in
          let s' = record s { tests = insert test_id t' s.tests } in
          (
            notify_subscribers test_id (build_snapshot t') s',
            not was_done && all_sub_jobs_done t'.sub_jobs,
          )
    ]
  ]

  -- The assignments of Update. A sketch that is missing or does not decode is nil.
  unfoldable pub apply_update : ResultUpdate F → SubJobState F → SubJobState F
  apply_update u sj = record sj {
    requests = u.requests;
    errors = u.errors;
    rps = u.rps;
    p50 = u.p50;
    p95 = u.p95;
    p99 = u.p99;
    done = u.done;
    circuit_broken = u.circuit_broken;
    sketch = elim u.latency_sketch [ [] ↦ none | c ∷ rest ↦ decode_latency_sketch (c ∷ rest) ];
  }

  unfoldable pub update : Text → Text → ResultUpdate F → TestStore F → TestStore F × Bool
  unfolding change_sub_job apply_update
  update test_id job_id u s = change_sub_job test_id job_id (apply_update u) s

  unfoldable pub abandon : SubJobState F → SubJobState F
  abandon sj = record sj { done = true; abandoned = true }

  unfoldable pub mark_abandoned : Text → Text → TestStore F → TestStore F × Bool
  unfolding change_sub_job abandon
  mark_abandoned test_id job_id s = change_sub_job test_id job_id abandon s

  unfoldable pub snapshot : Text → Text → TestStore F → Option (TestSnapshot F)
  snapshot test_id owner_id s = elim (lookup test_id s.tests) [
    | none ↦ none
    | some t ↦ if not (t.owner_id == owner_id) then none else some (build_snapshot t)
  ]

  unfoldable pub snapshot_unscoped : Text → TestStore F → Option (TestSnapshot F) × Text
  unfolding snapshot
  snapshot_unscoped test_id s =
      let owner_id : Text = elim (lookup test_id s.tests) [ none ↦ [] | some t ↦ t.owner_id ] in
      (snapshot test_id owner_id s, owner_id)
