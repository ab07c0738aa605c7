-- ===== src/Worker/Queue.antt =====
-- worker/reclaim.go and the loop of worker/main.go: how a worker takes jobs from the consumer group
-- of Redis, runs or abandons them, and acknowledges them. Redis is the parameter `g`, one function
-- for each command that the code sends; the load generator is the parameter `run_load_test`, the
-- reports that it publishes for a job. Durations are nanoseconds.
pub mod Handle
pub mod Deliveries
pub mod Fleet
pub mod Thrice
pub mod Overlap
use sentry_load.Prelude.{
  ℕ, Bool, true, false, ◌&&◌, List, [], ◌∷◌, Option, none, some, length, take, Text, text_eq, bytes,
  leb, ◌==◌, if◌then◌else◌, Map,
}

abbrev pub stale_job_after : ℕ
stale_job_after = 45000000000

abbrev pub max_deliveries : ℕ
max_deliveries = 3

-- The COUNT of XPENDING.
abbrev pub pending_count : ℕ
pending_count = 10

-- A message; its fields are `none` where its entry was trimmed from the stream.
pub record Message : Type 0 where
  pub id : Text
  pub fields : Option (Map Text Text)

pub record Pending : Type 0 where
  pub id : Text
  pub retry_count : ℕ

-- What XREADGROUP returns: messages, redis.Nil or a cancelled context, or another error.
pub data Read : Type 0 where
  messages : List Message → Read
  quiet : Read
  failed : Text → Read

-- The commands on the consumer group and on the stream of results; `none` and `false` are errors.
pub record Group (Q : Type 0) : Type 0 where
  -- the minimal idle time and the count
  pub x_pending : ℕ → ℕ → Q → Option (List Pending)
  -- the consumer, the minimal idle time and the message ID
  pub x_claim : Text → ℕ → Text → Q → Q × Option (List Message)
  pub x_claim_just_id : Text → ℕ → Text → Q → Q × Bool
  pub x_read_group : Text → Q → Q × Read
  pub x_ack : Text → Q → Q × Bool
  pub x_add : Map Text Text → Q → Q × Bool
  pub x_group_create : Q → Q × Option Text

-- err.Error()[:9] == "BUSYGROUP"
unfoldable pub is_busy_group : Option Text → Bool
is_busy_group none = false
is_busy_group (some err) = leb 9 (length err) && take 9 err == bytes "BUSYGROUP"

unfoldable pub is_no_group : Option Text → Bool
is_no_group none = false
is_no_group (some err) = leb 7 (length err) && take 7 err == bytes "NOGROUP"

-- The results of claimStale.
pub data Claim : Type 0 where
  nothing_stale : Claim
  claim_failed : Claim
  claimed : (id : Text) (fields : Map Text Text) (exhausted : Bool) → Claim

-- What a worker does next: a stalled job, the messages that it read, or nothing in this round.
pub data Work : Type 0 where
  stalled : (id : Text) (fields : Map Text Text) (exhausted : Bool) → Work
  fresh : List Message → Work
  no_work : Work

module _ {Q : Type 0} (g : Group Q) where
  unfoldable pub renew_lease : Text → Text → Q → Q × Bool
  renew_lease consumer msg_id q = g.x_claim_just_id consumer 0 msg_id q

  -- The ticks of holdLease.
  unfoldable pub hold_lease : ℕ → Text → Text → Q → Q
  unfolding renew_lease
  hold_lease ℕ.zero consumer msg_id q = q
  hold_lease (ℕ.suc n) consumer msg_id q =
      hold_lease n consumer msg_id (renew_lease consumer msg_id q).0

  -- The body of the loop of claimStale; `none` goes on to the next entry.
  unfoldable pub claim_one : Text → ℕ → ℕ → Pending → Q → Q × Option Claim
  claim_one consumer min_idle limit p q =
      let (q', reply) = g.x_claim consumer min_idle p.id q in
      elim reply [
        | none ↦ (q', some claim_failed)
        | some [] ↦ (q', none)
        | some (msg ∷ _) ↦ elim msg.fields [
          | none ↦ (q', none)
          | some fields ↦ (q', some (claimed msg.id fields (leb limit p.retry_count)))
        ]
      ]

  -- The loop of claimStale.
  unfoldable pub claim_first : Text → ℕ → ℕ → List Pending → Q → Q × Claim
  unfolding claim_one
  claim_first consumer min_idle limit [] q = (q, nothing_stale)
  claim_first consumer min_idle limit (p ∷ ps) q =
      let (q', found) = claim_one consumer min_idle limit p q in
      let next = claim_first consumer min_idle limit ps q' in
      elim found [ none ↦ next | some claim ↦ (q', claim) ]

  unfoldable pub claim_stale : Text → ℕ → ℕ → Q → Q × Claim
  unfolding claim_first
  claim_stale consumer min_idle limit q = elim (g.x_pending min_idle pending_count q) [
    | none ↦ (q, claim_failed)
    | some pending ↦ claim_first consumer min_idle limit pending q
  ]

  -- The second half of the round: new messages. A missing group is made again.
  unfoldable pub read_new : Text → Q → Q × Work
  unfolding is_no_group
  read_new consumer q =
      let (q', reply) = g.x_read_group consumer q in
      elim reply [
        | messages ms ↦ (q', fresh ms)
        | quiet ↦ (q', no_work)
        | failed err ↦
            if is_no_group (some err) then ((g.x_group_create q').0, no_work) else (q', no_work)
      ]

  -- The round of main up to the work that it finds. An error of claimStale is logged and the round
  -- goes on.
  unfoldable pub take_work : Text → Q → Q × Work
  unfolding claim_stale read_new
  take_work consumer q =
      let (q', claim) = claim_stale consumer stale_job_after max_deliveries q in
      elim claim [
        | claimed id fields exhausted ↦ (q', stalled id fields exhausted)
        | nothing_stale ↦ read_new consumer q'
        | claim_failed ↦ read_new consumer q'
      ]
