-- ===== src/Worker/Startup.antt =====
-- What worker/main.go does before and beside its loop: its settings, the consumer group, and the
-- heartbeat. An unset variable reads as the empty text; Redis is a parameter.
use sentry_load.Prelude.{
  ℕ, Bool, true, ◌||◌, List, [], ◌∷◌, ◌++◌, none, some, Text, text_eq, bytes, ◌==◌, or_default,
}
use sentry_load.Worker.Queue.{Group, is_busy_group}

pub record Settings : Type 0 where
  pub redis_addr : Text
  pub consumer_name : Text
  pub metrics_addr : Text

unfoldable pub read_settings : (getenv : Text → Text) → Settings
unfolding or_default
read_settings getenv = record {
  redis_addr = or_default (getenv (bytes "REDIS_ADDR")) (bytes "localhost:6379");
  consumer_name = or_default (getenv (bytes "WORKER_ID")) (bytes "worker-1");
  metrics_addr = or_default (getenv (bytes "METRICS_ADDR")) (bytes ":9091");
}

-- XGROUP CREATE at the start: `false` is log.Fatalf. The error redis.Nil reads as `redis_nil`, and a
-- group that is there already is no error.
unfoldable pub start_group : {Q : Type 0} → (redis_nil : Text) → Group Q → Q → Q × Bool
unfolding is_busy_group
start_group redis_nil g q =
    let (q', err) = g.x_group_create q in
    (q', elim err [ none ↦ true | some e ↦ e == redis_nil || is_busy_group (some e) ])

abbrev pub worker_registry_prefix : Text
worker_registry_prefix = bytes "sentry:worker:"

-- 15 seconds, in nanoseconds
abbrev pub heartbeat_ttl : ℕ
heartbeat_ttl = 15000000000

-- The closure `send` of heartbeat, on SET with a time to live; a failure is logged. `format_time`
-- is time.RFC3339.
unfoldable pub send_heartbeat :
    {Q : Type 0}
    → (set_key : Text → Text → ℕ → Q → Q × Bool) (format_time : ℕ → Text) → Text
    → ℕ
    → Q
    → Q
send_heartbeat set_key format_time consumer_name now q =
    (set_key (worker_registry_prefix ++ consumer_name) (format_time now) heartbeat_ttl q).0

-- heartbeat: once at the start, and at every tick until the context is done.
unfoldable pub heartbeat :
    {Q : Type 0}
    → (set_key : Text → Text → ℕ → Q → Q × Bool) (format_time : ℕ → Text) → Text
    → List ℕ
    → Q
    → Q
unfolding send_heartbeat
heartbeat set_key format_time consumer_name [] q = q
heartbeat set_key format_time consumer_name (now ∷ ticks) q =
    heartbeat set_key format_time consumer_name ticks
      (send_heartbeat set_key format_time consumer_name now q)
