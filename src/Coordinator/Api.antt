-- ===== src/Coordinator/Api.antt =====
-- The server of coordinator/handlers.go: its state, what it is configured with, the services that
-- it calls, and its responses. `writeJSON` and `writeError` build a response; requests reach a
-- handler with their JSON body decoded (`none` where the decoder fails).
use sentry_load.Prelude.{ℕ, Bool, List, Option, none, Text, ℤ, Map}
use sentry_load.Coordinator.Persister.{Persister}
use sentry_load.Coordinator.AuthState.{StateStore}
use sentry_load.Coordinator.DomainStore.{DomainStore, Url}
use sentry_load.Coordinator.UserStore.{UserStore}
use sentry_load.Coordinator.Enqueue.{Redis}
use sentry_load.Coordinator.History.{HistoryStore}
use sentry_load.Coordinator.Snapshot.{TestSnapshot}
use sentry_load.Coordinator.TestStore.{TestStore}

pub record HttpResponse : Type 0 where
  pub status_code : ℕ
  -- the first 4096 bytes, or an error of reading them
  pub content : Option Text

-- What is not the program's own: Redis, the databases, the resolver, HTTP clients, and the parsers
-- and formatters of the libraries.
pub record Services (F P R H : Type 0) : Type 0 where
  pub persister : Option (Persister P)
  pub history : Option (HistoryStore F H)
  pub redis : Redis R
  pub new_id : ℕ → Text
  pub sha256 : Text → Text
  pub parse_ip : Text → Bool
  pub parse_url : Text → Option Url
  pub query_escape : Text → Text
  pub quote : Text → Text
  pub lookup_txt : Text → Option (List Text)
  pub http_get : Text → Option HttpResponse
  pub exchange : Text → Option Text
  pub fetch_user : Text → Option (ℤ × Text)

pub record Config : Type 0 where
  pub allowlist : Map Text Bool
  pub github_client_id : Text
  pub github_redirect_url : Text
  pub dashboard_url : Text
  pub test_cooldown : ℕ

-- The Prometheus counter of submissions by outcome, and the gauge of live workers.
pub record Metrics : Type 0 where
  pub accepted : ℕ
  pub clamped : ℕ
  pub no_capacity : ℕ
  pub live_workers : ℕ

pub record Server (F P R H : Type 0) : Type 0 where
  pub tests : TestStore F
  pub domains : DomainStore
  pub users : UserStore
  pub auth_states : StateStore
  pub db : P
  pub queue : R
  pub past : H
  pub drawn : ℕ
  pub metrics : Metrics

pub data Body (F : Type 0) : Type 0 where
  error_response : Text → Body F
  -- domain, token, DNS record, DNS value, well-known URL
  create_domain_response : Text → Text → Text → Text → Text → Body F
  verify_domain_response : Text → Bool → Body F
  -- test ID, job IDs, warning
  create_test_response : Text → List Text → Text → Body F
  test_response : TestSnapshot F → Body F
  tests_response : List (TestSnapshot F) → Body F
  share_test_response : Text → Text → Body F
  set_label_response : Text → Body F
  webhook_response : Text → Body F
  redirect_response : Text → Body F
  no_body : Body F

pub record Response (F : Type 0) : Type 0 where
  pub status : ℕ
  pub body : Body F
  pub retry_after : Option ℕ

module _ {F : Type 0} where
  abbrev pub write_json : ℕ → Body F → Response F
  write_json status body = record { status = status; body = body; retry_after = none }

  abbrev pub write_error : ℕ → Text → Response F
  write_error status msg = write_json status (error_response msg)

-- A value, or the response that ends the handler.
pub data Checked (F A : Type 0) : Type 0 where
  pass : A → Checked F A
  stop : Response F → Checked F A

infixl 5 ◌>>=◌ ◌>>◌
abbrev pub ◌>>=◌ : {F A B : Type 0} → Checked F A → (A → Checked F B) → Checked F B
pass a >>= f = f a
stop r >>= f = stop r

abbrev pub ◌>>◌ : {F B : Type 0} → Checked F (Unit {0}) → Checked F B → Checked F B
m >> k = m >>= λ _. k

-- if !ok { …; return }
abbrev pub ensure : {F : Type 0} → Bool → Response F → Checked F (Unit {0})
ensure Bool.true r = pass tt
ensure Bool.false r = stop r
