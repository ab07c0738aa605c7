-- ===== src/Coordinator/Persister.antt =====
-- The interface identityPersister of coordinator/identitystore.go, as a parameter: `P` is the
-- state of the database, and each call returns the new state and whether it succeeded. The stores
-- hold `none` where no database is configured.
use sentry_load.Prelude.{ℕ, Bool, List, Option, Text, ℤ}

pub record User : Type 0 where
  pub id : Text
  pub github_id : ℤ
  pub github_login : Text
  pub webhook_url : Text

pub record PersistedSession : Type 0 where
  pub token_hash : Text
  pub user_id : Text
  pub expires_at : ℕ

pub record VerifiedDomain : Type 0 where
  pub domain : Text
  pub owner_id : Text

pub record Persister (P : Type 0) : Type 0 where
  pub save_user : User → P → P × Bool
  -- `none` is an error
  pub load_users : P → Option (List User)
  pub save_session : PersistedSession → P → P × Bool
  pub load_sessions : ℕ → P → P × Option (List PersistedSession)
  pub save_verified_domain : VerifiedDomain → P → P × Bool
  pub load_verified_domains : P → Option (List VerifiedDomain)
