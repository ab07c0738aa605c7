-- ===== src/Coordinator/Postgres.antt =====
-- The tables that migrate of coordinator/history.go creates, with the constraints that their
-- statements meet, and what a statement meets beside them. Database errors (a lost connection, a
-- text that the encoding refuses) are the environment's choice for each statement; an error, and a
-- transaction that does not commit, leaves the tables as they were. `collate` is the order of the
-- database's texts.
pub mod Queries
pub mod History
pub mod Identity
pub mod Rows
pub mod Integrity
pub mod Sharing
pub mod Shares
pub mod Saved
pub mod Durable
pub mod Restart
use sentry_load.Prelude.{
  ℕ, zero, suc, Bool, true, false, not, ◌&&◌, ◌||◌, List, [], ◌∷◌, Option, none, some, Text,
  text_eq, nat_eq, ltb, ◌==◌, if◌then◌else◌, ℤ, pos, negsuc, Map, lookup,
}
use sentry_load.Coordinator.Persister.{User}

pub record TestRow (F : Type 0) : Type 0 where
  pub owner_id : Text
  pub url : Text
  pub total_requests : ℤ
  pub total_errors : ℤ
  pub combined_rps : F
  pub circuit_broken : Bool
  pub finished_at : ℕ
  pub share_token : Option Text
  pub label : Option Text
  pub p50_ms : Option F
  pub p95_ms : Option F
  pub p99_ms : Option F

pub record SubJobRow (F : Type 0) : Type 0 where
  pub test_id : Text
  pub requests : ℤ
  pub errors : ℤ
  pub rps : F
  pub p50_ms : Text
  pub p95_ms : Text
  pub p99_ms : Text
  pub circuit_broken : Bool
  pub abandoned : Bool

pub record SessionRow : Type 0 where
  pub user_id : Text
  pub expires_at : ℕ

pub record DomainRow : Type 0 where
  pub domain : Text
  pub owner_id : Text
  pub verified_at : ℕ

-- A table is a map from its primary key; the key of verified_domains is the pair of its texts.
pub record Tables (F : Type 0) : Type 0 where
  pub tests : Map Text (TestRow F)
  pub sub_jobs : Map Text (SubJobRow F)
  pub users : Map Text User
  pub sessions : Map Text SessionRow
  pub verified_domains : List DomainRow

abbrev pub new_tables : {F : Type 0} → Tables F
new_tables = record { tests = []; sub_jobs = []; users = []; sessions = []; verified_domains = [] }

-- One for each statement of the two files.
pub data Statement : Type 0 where
  begin_save commit_save upsert_test : Statement
  upsert_sub_job : Text → Statement
  select_test select_sub_jobs select_token update_token select_shared : Statement
  select_recent select_trend update_label delete_row : Statement
  upsert_user select_users insert_session prune_sessions select_sessions : Statement
  upsert_domain select_domains : Statement

-- The statements that fail, the clock, and what rand.Read delivers.
pub record Env : Type 0 where
  pub fails : Statement → Bool
  pub clock : ℕ
  pub random : Option (List ℕ)
  -- the time that a TIMESTAMPTZ keeps of a time.Time
  pub timestamp : ℕ → ℕ

pub record Database (F : Type 0) : Type 0 where
  pub tables : Tables F
  pub env : Env

-- INT is 32 bits wide.
unfoldable pub fits_int4 : ℤ → Bool
fits_int4 (pos n) = ltb n 2147483648
fits_int4 (negsuc n) = ltb n 2147483648

-- REFERENCES: is the key in the table?
unfoldable pub has_key : {V : Type 0} → Text → Map Text V → Bool
has_key k m = elim (lookup k m) [ none ↦ false | some v ↦ true ]
