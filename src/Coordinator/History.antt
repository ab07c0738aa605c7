-- ===== src/Coordinator/History.antt =====
-- The interface testHistoryStore of coordinator/history.go, as a parameter: `H` is the state of
-- the database, `none` beside a new state is an error, and an inner `none` is ok=false.
use sentry_load.Prelude.{ℕ, Bool, List, Option, Text}
use sentry_load.Coordinator.Snapshot.{TestSnapshot}

pub record HistoryStore (F H : Type 0) : Type 0 where
  pub save : TestSnapshot F → Text → H → H × Bool
  pub get : Text → Text → H → Option (Option (TestSnapshot F))
  pub list_tests : Text → ℕ → H → Option (List (TestSnapshot F))
  pub list_by_url : Text → Text → ℕ → H → Option (List (TestSnapshot F))
  pub ensure_share_token : Text → Text → H → H × Option (Option Text)
  pub get_by_share_token : Text → H → Option (Option (TestSnapshot F))
  pub set_label : Text → Text → Text → H → H × Option Bool
  pub delete_test : Text → Text → H → H × Option Bool
