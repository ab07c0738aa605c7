-- ===== src/Examples/Database.antt =====
-- A finished test in the database: saved, shared, labelled.
use sentry_load.Prelude.{
  ◌/◌, ◌*◌, ℕ, ◌≡◌, ◌≢◌, refl, Bool, true, false, List, [], ◌∷◌, Option, none, some, arith, Text,
  text_eq, bytes, pos, lookup,
}
use sentry_load.Coordinator.Snapshot.{TestSnapshot, SubJobSnapshot, text_ltb}
use sentry_load.Coordinator.Postgres.{new_tables, Tables, Env, Database}
use sentry_load.Coordinator.Postgres.History.{
  save_test, get_test, read_share_token, write_share_token, ensure_share_token, get_by_share_token,
}
use sentry_load.Coordinator.Postgres.Saved.{IsNew, as_saved, save_test_read_back}
use sentry_load.Coordinator.Postgres.Shares.{share_link_lasts}
use sentry_load.Coordinator.Postgres.Integrity.{IsSound}
use sentry_load.Coordinator.Postgres.Integrity.Calls.{
  Call, adds_user, saves, labels, perform_all, perform_all-IsSound,
}
use sentry_load.Coordinator.UserStore.{UserStore, new_user_store, issue_session, load_user_store}
use sentry_load.Coordinator.Postgres.Identity.{postgres_identity}
use sentry_load.Coordinator.Postgres.Restart.{logged_in, login_survives_restart}
use sentry_load.Examples.World.{whole, ann}

abbrev healthy : Env
healthy = record {
  fails = λ s. false;
  clock = 100;
  random = some (171 ∷ []);
  timestamp = λ t. t / 1000 * 1000;
}

abbrev owner : Text
owner = bytes "gh-7"

abbrev sub_job : Text → SubJobSnapshot ℕ
sub_job id = record {
  job_id = id;
  requests = pos 3;
  errors = pos 1;
  rps = 1;
  p50_ms = bytes "5";
  p95_ms = bytes "9";
  p99_ms = bytes "9";
  done = true;
  circuit_broken = false;
  abandoned = false;
}

abbrev snap : TestSnapshot ℕ
snap = record {
  test_id = bytes "t";
  url = bytes "a.io";
  label = [];
  done = true;
  circuit_broken = false;
  abandoned = false;
  total_requests = pos 6;
  total_errors = pos 2;
  combined_rps = 2;
  p50_ms = some 5;
  p95_ms = none;
  p99_ms = none;
  sub_jobs = sub_job (bytes "k") ∷ sub_job (bytes "j") ∷ [];
  finished_at = none;
}

abbrev fresh : Database ℕ
fresh = record { tables = new_tables; env = healthy }

abbrev collate : Text → Text → Bool
collate = text_ltb

saved : (save_test snap owner fresh).1 ≡ true
unfolding save_test
saved = refl

fresh-IsSound : IsSound (fresh.tables)
unfolding perform_all
fresh-IsSound = perform_all-IsSound []

no_test : lookup (bytes "t") fresh.tables.tests ≡ none
unfolding lookup
no_test = refl

snap-IsNew : IsNew snap.sub_jobs fresh.tables.sub_jobs
unfolding lookup bytes
snap-IsNew = (refl, (λ e. ground arith, tt), (refl, tt, tt))

save_test_read_back_example :
    (get_test collate
        (bytes "t")
        owner
        (record { tables = (save_test snap owner fresh).0.tables; env = healthy })
      ≡ some (some (as_saved collate snap)))
    × ((o : Text)
        → o ≢ owner
        → get_test collate
            (bytes "t")
            o
            (record { tables = (save_test snap owner fresh).0.tables; env = healthy })
          ≡ some none)
save_test_read_back_example =
    save_test_read_back collate snap owner fresh healthy fresh-IsSound no_test snap-IsNew saved
      (λ s. refl)

abbrev stored : Tables ℕ
stored = perform_all ((healthy, saves snap owner) ∷ []) new_tables

abbrev today : Database ℕ
today = record { tables = stored; env = healthy }

abbrev token : Text
token = bytes "ab"

shared : (ensure_share_token (bytes "t") owner today).1 ≡ some (some token)
unfolding ensure_share_token lookup perform_all save_test sentry_load.Prelude.insert
    sentry_load.Prelude.same bytes sentry_load.Coordinator.DomainStore.random_token
shared = refl

abbrev more : List (Env × Call ℕ)
more = (healthy, saves snap owner) ∷ (healthy, labels (bytes "t") owner (bytes "x")) ∷ []

abbrev later : Database ℕ
later = record {
  tables = perform_all more (ensure_share_token (bytes "t") owner today).0.tables;
  env = healthy;
}

share_link_lasts_example :
    (ensure_share_token (bytes "t") owner later ≡ (later, some (some token)))
    × (get_by_share_token collate token later ≡ get_test collate (bytes "t") owner later)
    × ((s : TestSnapshot ℕ) × (get_test collate (bytes "t") owner later ≡ some (some s))
        × (s.test_id ≡ bytes "t"))
    × ((o : Text) → o ≢ owner → get_test collate (bytes "t") o later ≡ some none)
share_link_lasts_example =
    share_link_lasts token (bytes "t") owner collate today more healthy
      (perform_all-IsSound ((healthy, saves snap owner) ∷ [])) shared
      (λ e. ground arith, (λ e. ground arith, tt)) (λ s. refl)

-- Two first calls that both read before they write: the token of the first is lost.
abbrev both_read : Option (Option Text)
both_read = read_share_token (bytes "t") owner today

reads_null : both_read ≡ some none
unfolding read_share_token lookup perform_all save_test sentry_load.Prelude.insert
    sentry_load.Prelude.same bytes
reads_null = refl

abbrev both_written : Database ℕ
both_written =
    (write_share_token (bytes "cd") (bytes "t") (write_share_token token (bytes "t") today).0).0

first_link_dead : get_by_share_token collate token both_written ≡ some none
unfolding get_by_share_token write_share_token perform_all save_test sentry_load.Prelude.insert
    lookup sentry_load.Prelude.same bytes
first_link_dead = refl

abbrev with_ann : Database ℕ
with_ann = record { tables = perform_all ((healthy, adds_user ann) ∷ []) new_tables; env = healthy }

abbrev same_hash : Text → Text
same_hash t = t

logged_in_ann :
    (issue_session
      (some postgres_identity)
      same_hash
      owner
      (some (171 ∷ []))
      50
      with_ann
      new_user_store).2
    ≡ some token
unfolding issue_session sentry_load.Coordinator.DomainStore.random_token
    sentry_load.Coordinator.Postgres.Identity.save_session lookup perform_all
    sentry_load.Coordinator.Postgres.Identity.save_user sentry_load.Prelude.insert
    sentry_load.Prelude.same bytes
logged_in_ann = refl

login_survives_restart_example :
    (r : UserStore) × ((load_user_store (some postgres_identity) 90 (record {
      tables =
          (issue_session
            (some postgres_identity)
            same_hash
            owner
            (some (171 ∷ []))
            50
            with_ann
            new_user_store).0.tables;
      env = healthy;
    })).1
      ≡ some r)
    × (logged_in same_hash token 2000 r ≡ some owner)
login_survives_restart_example =
    login_survives_restart same_hash owner token (some (171 ∷ [])) 50 90 2000 healthy with_ann
      new_user_store logged_in_ann (λ s. refl)
