-- ===== src/Coordinator/Postgres/History.antt =====
-- postgresHistory of coordinator/history.go, which implements testHistoryStore.
use sentry_load.Prelude.{
  ℕ, Bool, true, false, not, ◌&&◌, ◌||◌, List, [], ◌∷◌, Option, none, some, map, take, Text,
  text_eq, ltb, ◌==◌, if◌then◌else◌, Map, lookup, insert, delete,
}
use sentry_load.Coordinator.DomainStore.{random_token}
use sentry_load.Coordinator.Snapshot.{TestSnapshot, SubJobSnapshot}
use sentry_load.Coordinator.History.{HistoryStore}
use sentry_load.Coordinator.Postgres.{
  TestRow, SubJobRow, begin_save, commit_save, upsert_test, upsert_sub_job, select_test,
  select_sub_jobs, select_token, update_token, select_shared, select_recent, select_trend,
  update_label, delete_row, Env, Database, fits_int4,
}
use sentry_load.Coordinator.Postgres.Queries.{
  where_rows, order_by, owned_row, shared_row, token_free, of_test, cascade,
}

module _ {F : Type 0} where
  -- The row of an INSERT, and the columns of ON CONFLICT DO UPDATE.
  unfoldable pub upserted_test : TestSnapshot F → Text → ℕ → Map Text (TestRow F) → TestRow F
  upserted_test snap owner_id now tests =
      let new : TestRow F = record {
        owner_id = owner_id;
        url = snap.url;
        total_requests = snap.total_requests;
        total_errors = snap.total_errors;
        combined_rps = snap.combined_rps;
        circuit_broken = snap.circuit_broken;
        finished_at = now;
        share_token = none;
        label = none;
        p50_ms = snap.p50_ms;
        p95_ms = snap.p95_ms;
        p99_ms = snap.p99_ms;
      } in
      elim (lookup snap.test_id tests) [
        | none ↦ new
        | some old ↦ record new {
          owner_id = old.owner_id;
          url = old.url;
          share_token = old.share_token;
          label = old.label;
        }
      ]

  -- The same for a sub-job; on a conflict the row stays with its test.
  unfoldable pub upserted_sub_job : Text → SubJobSnapshot F → Map Text (SubJobRow F) → SubJobRow F
  upserted_sub_job test_id sj rows =
      let new : SubJobRow F = record {
        test_id = test_id;
        requests = sj.requests;
        errors = sj.errors;
        rps = sj.rps;
        p50_ms = sj.p50_ms;
        p95_ms = sj.p95_ms;
        p99_ms = sj.p99_ms;
        circuit_broken = sj.circuit_broken;
        abandoned = sj.abandoned;
      } in
      elim (lookup sj.job_id rows) [ none ↦ new | some old ↦ record new { test_id = old.test_id } ]

  -- The loop of Save; `none` is its error.
  unfoldable pub upsert_sub_jobs :
      Text
      → Env
      → List (SubJobSnapshot F)
      → Map Text (SubJobRow F)
      → Option (Map Text (SubJobRow F))
  unfolding upserted_sub_job fits_int4
  upsert_sub_jobs test_id env [] rows = some rows
  upsert_sub_jobs test_id env (sj ∷ sjs) rows =
      if env.fails (upsert_sub_job sj.job_id) || not (fits_int4 sj.requests && fits_int4 sj.errors)
      then none
      else upsert_sub_jobs test_id env sjs
          (insert sj.job_id (upserted_sub_job test_id sj rows) rows)

  unfoldable pub save_test : TestSnapshot F → Text → Database F → Database F × Bool
  unfolding upserted_test upsert_sub_jobs
  save_test snap owner_id d =
      let t = d.tables in
      if d.env.fails begin_save
      then (d, false)
      else if d.env.fails upsert_test
          || not (fits_int4 snap.total_requests && fits_int4 snap.total_errors)
      then (d, false)
      else elim (upsert_sub_jobs snap.test_id d.env snap.sub_jobs t.sub_jobs) [
        | none ↦ (d, false)
        | some rows ↦ if d.env.fails commit_save then (d, false) else (
          record d {
            tables = record t {
              tests = insert snap.test_id (upserted_test snap owner_id d.env.clock t.tests) t.tests;
              sub_jobs = rows;
            };
          },
          true,
        )
      ]

  unfoldable pub any_abandoned : List (SubJobSnapshot F) → Bool
  any_abandoned [] = false
  any_abandoned (sj ∷ sjs) = sj.abandoned || any_abandoned sjs

  unfoldable pub scan_sub_job : Text × SubJobRow F → SubJobSnapshot F
  scan_sub_job (job_id, r) = record {
    job_id = job_id;
    requests = r.requests;
    errors = r.errors;
    rps = r.rps;
    p50_ms = r.p50_ms;
    p95_ms = r.p95_ms;
    p99_ms = r.p99_ms;
    done = true;
    circuit_broken = r.circuit_broken;
    abandoned = r.abandoned;
  }

  -- A row of tests as Get and GetByShareToken scan it; COALESCE(label, '').
  unfoldable pub scan_test : Text → TestRow F → TestSnapshot F
  scan_test test_id r = record {
    test_id = test_id;
    url = r.url;
    label = elim r.label [ none ↦ [] | some l ↦ l ];
    done = true;
    circuit_broken = r.circuit_broken;
    abandoned = false;
    total_requests = r.total_requests;
    total_errors = r.total_errors;
    combined_rps = r.combined_rps;
    p50_ms = r.p50_ms;
    p95_ms = r.p95_ms;
    p99_ms = r.p99_ms;
    sub_jobs = [];
    finished_at = none;
  }

  -- scanTestRows
  unfoldable pub scan_test_rows : Map Text (TestRow F) → List (TestSnapshot F)
  unfolding scan_test
  scan_test_rows [] = []
  scan_test_rows ((id, r) ∷ rows) =
      record (scan_test id r) { finished_at = some r.finished_at } ∷ scan_test_rows rows

  unfoldable pub list_tests : Text → ℕ → Database F → Option (List (TestSnapshot F))
  unfolding scan_test_rows
  list_tests owner_id limit d =
      if d.env.fails select_recent
      then none
      else some (
          scan_test_rows (
            take limit (
              order_by
                (λ (a : Text × TestRow F) (b : Text × TestRow F).
                  ltb b.1.finished_at a.1.finished_at)
                (where_rows (λ (row : Text × TestRow F). row.1.owner_id == owner_id)
                  d.tables.tests))))

  unfoldable pub list_by_url : Text → Text → ℕ → Database F → Option (List (TestSnapshot F))
  unfolding scan_test_rows
  list_by_url owner_id url limit d =
      if d.env.fails select_trend
      then none
      else some (
          scan_test_rows (
            take limit (
              order_by
                (λ (a : Text × TestRow F) (b : Text × TestRow F).
                  ltb a.1.finished_at b.1.finished_at)
                (where_rows
                  (λ (row : Text × TestRow F). row.1.owner_id == owner_id && row.1.url == url)
                  d.tables.tests))))

  -- The two statements of EnsureShareToken. An error of the first reads as a test that is unknown
  -- or someone else's, the inner `none` as a token that is null.
  unfoldable pub read_share_token : Text → Text → Database F → Option (Option Text)
  unfolding owned_row
  read_share_token test_id owner_id d =
      if d.env.fails select_token then none else elim (owned_row test_id owner_id d.tables.tests) [
        | none ↦ none
        | some r ↦ some r.share_token
      ]

  -- The second asks neither for the owner nor for a token that is null; `false` is its error.
  unfoldable pub write_share_token : Text → Text → Database F → Database F × Bool
  unfolding token_free
  write_share_token token test_id d =
      if d.env.fails update_token || not (token_free token test_id d.tables.tests)
      then (d, false)
      else elim (lookup test_id d.tables.tests) [
        | none ↦ (d, true)
        | some r ↦ (
          record d {
            tables = record (d.tables) {
              tests = insert test_id (record r { share_token = some token }) d.tables.tests;
            };
          },
          true,
        )
      ]

  unfoldable pub ensure_share_token : Text → Text → Database F → Database F × Option (Option Text)
  unfolding read_share_token write_share_token
  ensure_share_token test_id owner_id d = elim (read_share_token test_id owner_id d) [
    | none ↦ (d, some none)
    | some (some existing) ↦ (d, some (some existing))
    | some none ↦ elim (random_token d.env.random) [
      | none ↦ (d, none)
      | some token ↦
          let (d', written) = write_share_token token test_id d in
          if written then (d', some (some token)) else (d', none)
    ]
  ]

  unfoldable pub set_label : Text → Text → Text → Database F → Database F × Option Bool
  unfolding owned_row
  set_label test_id owner_id label d =
      if d.env.fails update_label
      then (d, none)
      else elim (owned_row test_id owner_id d.tables.tests) [
        | none ↦ (d, some false)
        | some r ↦ (
          record d {
            tables = record (d.tables) {
              tests = insert test_id (record r { label = some label }) d.tables.tests;
            };
          },
          some true,
        )
      ]

  unfoldable pub delete_test : Text → Text → Database F → Database F × Option Bool
  unfolding owned_row cascade
  delete_test test_id owner_id d =
      if d.env.fails delete_row
      then (d, none)
      else elim (owned_row test_id owner_id d.tables.tests) [
        | none ↦ (d, some false)
        | some r ↦ (
          record d {
            tables = record (d.tables) {
              tests = delete test_id d.tables.tests;
              sub_jobs = cascade test_id d.tables.sub_jobs;
            };
          },
          some true,
        )
      ]

module _ {F : Type 0} (collate : Text → Text → Bool) where
  unfoldable pub load_sub_jobs : Text → Database F → Option (List (SubJobSnapshot F))
  unfolding scan_sub_job where_rows order_by of_test
  load_sub_jobs test_id d =
      if d.env.fails select_sub_jobs
      then none
      else some (
          map scan_sub_job (
            order_by (λ (a : Text × SubJobRow F) (b : Text × SubJobRow F). collate a.0 b.0)
              (where_rows (of_test test_id) d.tables.sub_jobs)))

  -- What Get and GetByShareToken do with the row that they found.
  unfoldable pub with_sub_jobs :
      Option (Text × TestRow F) → Database F → Option (Option (TestSnapshot F))
  unfolding load_sub_jobs any_abandoned scan_test
  with_sub_jobs none d = some none
  with_sub_jobs (some (test_id, r)) d = elim (load_sub_jobs test_id d) [
    | none ↦ none
    | some sjs ↦
        some (some (record (scan_test test_id r) { sub_jobs = sjs; abandoned = any_abandoned sjs }))
  ]

  unfoldable pub get_test : Text → Text → Database F → Option (Option (TestSnapshot F))
  unfolding owned_row with_sub_jobs
  get_test test_id owner_id d =
      if d.env.fails select_test
      then some none
      else elim (owned_row test_id owner_id d.tables.tests) [
        | none ↦ some none
        | some r ↦ with_sub_jobs (some (test_id, r)) d
      ]

  unfoldable pub get_by_share_token : Text → Database F → Option (Option (TestSnapshot F))
  unfolding shared_row with_sub_jobs
  get_by_share_token share_token d =
      if d.env.fails select_shared
      then some none
      else with_sub_jobs (shared_row share_token d.tables.tests) d

  abbrev pub postgres_history : HistoryStore F (Database F)
  postgres_history = record {
    save = save_test;
    get = get_test;
    list_tests = list_tests;
    list_by_url = list_by_url;
    ensure_share_token = ensure_share_token;
    get_by_share_token = get_by_share_token;
    set_label = set_label;
    delete_test = delete_test;
  }
