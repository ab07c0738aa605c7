-- ===== src/Coordinator/Postgres/Integrity.antt =====
-- What the tables of coordinator/history.go and coordinator/identitystore.go satisfy after any
-- calls of the two interfaces.
pub mod Calls
use sentry_load.Prelude.{
  ℕ, ◌≡◌, ◌≢◌, refl, inl, inr, Bool, true, false, not, ◌&&◌, ◌||◌, List, [], ◌∷◌, Option, none,
  some, arith, All, Text, text_eq, ◌==◌, if◌then◌else◌, ltb, Bool-cases, Option-cases, same_iff,
  Map, lookup, insert, delete, lookup-insert_self,
}
use sentry_load.Coordinator.DomainStore.{random_token}
use sentry_load.Coordinator.Persister.{User, PersistedSession, VerifiedDomain}
use sentry_load.Coordinator.Snapshot.{TestSnapshot, SubJobSnapshot}
use sentry_load.Coordinator.Postgres.{
  TestRow, SubJobRow, SessionRow, DomainRow, Tables, new_tables, Env, Database, has_key, fits_int4,
  upsert_sub_job, begin_save, commit_save, upsert_test, select_token, update_token, update_label,
  delete_row, upsert_user, insert_session, prune_sessions, upsert_domain,
}
use sentry_load.Coordinator.Postgres.Queries.{
  where_rows, owned_row, has_token, shared_row, token_free, of_test, cascade,
}
use sentry_load.Coordinator.Postgres.History.{
  upserted_test, upserted_sub_job, upsert_sub_jobs, save_test, ensure_share_token, set_label,
  delete_test,
}
use sentry_load.Coordinator.Postgres.Identity.{
  upserted_user, upserted_domain, github_free, save_user, save_session, load_sessions,
  save_verified_domain,
}
use sentry_load.Coordinator.Postgres.Rows.{
  IsIndexed, insert-IsIndexed, delete-IsIndexed, has_key-insert_self, Refers, Refers-insert,
  Refers-delete, Refers-where, Refers-row, Refers-lookup,
}

abbrev pub test_of : {F : Type 0} → Text × SubJobRow F → Text
test_of row = row.1.test_id

abbrev pub user_of : Text × SessionRow → Text
user_of row = row.1.user_id

abbrev pub owner_of : DomainRow → Text
owner_of row = row.owner_id

-- A token finds its row, and the foreign keys hold.
pub record IsSound {F : Type 0} (t : Tables F) : Type 0 where
  pub indexed : IsIndexed t.tests
  pub sub_jobs_refer : Refers test_of t.tests t.sub_jobs
  pub sessions_refer : Refers user_of t.users t.sessions
  pub domains_refer : Refers owner_of t.users t.verified_domains

module _ {F : Type 0} where
  -- Putting a row back with its share token, or with one that is free, keeps the tables sound.
  pub put_test :
      (id : Text) (r : TestRow F) (t : Tables F)
      → ((token : Text) → has_token token r ≡ true → token_free token id t.tests ≡ true)
      → IsSound t
      → IsSound (record t { tests = insert id r t.tests })
  put_test id r t free h = record {
    indexed = insert-IsIndexed id r t.tests free h.indexed;
    sub_jobs_refer = Refers-insert test_of id r t.tests t.sub_jobs h.sub_jobs_refer;
    sessions_refer = h.sessions_refer;
    domains_refer = h.domains_refer;
  }

  pub put_user :
      (id : Text) (u : User) (t : Tables F)
      → IsSound t
      → IsSound (record t { users = insert id u t.users })
  put_user id u t h = record {
    indexed = h.indexed;
    sub_jobs_refer = h.sub_jobs_refer;
    sessions_refer = Refers-insert user_of id u t.users t.sessions h.sessions_refer;
    domains_refer = Refers-insert owner_of id u t.users t.verified_domains h.domains_refer;
  }

  pub same_token-free :
      (id : Text) (r s : TestRow F) (t : Tables F)
      → lookup id t.tests ≡ some r
      → s.share_token ≡ r.share_token
      → IsSound t
      → (token : Text) → has_token token s ≡ true
      → token_free token id t.tests ≡ true
  unfolding token_free has_token
  same_token-free id r s t e same h token k = ground (arith, h.indexed token id r e, same_iff id id)

  pub owned_row-lookup :
      (id owner : Text) (r : TestRow F) (m : Map Text (TestRow F))
      → owned_row id owner m ≡ some r
      → (lookup id m ≡ some r) × (r.owner_id ≡ owner)
  unfolding owned_row
  owned_row-lookup id owner r m h = elim (Option-cases (lookup id m)) [
    | inl e ↦ ground arith
    | inr (s, e) ↦ ground (arith, same_iff s.owner_id owner)
  ]

  upserted_test-free :
      (snap : TestSnapshot F) (owner : Text) (now : ℕ) (t : Tables F)
      → IsSound t
      → (token : Text) → has_token token (upserted_test snap owner now t.tests) ≡ true
      → token_free token snap.test_id t.tests ≡ true
  unfolding upserted_test
  upserted_test-free snap owner now t h token k =
      elim (Option-cases (lookup snap.test_id t.tests)) [
        | inl e ↦ unfold has_token in ground arith
        | inr (old, e) ↦
            same_token-free snap.test_id old (upserted_test snap owner now t.tests) t e
              (ground arith) h token k
      ]

  upserted_sub_job-Refers :
      {V : Type 0} (id : Text) (sj : SubJobSnapshot F) (rows : Map Text (SubJobRow F))
      (m : Map Text V)
      → has_key id m ≡ true
      → Refers test_of m rows
      → has_key (upserted_sub_job id sj rows).test_id m ≡ true
  unfolding upserted_sub_job
  upserted_sub_job-Refers id sj rows m k h = elim (Option-cases (lookup sj.job_id rows)) [
    | inl none_yet ↦ ground arith
    | inr (old, found) ↦
        ground (arith, Refers-lookup test_of sj.job_id old m rows (λ j. refl) found h)
  ]

  upsert_sub_jobs-Refers :
      {V : Type 0} (id : Text) (env : Env) (sjs : List (SubJobSnapshot F))
      (rows rows' : Map Text (SubJobRow F)) (m : Map Text V)
      → has_key id m ≡ true
      → Refers test_of m rows
      → upsert_sub_jobs id env sjs rows ≡ some rows'
      → Refers test_of m rows'
  unfolding upsert_sub_jobs
  upsert_sub_jobs-Refers id env [] rows rows' m k h e = ground arith
  upsert_sub_jobs-Refers id env (sj ∷ sjs) rows rows' m k h e =
      elim (Bool-cases (
        env.fails (upsert_sub_job sj.job_id)
        || not (fits_int4 sj.requests && fits_int4 sj.errors))) [
          | inl stop ↦ ground arith
          | inr go ↦
              upsert_sub_jobs-Refers id env sjs
                (insert sj.job_id (upserted_sub_job id sj rows) rows) rows' m k
                (Refers-row test_of sj.job_id (upserted_sub_job id sj rows) m rows
                  (λ j. upserted_sub_job-Refers id sj rows m k h) h)
                (ground arith)
        ]

  pub save_test-IsSound :
      (snap : TestSnapshot F) (owner : Text) (d : Database F)
      → IsSound d.tables
      → IsSound (save_test snap owner d).0.tables
  unfolding save_test
  save_test-IsSound snap owner d h = elim (Bool-cases (d.env.fails begin_save)) [
    | inl e ↦ rw e h
    | inr e ↦
        rw e
          (elim (Bool-cases (
            d.env.fails upsert_test
            || not (fits_int4 snap.total_requests && fits_int4 snap.total_errors))) [
              | inl refused ↦ rw refused h
              | inr upserted ↦
                  rw upserted
                    (elim (Option-cases
                      (upsert_sub_jobs snap.test_id d.env snap.sub_jobs d.tables.sub_jobs)) [
                        | inl failed ↦ rw failed h
                        | inr (rows, saved) ↦
                            rw saved (elim (Bool-cases (d.env.fails commit_save)) [
                              | inl lost ↦ rw lost h
                              | inr committed ↦ rw committed (saved_rows rows saved)
                            ])
                      ])
            ])
  ]
    where
      row : TestRow F
      row = upserted_test snap owner d.env.clock d.tables.tests

      put : IsSound (record (d.tables) { tests = insert snap.test_id row d.tables.tests })
      put =
          put_test snap.test_id row d.tables (upserted_test-free snap owner d.env.clock d.tables h)
            h

      saved_rows :
          (rows : Map Text (SubJobRow F))
          → upsert_sub_jobs snap.test_id d.env snap.sub_jobs d.tables.sub_jobs ≡ some rows
          → IsSound (record (d.tables) {
            tests = insert snap.test_id row d.tables.tests;
            sub_jobs = rows;
          })
      saved_rows rows e = record {
        indexed = put.indexed;
        sub_jobs_refer =
            upsert_sub_jobs-Refers snap.test_id d.env snap.sub_jobs d.tables.sub_jobs rows _
              (has_key-insert_self snap.test_id row d.tables.tests) put.sub_jobs_refer e;
        sessions_refer = h.sessions_refer;
        domains_refer = h.domains_refer;
      }
