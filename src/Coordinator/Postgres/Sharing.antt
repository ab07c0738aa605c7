-- ===== src/Coordinator/Postgres/Sharing.antt =====
-- What the calls on the tables of coordinator/history.go do to a test that is shared.
use sentry_load.Prelude.{
  ◌≡◌, ◌≢◌, refl, inl, inr, not, ◌&&◌, ◌||◌, List, [], ◌∷◌, Option, none, some, arith, All, Text,
  text_eq, ◌==◌, Bool-cases, Option-cases, same_iff, lookup, insert, lookup-insert, lookup-delete,
}
use sentry_load.Coordinator.DomainStore.{random_token}
use sentry_load.Coordinator.Snapshot.{TestSnapshot}
use sentry_load.Coordinator.Postgres.{
  TestRow, Tables, Env, Database, update_token, update_label, delete_row, begin_save, upsert_test,
  commit_save, fits_int4,
}
use sentry_load.Coordinator.Postgres.Queries.{owned_row, token_free}
use sentry_load.Coordinator.Postgres.History.{
  upserted_test, upsert_sub_jobs, save_test, read_share_token, write_share_token,
  ensure_share_token, set_label, delete_test,
}
use sentry_load.Coordinator.Postgres.Identity.{
  save_user, save_session, load_sessions, save_verified_domain,
}
use sentry_load.Coordinator.Postgres.Integrity.{owned_row-lookup}
use sentry_load.Coordinator.Postgres.Integrity.Calls.{
  Call, saves, shares, labels, deletes, adds_user, adds_session, loads_sessions, adds_domain,
  perform, perform_all,
}

module _ {F : Type 0} (token id owner : Text) where
  -- The test is stored, belongs to the user and has the token.
  pub record IsShared (t : Tables F) : Type 0 where
    pub row : TestRow F
    pub stored : lookup id t.tests ≡ some row
    pub token_set : row.share_token ≡ some token
    pub owned : row.owner_id ≡ owner

  put_row :
      (j : Text) (r : TestRow F) (t : Tables F)
      → (j ≡ id → (r.share_token ≡ some token) × (r.owner_id ≡ owner))
      → IsShared t
      → IsShared (record t { tests = insert j r t.tests })
  put_row j r t new h = elim (Bool-cases (j == id)) [
    | inl e ↦
        let p = (same_iff j id).0 e in
        record {
          row = r;
          stored = ground (arith, lookup-insert j id r t.tests);
          token_set = (new p).0;
          owned = (new p).1;
        }
    | inr e ↦ record {
      row = h.row;
      stored = ground (arith, lookup-insert j id r t.tests, h.stored);
      token_set = h.token_set;
      owned = h.owned;
    }
  ]

  save_test-IsShared :
      (snap : TestSnapshot F) (o : Text) (d : Database F)
      → IsShared d.tables
      → IsShared (save_test snap o d).0.tables
  unfolding save_test
  save_test-IsShared snap o d h = elim (Bool-cases (d.env.fails begin_save)) [
    | inl e ↦ rw e h
    | inr e ↦
        rw e
          (elim (Bool-cases (
            d.env.fails upsert_test
            || not (fits_int4 snap.total_requests && fits_int4 snap.total_errors))) [
              | inl refused ↦ rw refused h
              | inr upserted ↦
                  rw upserted
                    (elim (Option-cases
                      (upsert_sub_jobs snap.test_id d.env snap.sub_jobs d.tables.sub_jobs)) [
                        | inl failed ↦ rw failed h
                        | inr (rows, saved) ↦
                            rw saved (elim (Bool-cases (d.env.fails commit_save)) [
                              | inl lost ↦ rw lost h
                              | inr committed ↦ rw committed (record {
                                row = put.row;
                                stored = put.stored;
                                token_set = put.token_set;
                                owned = put.owned;
                              })
                            ])
                      ])
            ])
  ]
    where
      row : TestRow F
      row = upserted_test snap o d.env.clock d.tables.tests

      put : IsShared (record (d.tables) { tests = insert snap.test_id row d.tables.tests })
      put =
          put_row snap.test_id row d.tables
            (λ p. unfold upserted_test in ground (arith, p, h.stored, h.token_set, h.owned)) h

  pub read_share_token-inv :
      (j o : Text) (t : Option Text) (d : Database F)
      → read_share_token j o d ≡ some t
      → (r : TestRow F) × (lookup j d.tables.tests ≡ some r)
        × (r.share_token ≡ t)
        × (r.owner_id ≡ o)
  unfolding read_share_token
  read_share_token-inv j o t d h = elim (Option-cases (owned_row j o d.tables.tests)) [
    | inl unknown ↦ absurd (ground arith)
    | inr (r, e) ↦
        let (stored, mine) = owned_row-lookup j o r d.tables.tests e in
        (r, stored, ground arith, mine)
  ]

  write_share_token-IsShared :
      (t j : Text) (d : Database F)
      → j ≢ id
      → IsShared d.tables
      → IsShared (write_share_token t j d).0.tables
  unfolding write_share_token
  write_share_token-IsShared t j d n h =
      elim (Bool-cases (d.env.fails update_token || not (token_free t j d.tables.tests))) [
        | inl refused ↦ rw refused h
        | inr updated ↦ rw updated (elim (Option-cases (lookup j d.tables.tests)) [
          | inl unknown ↦ rw unknown h
          | inr (r, known) ↦
              rw known
                (put_row j (record r { share_token = some t }) d.tables (λ p. absurd (n p)) h)
        ])
      ]

  ensure_share_token-IsShared :
      (j o : Text) (d : Database F)
      → IsShared d.tables
      → IsShared (ensure_share_token j o d).0.tables
  unfolding ensure_share_token
  ensure_share_token-IsShared j o d h = elim (Option-cases (read_share_token j o d)) [
    | inl unknown ↦ rw (ensure_share_token, unknown) h
    | inr (some old, e) ↦ rw (ensure_share_token, e) h
    | inr (none, e) ↦ elim (Option-cases (random_token d.env.random)) [
      | inl no_random ↦ rw (ensure_share_token, e, no_random) h
      | inr (t, drawn) ↦
          let (r, stored, no_token, _) = read_share_token-inv j o none d e in
          let kept =
            write_share_token-IsShared t j d
              (λ p. ground (arith, p, stored, no_token, h.stored, h.token_set)) h in
          elim (Bool-cases (write_share_token t j d).1) [
            | inl done ↦ rw (ensure_share_token, e, drawn, done) kept
            | inr failed ↦ rw (ensure_share_token, e, drawn, failed) kept
          ]
    ]
  ]

  set_label-IsShared :
      (j o label : Text) (d : Database F)
      → IsShared d.tables
      → IsShared (set_label j o label d).0.tables
  unfolding set_label
  set_label-IsShared j o label d h = elim (Bool-cases (d.env.fails update_label)) [
    | inl e ↦ rw e h
    | inr e ↦ rw e (elim (Option-cases (owned_row j o d.tables.tests)) [
      | inl unknown ↦ rw unknown h
      | inr (r, owned) ↦ rw owned (
          put_row j (record r { label = some label }) d.tables
            (λ p. ground (
              arith,
              p,
              owned_row-lookup j o r d.tables.tests owned,
              h.stored,
              h.token_set,
              h.owned,
            ))
            h)
    ])
  ]

  delete_test-IsShared :
      (j o : Text) (d : Database F)
      → ¬ ((j ≡ id) × (o ≡ owner))
      → IsShared d.tables
      → IsShared (delete_test j o d).0.tables
  unfolding delete_test
  delete_test-IsShared j o d n h = elim (Bool-cases (d.env.fails delete_row)) [
    | inl e ↦ rw e h
    | inr e ↦ rw e (elim (Option-cases (owned_row j o d.tables.tests)) [
      | inl unknown ↦ rw unknown h
      | inr (r, owned) ↦ rw owned (record {
        row = h.row;
        stored = ground (
          arith,
          lookup-delete j id d.tables.tests,
          same_iff j id,
          owned_row-lookup j o r d.tables.tests owned,
          h.stored,
          h.owned,
        );
        token_set = h.token_set;
        owned = h.owned;
      })
    ])
  ]

  same_tests : (t u : Tables F) → u.tests ≡ t.tests → IsShared t → IsShared u
  same_tests t u e h = record {
    row = h.row;
    stored = rw e h.stored;
    token_set = h.token_set;
    owned = h.owned;
  }

  perform-IsShared :
      (c : Call F) (d : Database F)
      → c ≢ deletes id owner
      → IsShared d.tables
      → IsShared (perform c d).tables
  unfolding perform
  perform-IsShared (saves snap o) d n h = save_test-IsShared snap o d h
  perform-IsShared (shares j o) d n h = ensure_share_token-IsShared j o d h
  perform-IsShared (labels j o label) d n h = set_label-IsShared j o label d h
  perform-IsShared (deletes j o) d n h = delete_test-IsShared j o d (λ e. n (rw (e.0, e.1) refl)) h
  perform-IsShared (adds_user u) d n h = same_tests d.tables _ (unfold save_user in ground arith) h
  perform-IsShared (adds_session s) d n h =
      same_tests d.tables _ (unfold save_session in ground arith) h
  perform-IsShared (loads_sessions now) d n h =
      same_tests d.tables _ (unfold load_sessions in ground arith) h
  perform-IsShared (adds_domain v) d n h =
      same_tests d.tables _ (unfold save_verified_domain in ground arith) h

  pub perform_all-IsShared :
      (cs : List (Env × Call F)) (t : Tables F)
      → All (λ c. c.1 ≢ deletes id owner) cs
      → IsShared t
      → IsShared (perform_all cs t)
  unfolding perform_all
  perform_all-IsShared [] t n h = h
  perform_all-IsShared ((env, c) ∷ cs) t n h =
      perform_all-IsShared cs _ n.1 (perform-IsShared c (record { tables = t; env = env }) n.0 h)
