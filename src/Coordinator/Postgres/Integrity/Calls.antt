-- ===== src/Coordinator/Postgres/Integrity/Calls.antt =====
-- The calls of testHistoryStore and identityPersister that write, on the tables of
-- coordinator/history.go.
use sentry_load.Prelude.{
  ℕ, ◌≡◌, refl, inl, inr, true, not, ◌&&◌, ◌||◌, List, [], ◌∷◌, none, some, arith, Text, text_eq,
  ◌==◌, Bool-cases, Option-cases, same_iff, Map, lookup, delete,
}
use sentry_load.Coordinator.DomainStore.{random_token}
use sentry_load.Coordinator.Persister.{User, PersistedSession, VerifiedDomain}
use sentry_load.Coordinator.Snapshot.{TestSnapshot}
use sentry_load.Coordinator.Postgres.{
  TestRow, SubJobRow, DomainRow, Tables, new_tables, Env, Database, has_key, update_token,
  update_label, delete_row, upsert_user, insert_session, prune_sessions, upsert_domain,
}
use sentry_load.Coordinator.Postgres.Queries.{owned_row, has_token, token_free, of_test, cascade}
use sentry_load.Coordinator.Postgres.History.{
  save_test, read_share_token, write_share_token, ensure_share_token, set_label, delete_test,
}
use sentry_load.Coordinator.Postgres.Identity.{
  upserted_user, upserted_domain, github_free, save_user, save_session, load_sessions,
  save_verified_domain,
}
use sentry_load.Coordinator.Postgres.Rows.{
  delete-IsIndexed, Refers, Refers-delete, Refers-where, Refers-row,
}
use sentry_load.Coordinator.Postgres.Integrity.{
  IsSound, test_of, user_of, owner_of, put_test, put_user, same_token-free, owned_row-lookup,
  save_test-IsSound,
}

cascade-Refers :
    {F : Type 0} (id : Text) (m : Map Text (TestRow F)) (rows : Map Text (SubJobRow F))
    → Refers test_of m rows
    → Refers test_of (delete id m) (cascade id rows)
unfolding cascade of_test
cascade-Refers {F} id m rows h =
    Refers-delete test_of id m (λ (row : Text × SubJobRow F). not (row.1.test_id == id)) rows
      (λ row k. ground (arith, same_iff row.1.test_id id)) h

upserted_domain-Refers :
    (v : VerifiedDomain) (now : ℕ) (users : Map Text User) (rows : List DomainRow)
    → has_key v.owner_id users ≡ true
    → Refers owner_of users rows
    → Refers owner_of users (upserted_domain v now rows)
unfolding upserted_domain
upserted_domain-Refers v now users [] k h = (k, tt)
upserted_domain-Refers v now users (r ∷ rows) k h =
    elim (Bool-cases (r.domain == v.domain && r.owner_id == v.owner_id)) [
      | inl e ↦ rw e (h.0, h.1)
      | inr e ↦ rw e (h.0, upserted_domain-Refers v now users rows k h.1)
    ]

module _ {F : Type 0} where
  -- Writing a token, whoever asks for it.
  write_share_token-IsSound :
      (token id : Text) (d : Database F)
      → IsSound d.tables
      → IsSound (write_share_token token id d).0.tables
  unfolding write_share_token
  write_share_token-IsSound token id d h =
      elim (Bool-cases (d.env.fails update_token || not (token_free token id d.tables.tests))) [
        | inl refused ↦ rw refused h
        | inr updated ↦ rw updated (elim (Option-cases (lookup id d.tables.tests)) [
          | inl unknown ↦ rw unknown h
          | inr (r, known) ↦ rw known (
              put_test id (record r { share_token = some token }) d.tables
                (λ t k. unfold has_token in ground (arith, same_iff token t)) h)
        ])
      ]

  pub ensure_share_token-IsSound :
      (id owner : Text) (d : Database F)
      → IsSound d.tables
      → IsSound (ensure_share_token id owner d).0.tables
  unfolding ensure_share_token
  ensure_share_token-IsSound id owner d h = elim (Option-cases (read_share_token id owner d)) [
    | inl unknown ↦ rw (ensure_share_token, unknown) h
    | inr (some old, e) ↦ rw (ensure_share_token, e) h
    | inr (none, e) ↦ elim (Option-cases (random_token d.env.random)) [
      | inl no_random ↦ rw (ensure_share_token, e, no_random) h
      | inr (token, drawn) ↦
          let kept = write_share_token-IsSound token id d h in
          elim (Bool-cases (write_share_token token id d).1) [
            | inl done ↦ rw (ensure_share_token, e, drawn, done) kept
            | inr failed ↦ rw (ensure_share_token, e, drawn, failed) kept
          ]
    ]
  ]

  set_label-IsSound :
      (id owner label : Text) (d : Database F)
      → IsSound d.tables
      → IsSound (set_label id owner label d).0.tables
  unfolding set_label
  set_label-IsSound id owner label d h = elim (Bool-cases (d.env.fails update_label)) [
    | inl e ↦ rw e h
    | inr e ↦ rw e (elim (Option-cases (owned_row id owner d.tables.tests)) [
      | inl unknown ↦ rw unknown h
      | inr (r, owned) ↦ rw owned (
          put_test id (record r { label = some label }) d.tables
            (same_token-free id r (record r { label = some label }) d.tables
              (owned_row-lookup id owner r d.tables.tests owned).0 refl h)
            h)
    ])
  ]

  delete_test-IsSound :
      (id owner : Text) (d : Database F)
      → IsSound d.tables
      → IsSound (delete_test id owner d).0.tables
  unfolding delete_test
  delete_test-IsSound id owner d h = elim (Bool-cases (d.env.fails delete_row)) [
    | inl e ↦ rw e h
    | inr e ↦ rw e (elim (Option-cases (owned_row id owner d.tables.tests)) [
      | inl unknown ↦ rw unknown h
      | inr (r, owned) ↦ rw owned (record {
        indexed = delete-IsIndexed id d.tables.tests h.indexed;
        sub_jobs_refer = cascade-Refers id d.tables.tests d.tables.sub_jobs h.sub_jobs_refer;
        sessions_refer = h.sessions_refer;
        domains_refer = h.domains_refer;
      })
    ])
  ]

  save_user-IsSound :
      (u : User) (d : Database F) → IsSound d.tables → IsSound (save_user u d).0.tables
  unfolding save_user
  save_user-IsSound u d h =
      elim (Bool-cases (
        d.env.fails upsert_user
        || not (has_key u.id d.tables.users || github_free u d.tables.users))) [
          | inl e ↦ rw e h
          | inr e ↦ rw e (put_user u.id (upserted_user u d.tables.users) d.tables h)
        ]

  save_session-IsSound :
      (s : PersistedSession) (d : Database F)
      → IsSound d.tables
      → IsSound (save_session s d).0.tables
  unfolding save_session
  save_session-IsSound s d h =
      elim (Bool-cases (
        d.env.fails insert_session
        || has_key s.token_hash d.tables.sessions
        || not (has_key s.user_id d.tables.users))) [
          | inl e ↦ rw e h
          | inr e ↦ rw e (record {
            indexed = h.indexed;
            sub_jobs_refer = h.sub_jobs_refer;
            sessions_refer =
                Refers-row user_of s.token_hash _ d.tables.users d.tables.sessions
                  (λ j. ground arith) h.sessions_refer;
            domains_refer = h.domains_refer;
          })
        ]

  load_sessions-IsSound :
      (now : ℕ) (d : Database F) → IsSound d.tables → IsSound (load_sessions now d).0.tables
  unfolding load_sessions
  load_sessions-IsSound now d h = elim (Bool-cases (d.env.fails prune_sessions)) [
    | inl e ↦ rw e h
    | inr e ↦ rw e (record {
      indexed = h.indexed;
      sub_jobs_refer = h.sub_jobs_refer;
      sessions_refer = Refers-where user_of d.tables.users _ d.tables.sessions h.sessions_refer;
      domains_refer = h.domains_refer;
    })
  ]

  save_verified_domain-IsSound :
      (v : VerifiedDomain) (d : Database F)
      → IsSound d.tables
      → IsSound (save_verified_domain v d).0.tables
  unfolding save_verified_domain
  save_verified_domain-IsSound v d h =
      elim (Bool-cases (d.env.fails upsert_domain || not (has_key v.owner_id d.tables.users))) [
        | inl e ↦ rw e h
        | inr e ↦ rw e (record {
          indexed = h.indexed;
          sub_jobs_refer = h.sub_jobs_refer;
          sessions_refer = h.sessions_refer;
          domains_refer =
              upserted_domain-Refers v d.env.clock d.tables.users d.tables.verified_domains
                (ground arith) h.domains_refer;
        })
      ]

-- A call of the interfaces that writes.
pub data Call (F : Type 0) : Type 0 where
  saves : TestSnapshot F → Text → Call F
  shares : Text → Text → Call F
  labels : Text → Text → Text → Call F
  deletes : Text → Text → Call F
  adds_user : User → Call F
  adds_session : PersistedSession → Call F
  loads_sessions : ℕ → Call F
  adds_domain : VerifiedDomain → Call F

module _ {F : Type 0} where
  unfoldable pub perform : Call F → Database F → Database F
  perform (saves snap owner) d = (save_test snap owner d).0
  perform (shares id owner) d = (ensure_share_token id owner d).0
  perform (labels id owner label) d = (set_label id owner label d).0
  perform (deletes id owner) d = (delete_test id owner d).0
  perform (adds_user u) d = (save_user u d).0
  perform (adds_session s) d = (save_session s d).0
  perform (loads_sessions now) d = (load_sessions now d).0
  perform (adds_domain v) d = (save_verified_domain v d).0

  -- Each call meets an environment of its own.
  unfoldable pub perform_all : List (Env × Call F) → Tables F → Tables F
  unfolding perform
  perform_all [] t = t
  perform_all ((env, c) ∷ cs) t =
      perform_all cs (perform c (record { tables = t; env = env })).tables

  perform-IsSound : (c : Call F) (d : Database F) → IsSound d.tables → IsSound (perform c d).tables
  unfolding perform
  perform-IsSound (saves snap owner) d h = save_test-IsSound snap owner d h
  perform-IsSound (shares id owner) d h = ensure_share_token-IsSound id owner d h
  perform-IsSound (labels id owner label) d h = set_label-IsSound id owner label d h
  perform-IsSound (deletes id owner) d h = delete_test-IsSound id owner d h
  perform-IsSound (adds_user u) d h = save_user-IsSound u d h
  perform-IsSound (adds_session s) d h = save_session-IsSound s d h
  perform-IsSound (loads_sessions now) d h = load_sessions-IsSound now d h
  perform-IsSound (adds_domain v) d h = save_verified_domain-IsSound v d h

  pub perform_all_keeps :
      (cs : List (Env × Call F)) (t : Tables F) → IsSound t → IsSound (perform_all cs t)
  unfolding perform_all
  perform_all_keeps [] t h = h
  perform_all_keeps ((env, c) ∷ cs) t h =
      perform_all_keeps cs _ (perform-IsSound c (record { tables = t; env = env }) h)

  -- After any calls from the empty database, whichever statements fail, every shared test is the
  -- one that its token finds, every sub-job belongs to a stored test, and every session and
  -- verified domain to a stored user.
  pub perform_all-IsSound : (cs : List (Env × Call F)) → IsSound (perform_all cs new_tables)
  perform_all-IsSound cs = perform_all_keeps cs new_tables (record {
    indexed = λ t id r e k. unfold lookup in ground arith;
    sub_jobs_refer = tt;
    sessions_refer = tt;
    domains_refer = tt;
  })
