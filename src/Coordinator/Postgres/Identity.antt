-- ===== src/Coordinator/Postgres/Identity.antt =====
-- postgresIdentity of coordinator/identitystore.go, which implements identityPersister.
use sentry_load.Prelude.{
  ℕ, Bool, true, false, not, ◌&&◌, ◌||◌, List, [], ◌∷◌, Option, none, some, Text, text_eq, ltb,
  ◌==◌, if◌then◌else◌, int_eq, Map, lookup, insert,
}
use sentry_load.Coordinator.Persister.{User, PersistedSession, VerifiedDomain, Persister}
use sentry_load.Coordinator.Postgres.{
  SessionRow, DomainRow, upsert_user, select_users, insert_session, prune_sessions, select_sessions,
  upsert_domain, select_domains, Database, has_key,
}
use sentry_load.Coordinator.Postgres.Queries.{where_rows}

-- github_id UNIQUE: may the row of this user stand beside the others? It is asked of new rows only,
-- since an update leaves github_id as it was.
unfoldable pub github_free : User → Map Text User → Bool
github_free u [] = true
github_free u ((id, v) ∷ rest) =
    (id == u.id || not (v.github_id == u.github_id)) && github_free u rest

-- The row of an INSERT, and the columns of ON CONFLICT DO UPDATE.
unfoldable pub upserted_user : User → Map Text User → User
upserted_user u users = elim (lookup u.id users) [
  | none ↦ u
  | some old ↦ record old { github_login = u.github_login; webhook_url = u.webhook_url }
]

-- INSERT INTO verified_domains with its ON CONFLICT DO UPDATE
unfoldable pub upserted_domain : VerifiedDomain → ℕ → List DomainRow → List DomainRow
upserted_domain v now [] =
    record { domain = v.domain; owner_id = v.owner_id; verified_at = now } ∷ []
upserted_domain v now (r ∷ rows) =
    if r.domain == v.domain && r.owner_id == v.owner_id
    then record r { verified_at = now } ∷ rows
    else r ∷ upserted_domain v now rows

unfoldable pub scan_users : Map Text User → List User
scan_users [] = []
scan_users ((id, u) ∷ rows) = record u { id = id } ∷ scan_users rows

unfoldable pub scan_sessions : Map Text SessionRow → List PersistedSession
scan_sessions [] = []
scan_sessions ((token_hash, r) ∷ rows) =
    record { token_hash = token_hash; user_id = r.user_id; expires_at = r.expires_at }
    ∷ scan_sessions rows

unfoldable pub scan_domains : List DomainRow → List VerifiedDomain
scan_domains [] = []
scan_domains (r ∷ rows) = record { domain = r.domain; owner_id = r.owner_id } ∷ scan_domains rows

module _ {F : Type 0} where
  unfoldable pub save_user : User → Database F → Database F × Bool
  unfolding github_free upserted_user has_key
  save_user u d =
      let t = d.tables in
      if d.env.fails upsert_user || not (has_key u.id t.users || github_free u t.users)
      then (d, false)
      else (
        record d { tables = record t { users = insert u.id (upserted_user u t.users) t.users } },
        true,
      )

  unfoldable pub load_users : Database F → Option (List User)
  unfolding scan_users
  load_users d = if d.env.fails select_users then none else some (scan_users d.tables.users)

  -- A token hash that is in the table, and a user that is not, are refused.
  unfoldable pub save_session : PersistedSession → Database F → Database F × Bool
  unfolding has_key
  save_session s d =
      let t = d.tables in
      if d.env.fails insert_session
        || has_key s.token_hash t.sessions
        || not (has_key s.user_id t.users)
      then (d, false)
      else (
        record d {
          tables = record t {
            sessions =
                insert s.token_hash
                  (record { user_id = s.user_id; expires_at = d.env.timestamp s.expires_at })
                  t.sessions;
          };
        },
        true,
      )

  -- The deletion stays when the second statement fails.
  unfoldable pub load_sessions : ℕ → Database F → Database F × Option (List PersistedSession)
  unfolding where_rows scan_sessions
  load_sessions now d =
      let kept =
        where_rows (λ (row : Text × SessionRow). ltb (d.env.timestamp now) row.1.expires_at)
          d.tables.sessions in
      if d.env.fails prune_sessions then (d, none) else (
        record d { tables = record (d.tables) { sessions = kept } },
        if d.env.fails select_sessions then none else some (scan_sessions kept),
      )

  unfoldable pub save_verified_domain : VerifiedDomain → Database F → Database F × Bool
  unfolding upserted_domain has_key
  save_verified_domain v d =
      let t = d.tables in
      if d.env.fails upsert_domain || not (has_key v.owner_id t.users) then (d, false) else (
        record d {
          tables = record t { verified_domains = upserted_domain v d.env.clock t.verified_domains };
        },
        true,
      )

  unfoldable pub load_verified_domains : Database F → Option (List VerifiedDomain)
  unfolding scan_domains
  load_verified_domains d =
      if d.env.fails select_domains then none else some (scan_domains d.tables.verified_domains)

  abbrev pub postgres_identity : Persister (Database F)
  postgres_identity = record {
    save_user = save_user;
    load_users = load_users;
    save_session = save_session;
    load_sessions = load_sessions;
    save_verified_domain = save_verified_domain;
    load_verified_domains = load_verified_domains;
  }
