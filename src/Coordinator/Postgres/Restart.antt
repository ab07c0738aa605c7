-- ===== src/Coordinator/Postgres/Restart.antt =====
-- Sessions of coordinator/userstore.go over the tables of coordinator/identitystore.go, from a login
-- to the store that the next start loads.
use sentry_load.Prelude.{
  ℕ, ◌&&◌, ◌+◌, ◌<◌, ◌≡◌, refl, subst, ◌∙◌, inl, inr, Bool, true, false, List, [], ◌∷◌, ◌++◌,
  Option, none, some, arith, Text, text_eq, nat_eq, int_eq, ltb, ◌==◌, if◌then◌else◌, Bool-cases,
  Option-cases, same_iff, Map, lookup, insert, lookup-insert,
}
use sentry_load.Coordinator.Persister.{User, PersistedSession}
use sentry_load.Coordinator.DomainStore.{random_token}
use sentry_load.Coordinator.UserStore.{
  session_ttl, Session, UserStore, new_user_store, deref, get_by_id, add_user, add_users,
  add_sessions, load_user_store, issue_session, user_for_session,
}
use sentry_load.Coordinator.Postgres.{
  SessionRow, Env, Database, Statement, has_key, prune_sessions, select_sessions, select_users,
}
use sentry_load.Coordinator.Postgres.Queries.{where_rows}
use sentry_load.Coordinator.Postgres.Identity.{
  scan_users, scan_sessions, load_users, save_session, load_sessions, postgres_identity,
}
use sentry_load.Coordinator.Postgres.Saved.{insert-new, where_rows-append}

-- The store has the user, at an address that later users do not take.
record Knows (id : Text) (s : UserStore) : Type 0 where
  addr : ℕ
  user : User
  by_id : lookup id s.by_id ≡ some addr
  points : lookup addr s.heap ≡ some user
  named : user.id ≡ id
  taken : addr < s.next_user

add_user-Knows : (id : Text) (v : User) (s : UserStore) → Knows id s → Knows id (add_user v s)
unfolding add_user
add_user-Knows id v s k = elim (Bool-cases (v.id == id)) [
  | inl e ↦ record {
    addr = s.next_user;
    user = v;
    by_id = ground (arith, lookup-insert v.id id s.next_user s.by_id);
    points = ground (arith, lookup-insert s.next_user s.next_user v s.heap);
    named = ground (arith, same_iff v.id id);
    taken = omega arith;
  }
  | inr e ↦ record {
    addr = k.addr;
    user = k.user;
    by_id = ground (arith, lookup-insert v.id id s.next_user s.by_id, k.by_id);
    points = ground (arith, lookup-insert s.next_user k.addr v s.heap, k.points, k.taken);
    named = k.named;
    taken = omega (arith, k.taken);
  }
]

add_user-new : (v : User) (s : UserStore) → Knows v.id (add_user v s)
unfolding add_user
add_user-new v s = record {
  addr = s.next_user;
  user = v;
  by_id = ground (arith, lookup-insert v.id v.id s.next_user s.by_id, same_iff v.id v.id);
  points = ground (arith, lookup-insert s.next_user s.next_user v s.heap);
  named = refl;
  taken = omega arith;
}

add_users-keeps :
    (id : Text) (us : List User) (s : UserStore) → Knows id s → Knows id (add_users us s)
unfolding add_users
add_users-keeps id [] s k = k
add_users-keeps id (u ∷ us) s k = add_users-keeps id us (add_user u s) (add_user-Knows id u s k)

-- A key of the table is a user of the store that loads it.
add_users-Knows :
    (id : Text) (rows : Map Text User) (s : UserStore)
    → has_key id rows ≡ true
    → Knows id (add_users (scan_users rows) s)
unfolding add_users scan_users has_key lookup
add_users-Knows id [] s h = absurd (ground arith)
add_users-Knows id ((j, u) ∷ rows) s h =
    let u' : User = record u { id = j } in
    elim (Bool-cases (j == id)) [
      | inl e ↦
          subst (λ x. Knows x (add_users (scan_users rows) (add_user u' s))) ((same_iff j id).0 e)
            (add_users-keeps j (scan_users rows) (add_user u' s) (add_user-new u' s))
      | inr e ↦ add_users-Knows id rows (add_user u' s) (ground arith)
    ]

add_users-sessions : (us : List User) (s : UserStore) → (add_users us s).sessions ≡ s.sessions
unfolding add_users add_user
add_users-sessions [] s = refl
add_users-sessions (u ∷ us) s = add_users-sessions us (add_user u s)

-- Rows of other hashes do not touch a session.
add_sessions-other :
    (hash : Text) (rows : Map Text SessionRow) (s : UserStore)
    → lookup hash rows ≡ none
    → lookup hash (add_sessions (scan_sessions rows) s).sessions ≡ lookup hash s.sessions
unfolding add_sessions scan_sessions lookup
add_sessions-other hash [] s h = refl
add_sessions-other hash ((j, r) ∷ rows) s h =
    let sess : Session = record { user_id = r.user_id; expires_at = r.expires_at } in
    ground (
      arith,
      add_sessions-other hash rows (record s { sessions = insert j sess s.sessions }),
      lookup-insert j hash sess s.sessions,
    )

lookup-where_rows :
    (hash : Text) (test : Text × SessionRow → Bool) (rows : Map Text SessionRow)
    → lookup hash rows ≡ none
    → lookup hash (where_rows test rows) ≡ none
unfolding lookup where_rows
lookup-where_rows hash test [] h = refl
lookup-where_rows hash test ((j, r) ∷ rows) h = ground (arith, lookup-where_rows hash test rows)

scan_sessions-append :
    (xs ys : Map Text SessionRow) (s : UserStore)
    → add_sessions (scan_sessions (xs ++ ys)) s
      ≡ add_sessions (scan_sessions ys) (add_sessions (scan_sessions xs) s)
unfolding scan_sessions add_sessions
scan_sessions-append [] ys s = refl
scan_sessions-append ((j, r) ∷ xs) ys s = scan_sessions-append xs ys _

last_session :
    (hash : Text) (r : SessionRow) (test : Text × SessionRow → Bool) (s : UserStore)
    → lookup hash s.sessions ≡ none
    → lookup hash (add_sessions (scan_sessions (where_rows test ((hash, r) ∷ []))) s).sessions ≡ (
        if test (hash, r)
        then some (record { user_id = r.user_id; expires_at = r.expires_at })
        else none)
unfolding add_sessions scan_sessions where_rows
last_session hash r test s h =
    let sess : Session = record { user_id = r.user_id; expires_at = r.expires_at } in
    ground (arith, h, lookup-insert hash hash sess s.sessions, same_iff hash hash)

-- The session of a row that was added last, among those that a load keeps.
session_loaded :
    (hash : Text) (r : SessionRow) (later : ℕ) (rows : Map Text SessionRow) (us : List User)
    → lookup hash rows ≡ none
    → lookup hash
        (add_sessions
          (scan_sessions (where_rows (λ row. ltb later row.1.expires_at) (insert hash r rows)))
          (add_users us new_user_store)).sessions
      ≡ (if ltb later r.expires_at
          then some (record { user_id = r.user_id; expires_at = r.expires_at })
          else none)
session_loaded hash r later rows us h =
    let test : Text × SessionRow → Bool = λ row. ltb later row.1.expires_at in
    let base = add_users us new_user_store in
    let old = where_rows test rows in
    let split : where_rows test (insert hash r rows) ≡ old ++ where_rows test ((hash, r) ∷ []) =
      rw (insert-new hash r rows h) (where_rows-append test rows ((hash, r) ∷ [])) in
    let middle = add_sessions (scan_sessions old) base in
    let absent : lookup hash middle.sessions ≡ none =
      add_sessions-other hash old base (lookup-where_rows hash test rows h)
      ∙ rw (add_users-sessions us new_user_store) (unfold lookup in refl) in
    rw (split, scan_sessions-append old (where_rows test ((hash, r) ∷ [])) base)
      (last_session hash r test middle absent)

-- The user whom a token names in a store, by ID.
unfoldable pub logged_in : (Text → Text) → Text → ℕ → UserStore → Option Text
logged_in sha256 token now s = elim (user_for_session sha256 token now s).1 [
  | none ↦ none
  | some u ↦ some u.id
]

logged_in-session :
    (sha256 : Text → Text) (token user_id : Text) (expires later : ℕ) (kept : Bool) (s : UserStore)
    → Knows user_id s
    → lookup (sha256 token) s.sessions
      ≡ (if kept then some (record { user_id = user_id; expires_at = expires }) else none)
    → logged_in sha256 token later s ≡ (if kept && ltb later expires then some user_id else none)
unfolding logged_in user_for_session get_by_id deref
logged_in-session sha256 token user_id expires later kept s k h =
    ground (arith, h, k.by_id, k.points, k.named)

Knows-add_sessions :
    (id : Text) (ps : List PersistedSession) (s : UserStore)
    → Knows id s
    → Knows id (add_sessions ps s)
unfolding add_sessions
Knows-add_sessions id [] s k = k
Knows-add_sessions id (p ∷ ps) s k = Knows-add_sessions id ps _ (record {
  addr = k.addr;
  user = k.user;
  by_id = k.by_id;
  points = k.points;
  named = k.named;
  taken = k.taken;
})

module _ {F : Type 0} where
  saved_session :
      (ps : PersistedSession) (d : Database F)
      → (save_session ps d).1 ≡ true
      → (lookup ps.token_hash d.tables.sessions ≡ none)
        × (has_key ps.user_id d.tables.users ≡ true)
        × ((save_session ps d).0.tables ≡ record (d.tables) {
          sessions =
              insert ps.token_hash
                (record { user_id = ps.user_id; expires_at = d.env.timestamp ps.expires_at })
                d.tables.sessions;
        })
  unfolding save_session has_key
  saved_session ps d h = ground arith

  issued_session :
      (sha256 : Text → Text) (user_id token : Text) (random : Option (List ℕ)) (now : ℕ)
      (d : Database F) (s : UserStore)
      → (issue_session (some postgres_identity) sha256 user_id random now d s).2 ≡ some token
      → let ps : PersistedSession = record {
        token_hash = sha256 token;
        user_id = user_id;
        expires_at = now + session_ttl;
      } in
        ((save_session ps d).1 ≡ true)
        × ((issue_session (some postgres_identity) sha256 user_id random now d s).0
            ≡ (save_session ps d).0)
  unfolding issue_session
  issued_session sha256 user_id token random now d s h = elim (Option-cases (random_token random)) [
    | inl e ↦ absurd (ground arith)
    | inr (t, e) ↦
        let ps : PersistedSession = record {
          token_hash = sha256 t;
          user_id = user_id;
          expires_at = now + session_ttl;
        } in
        elim (Bool-cases (save_session ps d).1) [
          | inl ok ↦
              let same : t ≡ token = ground (arith, e, ok) in
              subst
                (λ x.
                  let ps : PersistedSession = record {
                    token_hash = sha256 x;
                    user_id = user_id;
                    expires_at = now + session_ttl;
                  } in
                  ((save_session ps d).1 ≡ true)
                  × ((issue_session (some postgres_identity) sha256 user_id random now d s).0
                      ≡ (save_session ps d).0))
                same (ok, ground (arith, e, ok))
          | inr refused ↦ absurd (ground (arith, e, refused))
        ]
  ]

  loaded_store :
      (started : ℕ) (d : Database F)
      → ((x : Statement) → d.env.fails x ≡ false)
      → (load_user_store (some postgres_identity) started d).1
        ≡ some (
            add_sessions
              (scan_sessions (
                where_rows
                  (λ row. ltb (d.env.timestamp started) row.1.expires_at)
                  d.tables.sessions))
              (add_users (scan_users d.tables.users) new_user_store))
  unfolding load_user_store load_users load_sessions
  loaded_store started d up = ground (arith, up select_users, up prune_sessions, up select_sessions)

  restored :
      (sha256 : Text → Text) (user_id token : Text) (expires started later : ℕ) (d : Database F)
      (rows : Map Text SessionRow)
      → ((x : Statement) → d.env.fails x ≡ false)
      → lookup (sha256 token) rows ≡ none
      → has_key user_id d.tables.users ≡ true
      → d.tables.sessions
        ≡ insert (sha256 token) (record { user_id = user_id; expires_at = expires }) rows
      → (r : UserStore) × ((load_user_store (some postgres_identity) started d).1 ≡ some r)
        × (logged_in sha256 token later r ≡ (
            if ltb (d.env.timestamp started) expires && ltb later expires
            then some user_id
            else none))
  restored sha256 user_id token expires started later d rows up absent known e =
      let row : SessionRow = record { user_id = user_id; expires_at = expires } in
      let us = scan_users d.tables.users in
      let base = add_users us new_user_store in
      let from = d.env.timestamp started in
      let kept = where_rows (λ row. ltb from row.1.expires_at) d.tables.sessions in
      let r = add_sessions (scan_sessions kept) base in
      let has_user : Knows user_id r =
        Knows-add_sessions user_id (scan_sessions kept) base
          (add_users-Knows user_id d.tables.users new_user_store known) in
      (
        r,
        loaded_store started d up,
        logged_in-session sha256 token user_id expires later (ltb from expires) r has_user
            (rw e (session_loaded (sha256 token) row from rows us absent)),
      )

  -- A token that IssueSession handed out with the database still logs its user in after a restart
  -- that follows before anything else is written, where no statement of the start fails: exactly
  -- if both the start and the login come before the expiry. The expiry is thirty days after the
  -- token was issued, and it and the time of the start are taken as a TIMESTAMPTZ keeps them.
  pub login_survives_restart :
      (sha256 : Text → Text) (user_id token : Text) (random : Option (List ℕ))
      (now started later : ℕ) (env : Env) (d : Database F) (s : UserStore)
      → (issue_session (some postgres_identity) sha256 user_id random now d s).2 ≡ some token
      → ((x : Statement) → env.fails x ≡ false)
      → let after : Database F = record {
        tables = (issue_session (some postgres_identity) sha256 user_id random now d s).0.tables;
        env = env;
      } in
        let expiry = d.env.timestamp (now + session_ttl) in
        (r : UserStore) × ((load_user_store (some postgres_identity) started after).1 ≡ some r)
        × (logged_in sha256 token later r ≡ (
            if ltb (env.timestamp started) expiry && ltb later expiry then some user_id else none))
  login_survives_restart sha256 user_id token random now started later env d s h up =
      let (ok, same_db) = issued_session sha256 user_id token random now d s h in
      let ps : PersistedSession = record {
        token_hash = sha256 token;
        user_id = user_id;
        expires_at = now + session_ttl;
      } in
      let (absent, known, tables) = saved_session ps d ok in
      rw (same_db, tables)
        (restored sha256 user_id token (d.env.timestamp (now + session_ttl)) started later _
          d.tables.sessions up absent known refl)
