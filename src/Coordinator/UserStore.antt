-- ===== src/Coordinator/UserStore.antt =====
-- coordinator/userstore.go: users and their sessions. A *User is an address of the store's heap,
-- so that the two maps of the code share their users as the code does. SHA-256 is the parameter
-- `sha256`; wall-clock times are nanoseconds; `rand.Read` is the argument `random`.
pub mod Sessions
pub mod Users
use sentry_load.Prelude.{
  ℕ, suc, ◌+◌, Bool, true, false, List, [], ◌∷◌, ◌++◌, Option, none, some, Text, text_eq, nat_eq,
  ltb, ◌==◌, if◌then◌else◌, bytes, ℤ, int_eq, Map, lookup, insert, delete,
}
use sentry_load.Strconv.{itoa}
use sentry_load.Coordinator.Persister.{User, PersistedSession, Persister}
use sentry_load.Coordinator.DomainStore.{random_token}

-- 30 days
abbrev pub session_ttl : ℕ
session_ttl = 2592000000000000

unfoldable pub user_id_for_github : ℤ → Text
user_id_for_github github_id = bytes "gh-" ++ itoa github_id

pub record Session : Type 0 where
  pub user_id : Text
  pub expires_at : ℕ

pub record UserStore : Type 0 where
  pub heap : Map ℕ User
  pub next_user : ℕ
  pub by_github : Map ℤ ℕ
  pub by_id : Map Text ℕ
  pub sessions : Map Text Session

abbrev pub new_user_store : UserStore
new_user_store = record { heap = []; next_user = 0; by_github = []; by_id = []; sessions = [] }

-- The user that a pointer of a map points to.
unfoldable pub deref : Option ℕ → UserStore → Option User
deref none s = none
deref (some addr) s = lookup addr s.heap

unfoldable pub get_by_id : Text → UserStore → Option User
unfolding deref
get_by_id user_id s = deref (lookup user_id s.by_id) s

unfoldable pub get_by_github : ℤ → UserStore → Option User
unfolding deref
get_by_github github_id s = deref (lookup github_id s.by_github) s

-- &u for a new variable u, put into both maps
unfoldable pub add_user : User → UserStore → UserStore
add_user u s = record s {
  heap = insert s.next_user u s.heap;
  next_user = suc s.next_user;
  by_github = insert u.github_id s.next_user s.by_github;
  by_id = insert u.id s.next_user s.by_id;
}

unfoldable pub add_users : List User → UserStore → UserStore
unfolding add_user
add_users [] s = s
add_users (u ∷ us) s = add_users us (add_user u s)

unfoldable pub add_sessions : List PersistedSession → UserStore → UserStore
add_sessions [] s = s
add_sessions (ps ∷ rest) s = add_sessions rest (record s {
  sessions =
      insert ps.token_hash (record { user_id = ps.user_id; expires_at = ps.expires_at }) s.sessions;
})

module _ {P : Type 0} (persist : Option (Persister P)) where
  -- The users and sessions of the database; `none` is an error.
  unfoldable pub load_user_store : ℕ → P → P × Option UserStore
  unfolding add_users add_sessions
  load_user_store now p = elim persist [
    | none ↦ (p, some new_user_store)
    | some db ↦ elim (db.load_users p) [
      | none ↦ (p, none)
      | some users ↦
          let (p', sessions) = db.load_sessions now p in
          (
            p',
            elim sessions [
              | none ↦ none
              | some rows ↦ some (add_sessions rows (add_users users new_user_store))
            ],
          )
    ]
  ]

  -- save: `false` is the error of the database.
  unfoldable pub save : User → P → P × Bool
  save u p = elim persist [ none ↦ (p, true) | some db ↦ db.save_user u p ]

  -- The user, or `none` for the error of the database. A first login adds the user to both maps; a
  -- later one writes the login through the pointer, and that pointer to both maps.
  unfoldable pub find_or_create : ℤ → Text → P → UserStore → P × UserStore × Option User
  unfolding save add_user
  find_or_create github_id github_login p s = elim (lookup github_id s.by_github) [
    | none ↦
        let updated : User = record {
          id = user_id_for_github github_id;
          github_id = github_id;
          github_login = github_login;
          webhook_url = [];
        } in
        let (p', saved) = save updated p in
        if saved then (p', add_user updated s, some updated) else (p', s, none)
    | some addr ↦ elim (lookup addr s.heap) [
      | none ↦ (p, s, none)
      | some u ↦
          let updated = record u { github_login = github_login } in
          let (p', saved) = save updated p in
          if saved
          then (
            p',
            record s {
              heap = insert addr updated s.heap;
              by_github = insert github_id addr s.by_github;
              by_id = insert u.id addr s.by_id;
            },
            some updated,
          )
          else (p', s, none)
    ]
  ]

  -- The first Boolean says whether the user exists, the second is `false` for a database error.
  unfoldable pub set_webhook_url : Text → Text → P → UserStore → P × UserStore × Bool × Bool
  unfolding save
  set_webhook_url user_id webhook_url p s = elim (lookup user_id s.by_id) [
    | none ↦ (p, s, false, true)
    | some addr ↦ elim (lookup addr s.heap) [
      | none ↦ (p, s, false, true)
      | some u ↦
          let updated = record u { webhook_url = webhook_url } in
          let (p', saved) = save updated p in
          if saved
          then (p', record s { heap = insert addr updated s.heap }, true, true)
          else (p', s, true, false)
    ]
  ]

  module _ (sha256 : Text → Text) where
    unfoldable pub issue_session :
        Text → Option (List ℕ) → ℕ → P → UserStore → P × UserStore × Option Text
    issue_session user_id random now p s = elim (random_token random) [
      | none ↦ (p, s, none)
      | some token ↦
          let hash = sha256 token in
          let expires_at = now + session_ttl in
          let s' = record s {
            sessions =
                insert hash (record { user_id = user_id; expires_at = expires_at }) s.sessions;
          } in
          elim persist [
            | none ↦ (p, s', some token)
            | some db ↦
                let (p', saved) =
                  db.save_session
                    (record { token_hash = hash; user_id = user_id; expires_at = expires_at }) p in
                if saved then (p', s', some token) else (p', s, none)
          ]
    ]

module _ (sha256 : Text → Text) where
  unfoldable pub user_for_session : Text → ℕ → UserStore → UserStore × Option User
  unfolding get_by_id
  user_for_session token now s =
      let hash = sha256 token in
      elim (lookup hash s.sessions) [
        | none ↦ (s, none)
        | some sess ↦
            if ltb now sess.expires_at
            then (s, get_by_id sess.user_id s)
            else (record s { sessions = delete hash s.sessions }, none)
      ]
