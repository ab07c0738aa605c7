-- ===== src/Coordinator/UserStore/Sessions.antt =====
-- On IssueSession and UserForSession (coordinator/userstore.go).
use sentry_load.Prelude.{
  ℕ, ◌+◌, ◌≡◌, List, Option, none, some, arith, Text, text_eq, ltb, if◌then◌else◌, lookup, map_laws,
}
use sentry_load.Coordinator.Persister.{Persister}
use sentry_load.Coordinator.UserStore.{
  UserStore, Session, session_ttl, get_by_id, issue_session, user_for_session,
}

-- What a live entry of the sessions stands for.
session_resolves :
    (sha256 : Text → Text) (token : Text) (later : ℕ) (s : UserStore) (sess : Session)
    → lookup (sha256 token) s.sessions ≡ some sess
    → (user_for_session sha256 token later s).1
      ≡ (if ltb later sess.expires_at then get_by_id sess.user_id s else none)
unfolding user_for_session
session_resolves sha256 token later s sess e = ground arith

module _ {P : Type 0} (persist : Option (Persister P)) (sha256 : Text → Text) where
  issued_is_stored :
      (user_id token : Text) (random : Option (List ℕ)) (at : ℕ) (p : P) (s : UserStore)
      → let (p', s', issued) = issue_session persist sha256 user_id random at p s in
        issued ≡ some token
        → lookup (sha256 token) s'.sessions
          ≡ some (record { user_id = user_id; expires_at = at + session_ttl })
  unfolding issue_session
  issued_is_stored user_id token random at p s h = grind (arith, map_laws)

  -- A token that was issued resolves to its user, as the store then has them, for thirty days from
  -- its issue, and to nobody from then on.
  pub issued_session_window :
      (user_id token : Text) (random : Option (List ℕ)) (at later : ℕ) (p : P) (s : UserStore)
      → let (p', s', issued) = issue_session persist sha256 user_id random at p s in
        issued ≡ some token
        → (user_for_session sha256 token later s').1
          ≡ (if ltb later (at + session_ttl) then get_by_id user_id s' else none)
  issued_session_window user_id token random at later p s h =
      session_resolves sha256 token later (issue_session persist sha256 user_id random at p s).1
        (record { user_id = user_id; expires_at = at + session_ttl })
        (issued_is_stored user_id token random at p s h)

  -- A session that could not be issued leaves the store as it was.
  pub failed_session_keeps :
      (user_id : Text) (random : Option (List ℕ)) (at : ℕ) (p : P) (s : UserStore)
      → let (p', s', issued) = issue_session persist sha256 user_id random at p s in
        issued ≡ none → s' ≡ s
  unfolding issue_session
  failed_session_keeps user_id random at p s h = ground arith
