-- ===== src/Coordinator/Login/Bearer.antt =====
-- On requireAuth (coordinator/handlers.go) and the tokens of IssueSession.
use sentry_load.Prelude.{
  ℕ, ◌+◌, ◌≡◌, ◌≢◌, ◌∙◌, List, [], ◌++◌, Option, none, some, arith, Text, text_eq, bytes, ltb,
  if◌then◌else◌, same_iff,
}
use sentry_load.Strings.{cut_prefix-append}
use sentry_load.Coordinator.Persister.{User}
use sentry_load.Coordinator.UserStore.{session_ttl, get_by_id, issue_session, user_for_session}
use sentry_load.Coordinator.UserStore.Sessions.{issued_session_window}
use sentry_load.Coordinator.Api.{Services, Server, Response, Checked, pass, stop}
use sentry_load.Coordinator.Login.{require_auth}

module _ {F P R H : Type 0} where
  -- The user whom a checked request stands for.
  abbrev pub admitted : Server F P R H × Checked F User → Option User
  admitted (s, pass u) = some u
  admitted (s, stop r) = none

module _ {F P R H : Type 0} (sv : Services F P R H) where
  require_auth_token :
      (token : Text) (now : ℕ) (s : Server F P R H)
      → token ≢ []
      → admitted (require_auth sv (bytes "Bearer " ++ token) now s)
        ≡ (user_for_session sv.sha256 token now s.users).1
  unfolding require_auth
  require_auth_token token now s h =
      ground (arith, cut_prefix-append (bytes "Bearer ") token, same_iff token [])

  -- A request with an issued token is let through as its user for thirty days, and refused from
  -- then on.
  pub bearer_admits :
      (user_id token : Text) (random : Option (List ℕ)) (at later : ℕ) (s : Server F P R H)
      → (issue_session sv.persister sv.sha256 user_id random at s.db s.users).2 ≡ some token
      → token ≢ []
      → let users' = (issue_session sv.persister sv.sha256 user_id random at s.db s.users).1 in
        admitted (require_auth sv (bytes "Bearer " ++ token) later (record s { users = users' }))
        ≡ (if ltb later (at + session_ttl) then get_by_id user_id users' else none)
  bearer_admits user_id token random at later s issued h =
      let users' = (issue_session sv.persister sv.sha256 user_id random at s.db s.users).1 in
      require_auth_token token later (record s { users = users' }) h
      ∙ issued_session_window sv.persister sv.sha256 user_id token random at later s.db s.users
          issued

  -- A request whose header is not a bearer token of a session is refused with 401.
  pub require_auth_refuses :
      (header : Text) (now : ℕ) (s : Server F P R H) (r : Response F)
      → (require_auth sv header now s).1 ≡ stop r
      → r.status ≡ 401
  unfolding require_auth
  require_auth_refuses header now s r h = ground arith
