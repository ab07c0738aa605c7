-- ===== src/Coordinator/Login.antt =====
-- The login of coordinator/handlers.go: the start and the callback of the OAuth flow, and the
-- bearer token of every request that needs a user.
pub mod Bearer
pub mod Callback
use sentry_load.Prelude.{
  ℕ, Bool, true, false, ◌||◌, List, [], ◌++◌, Option, none, some, Text, text_eq, bytes, ◌==◌,
  if◌then◌else◌, ℤ,
}
use sentry_load.Strings.{cut_prefix}
use sentry_load.Coordinator.Persister.{User}
use sentry_load.Coordinator.AuthState.{issue, consume}
use sentry_load.Coordinator.UserStore.{find_or_create, issue_session, user_for_session}
use sentry_load.Coordinator.Api.{
  Services, Config, Server, Response, Checked, pass, stop, redirect_response, write_json,
  write_error,
}

abbrev pub github_authorize_url : Text
github_authorize_url = bytes "https://github.com/login/oauth/authorize"

module _ {F P R H : Type 0} (sv : Services F P R H) where
  -- The user that the Authorization header stands for, or the response that refuses it.
  unfoldable pub require_auth : Text → ℕ → Server F P R H → Server F P R H × Checked F User
  require_auth header now s = elim (cut_prefix header (bytes "Bearer ")) [
    | none ↦ (s, stop (write_error 401 (bytes "missing or malformed Authorization header")))
    | some token ↦
        if token == []
        then (s, stop (write_error 401 (bytes "missing or malformed Authorization header")))
        else let (users', user) = user_for_session sv.sha256 token now s.users in
          let s' = record s { users = users' } in
          elim user [
            | none ↦ (s', stop (write_error 401 (bytes "invalid or expired token")))
            | some u ↦ (s', pass u)
          ]
  ]

module _ {F P R H : Type 0} (sv : Services F P R H) (cfg : Config) where
  -- url.Values.Encode writes the keys in order.
  unfoldable pub handle_github_login :
      Option (List ℕ) → ℕ → Server F P R H → Server F P R H × Response F
  handle_github_login random now s =
      let (states', issued) = issue random now s.auth_states in
      if cfg.github_client_id == []
      then (s, write_error 501 (bytes "GitHub OAuth is not configured on this server"))
      else elim issued [
        | none ↦ (s, write_error 500 (bytes "failed to start login"))
        | some state ↦ (
          record s { auth_states = states' },
          write_json 302 (
              redirect_response (
                github_authorize_url
                ++ bytes "?client_id="
                ++ sv.query_escape cfg.github_client_id
                ++ bytes "&redirect_uri="
                ++ sv.query_escape cfg.github_redirect_url
                ++ bytes "&state="
                ++ sv.query_escape state)),
        )
      ]

  login_failed : ℕ → Response F
  login_failed status = write_error status (bytes "failed to complete GitHub login")

  -- The callback once GitHub has named the account.
  unfoldable pub log_in :
      ℤ → Text → Option (List ℕ) → ℕ → Server F P R H → Server F P R H × Response F
  unfolding login_failed
  log_in github_id github_login random now s =
      let (db', users', found) = find_or_create sv.persister github_id github_login s.db s.users in
      let s' = record s { db = db'; users = users' } in
      elim found [
        | none ↦ (s', login_failed 500)
        | some user ↦
            let (db'', users'', issued) =
              issue_session sv.persister sv.sha256 user.id random now db' users' in
            let s'' = record s { db = db''; users = users'' } in
            elim issued [
              | none ↦ (s'', login_failed 500)
              | some token ↦ (
                s'',
                write_json 302 (
                    redirect_response (
                      cfg.dashboard_url
                      ++ bytes "/auth/callback?token="
                      ++ sv.query_escape token
                      ++ bytes "&github_login="
                      ++ sv.query_escape user.github_login)),
              )
            ]
      ]

  -- The code is exchanged and the account fetched.
  unfoldable pub complete_login :
      Text → Option (List ℕ) → ℕ → Server F P R H → Server F P R H × Response F
  unfolding login_failed log_in
  complete_login code random now s = elim (sv.exchange code) [
    | none ↦ (s, login_failed 502)
    | some access_token ↦ elim (sv.fetch_user access_token) [
      | none ↦ (s, login_failed 502)
      | some (github_id, github_login) ↦ log_in github_id github_login random now s
    ]
  ]

  unfoldable pub handle_github_callback :
      Text → Text → Option (List ℕ) → ℕ → Server F P R H → Server F P R H × Response F
  unfolding complete_login
  handle_github_callback code state random now s =
      let (states', live) = consume state now s.auth_states in
      if cfg.github_client_id == []
      then (s, write_error 501 (bytes "GitHub OAuth is not configured on this server"))
      else if code == [] || state == []
      then (s, write_error 400 (bytes "missing code or state"))
      else if live
      then complete_login code random now (record s { auth_states = states' })
      else (record s { auth_states = states' }, write_error 400 (bytes "invalid or expired state"))
