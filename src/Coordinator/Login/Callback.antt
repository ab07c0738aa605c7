-- ===== src/Coordinator/Login/Callback.antt =====
-- On handleGithubCallback (coordinator/handlers.go) and the `state` of a login.
use sentry_load.Prelude.{
  ℕ, ◌≡◌, ◌≢◌, ◌∙◌, ap, false, List, [], Option, arith, Text, text_eq, same_iff,
}
use sentry_load.Coordinator.AuthState.{StateStore, consume, is_live, consume_once}
use sentry_load.Coordinator.Api.{Services, Config, Server}
use sentry_load.Coordinator.Login.{handle_github_callback, complete_login, log_in}

module _ {F P R H : Type 0} (sv : Services F P R H) (cfg : Config) where
  -- complete_login leaves the states alone.
  complete_login_states :
      (code : Text) (random : Option (List ℕ)) (now : ℕ) (s : Server F P R H)
      → (complete_login sv cfg code random now s).0.auth_states ≡ s.auth_states
  unfolding complete_login log_in
  complete_login_states code random now s = ground arith

  callback_consumes :
      (code state : Text) (random : Option (List ℕ)) (now : ℕ) (s : Server F P R H)
      → cfg.github_client_id ≢ []
      → code ≢ []
      → state ≢ []
      → (handle_github_callback sv cfg code state random now s).0.auth_states
        ≡ (consume state now s.auth_states).0
  unfolding handle_github_callback
  callback_consumes code state random now s configured coded stated = ground (
    arith,
    same_iff cfg.github_client_id [],
    same_iff code [],
    same_iff state [],
    complete_login_states code random now
        (record s { auth_states = (consume state now s.auth_states).0 }),
  )

  consumed_dead :
      (state : Text) (now later : ℕ) (s : StateStore)
      → is_live state later (consume state now s).0 ≡ false
  consumed_dead state now later s =
      ground (arith, (consume_once state now s).1 state later, same_iff state state)

  dead_state_refused :
      (code state : Text) (random : Option (List ℕ)) (now : ℕ) (s : Server F P R H)
      → cfg.github_client_id ≢ []
      → is_live state now s.auth_states ≡ false
      → let (s', r) = handle_github_callback sv cfg code state random now s in
        (r.status ≡ 400) × (s'.users ≡ s.users) × (is_live state now s'.auth_states ≡ false)
  unfolding handle_github_callback
  dead_state_refused code state random now s configured dead =
      let answer = (consume_once state now s.auth_states).0 in
      let gone = consumed_dead state now now s.auth_states in
      (
        ground (arith, same_iff cfg.github_client_id [], answer),
        ground (arith, same_iff cfg.github_client_id [], answer),
        ground (arith, same_iff cfg.github_client_id [], answer, gone),
      )

  coded_only :
      (state : Text) (random : Option (List ℕ)) (now : ℕ) (s : Server F P R H)
      → cfg.github_client_id ≢ []
      → let (s', r) = handle_github_callback sv cfg [] state random now s in
        (r.status ≡ 400) × (s' ≡ s)
  unfolding handle_github_callback
  coded_only state random now s configured =
      ground (arith, same_iff cfg.github_client_id [], same_iff [] [])

  -- Where login is configured, a callback that brings a code and a state uses the state up, whatever
  -- it is answered: a later callback with that state, whatever its code, is refused with 400 and
  -- logs nobody in. A callback that brings no code is refused with 400 and changes nothing, so that
  -- its state stays as it was.
  pub callback_uses_state_up :
      (code code' state : Text) (random random' : Option (List ℕ)) (now later : ℕ)
      (s : Server F P R H)
      → cfg.github_client_id ≢ []
      → code ≢ []
      → state ≢ []
      → let s' = (handle_github_callback sv cfg code state random now s).0 in
        let (s'', r) = handle_github_callback sv cfg code' state random' later s' in
        ((r.status ≡ 400) × (s''.users ≡ s'.users) × (is_live state later s''.auth_states ≡ false))
        × let (t, refusal) = handle_github_callback sv cfg [] state random now s in
          (refusal.status ≡ 400) × (t ≡ s)
  callback_uses_state_up code code' state random random' now later s configured coded stated =
      let s' = (handle_github_callback sv cfg code state random now s).0 in
      (
        dead_state_refused code' state random' later s' configured (
            ap (is_live state later)
              (callback_consumes code state random now s configured coded stated)
            ∙ consumed_dead state now later s.auth_states),
        coded_only state random now s configured,
      )
