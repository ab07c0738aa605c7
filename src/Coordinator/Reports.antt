-- ===== src/Coordinator/Reports.antt =====
-- The handlers of coordinator/handlers.go on tests that were submitted: their merged state, the
-- history, sharing, labels, deletion, and the settings of the webhook.
pub mod Scope
use sentry_load.Prelude.{
  ℕ, Bool, true, false, not, ◌&&◌, List, [], ◌++◌, Option, none, some, Text, text_eq, bytes, ◌==◌,
  if◌then◌else◌, Float,
}
use sentry_load.Strings.{trim_space}
use sentry_load.Coordinator.Persister.{User}
use sentry_load.Coordinator.DomainStore.{is_valid_webhook_url}
use sentry_load.Coordinator.UserStore.{set_webhook_url}
use sentry_load.Coordinator.History.{HistoryStore}
use sentry_load.Coordinator.TestStore.{snapshot}
use sentry_load.Coordinator.Api.{
  Services, Config, Server, Body, Response, write_json, write_error, test_response, tests_response,
  share_test_response, set_label_response, webhook_response, no_body,
}

abbrev pub test_history_list_limit : ℕ
test_history_list_limit = 50

abbrev pub trend_list_limit : ℕ
trend_list_limit = 20

no_history : {F : Type 0} → Response F
no_history =
    write_error 501 (bytes "test history is not available (Postgres not configured on this server)")

no_sharing : {F : Type 0} → Response F
no_sharing =
    write_error 501 (bytes "sharing is not available (Postgres not configured on this server)")

module _ {F P R H : Type 0} ⦃fl : Float F⦄ (sv : Services F P R H) where
  -- The store in memory answers first, then the database if there is one.
  unfoldable pub handle_get_test : Text → User → Server F P R H → Response F
  handle_get_test id user s = elim (snapshot id user.id s.tests) [
    | some snap ↦ write_json 200 (test_response snap)
    | none ↦ elim sv.history [
      | none ↦ write_error 404 (bytes "unknown test id")
      | some history ↦ elim (history.get id user.id s.past) [
        | none ↦ write_error 500 (bytes "failed to load test")
        | some none ↦ write_error 404 (bytes "unknown test id")
        | some (some snap) ↦ write_json 200 (test_response snap)
      ]
    ]
  ]

module _ {F P R H : Type 0} (sv : Services F P R H) where
  unfoldable pub handle_list_tests : User → Server F P R H → Response F
  unfolding no_history
  handle_list_tests user s = elim sv.history [
    | none ↦ no_history
    | some history ↦ elim (history.list_tests user.id test_history_list_limit s.past) [
      | none ↦ write_error 500 (bytes "failed to load test history")
      | some snaps ↦ write_json 200 (tests_response snaps)
    ]
  ]

  unfoldable pub handle_test_trend : Text → User → Server F P R H → Response F
  unfolding no_history
  handle_test_trend url user s = elim sv.history [
    | none ↦ no_history
    | some history ↦
        if url == []
        then write_error 400 (bytes "url query parameter is required")
        else elim (history.list_by_url user.id url trend_list_limit s.past) [
          | none ↦ write_error 500 (bytes "failed to load trend")
          | some snaps ↦ write_json 200 (tests_response snaps)
        ]
  ]

  unfoldable pub handle_share_test :
      Config → Text → User → Server F P R H → Server F P R H × Response F
  unfolding no_sharing
  handle_share_test cfg id user s = elim sv.history [
    | none ↦ (s, no_sharing)
    | some history ↦
        let (past', result) = history.ensure_share_token id user.id s.past in
        let s' = record s { past = past' } in
        elim result [
          | none ↦ (s', write_error 500 (bytes "failed to create share link"))
          | some none ↦
              (s', write_error 404 (bytes "unknown test id (only finished tests can be shared)"))
          | some (some token) ↦ (
            s',
            write_json 200
                (share_test_response token (cfg.dashboard_url ++ bytes "/reports/" ++ token)),
          )
        ]
  ]

  -- `body` is the field `label` of the request.
  unfoldable pub handle_set_test_label :
      Text → User → Option Text → Server F P R H → Server F P R H × Response F
  unfolding no_history
  handle_set_test_label id user body s = elim sv.history [
    | none ↦ (s, no_history)
    | some history ↦ elim body [
      | none ↦ (s, write_error 400 (bytes "invalid JSON body"))
      | some field ↦
          let label = trim_space field in
          let (past', result) = history.set_label id user.id label s.past in
          let s' = record s { past = past' } in
          elim result [
            | none ↦ (s', write_error 500 (bytes "failed to set label"))
            | some false ↦ (s', write_error 404 (bytes "unknown test id"))
            | some true ↦ (s', write_json 200 (set_label_response label))
          ]
    ]
  ]

  unfoldable pub handle_delete_test : Text → User → Server F P R H → Server F P R H × Response F
  unfolding no_history
  handle_delete_test id user s = elim sv.history [
    | none ↦ (s, no_history)
    | some history ↦
        let (past', result) = history.delete_test id user.id s.past in
        let s' = record s { past = past' } in
        elim result [
          | none ↦ (s', write_error 500 (bytes "failed to delete test"))
          | some false ↦ (s', write_error 404 (bytes "unknown test id"))
          | some true ↦ (s', write_json 204 no_body)
        ]
  ]

  unfoldable pub handle_public_report : Text → Server F P R H → Response F
  unfolding no_sharing
  handle_public_report token s = elim sv.history [
    | none ↦ no_sharing
    | some history ↦ elim (history.get_by_share_token token s.past) [
      | none ↦ write_error 500 (bytes "failed to load report")
      | some none ↦ write_error 404 (bytes "unknown or unshared report")
      | some (some snap) ↦ write_json 200 (test_response snap)
    ]
  ]

  -- `body` is the field `webhook_url` of the request.
  unfoldable pub handle_set_webhook :
      User → Option Text → Server F P R H → Server F P R H × Response F
  handle_set_webhook user none s = (s, write_error 400 (bytes "invalid JSON body"))
  handle_set_webhook user (some field) s =
      let webhook_url = trim_space field in
      let (db', users', exists, saved) =
        set_webhook_url sv.persister user.id webhook_url s.db s.users in
      let s' = record s { db = db'; users = users' } in
      if not (webhook_url == []) && not (is_valid_webhook_url sv.parse_ip sv.parse_url webhook_url)
      then (
        s,
        write_error 400
            (bytes "webhook_url must be an https:// URL to a public host, or empty to clear it"),
      )
      else if saved
      then (s', write_json 200 (webhook_response webhook_url))
      else (s', write_error 500 (bytes "failed to save webhook"))

unfoldable pub handle_get_webhook : {F : Type 0} → User → Response F
handle_get_webhook user = write_json 200 (webhook_response user.webhook_url)
