-- ===== src/Coordinator/ResultWatcher.antt =====
-- coordinator/resultwatcher.go: the messages of the results stream go to the store, and a test that
-- finishes by one goes to the history and to its owner's webhook. Reading the stream is a service;
-- the goroutine of the notification is a list of the calls it makes.
pub mod Routing
use sentry_load.Prelude.{
  ℕ, Bool, true, false, List, [], ◌∷◌, ◌++◌, Option, none, some, Text, text_eq, bytes, ◌==◌,
  if◌then◌else◌, ℤ, pos, Map, lookup, lookup_or, Float,
}
use sentry_load.Strconv.{atoi_value}
use sentry_load.Coordinator.UserStore.{UserStore, get_by_id}
use sentry_load.Coordinator.History.{HistoryStore}
use sentry_load.Coordinator.Snapshot.{TestSnapshot}
use sentry_load.Coordinator.TestStore.{
  ResultUpdate, TestStore, update, mark_abandoned, snapshot_unscoped,
}

-- strField and intField of coordinator/helpers.go, on a field that may be missing
unfoldable pub str_field : Text → Map Text Text → Text
str_field key values = lookup_or [] key values

unfoldable pub int_field : Text → Map Text Text → ℤ
int_field key values = elim (lookup key values) [ none ↦ pos 0 | some s ↦ atoi_value s ]

-- A call of the webhook notifier: the URL, the finished test and the link to its report.
pub record Notice (F : Type 0) : Type 0 where
  pub webhook_url : Text
  pub snap : TestSnapshot F
  pub report_url : Text

module _ {F : Type 0} ⦃fl : Float F⦄ where
  unfoldable pub float_field : Text → Map Text Text → F
  float_field key values = elim (lookup key values) [ none ↦ fl.of_nat 0 | some s ↦ fl.parse s ]

  unfoldable pub result_update : Map Text Text → ResultUpdate F
  unfolding str_field int_field float_field
  result_update values = record {
    requests = int_field (bytes "requests") values;
    errors = int_field (bytes "errors") values;
    rps = float_field (bytes "rps") values;
    p50 = str_field (bytes "p50_ms") values;
    p95 = str_field (bytes "p95_ms") values;
    p99 = str_field (bytes "p99_ms") values;
    done = str_field (bytes "done") values == bytes "true";
    circuit_broken = str_field (bytes "circuit_broken") values == bytes "true";
    latency_sketch = str_field (bytes "latency_sketch") values;
  }

  -- The store's part of one message: the test that it names, and whether it finished that test.
  unfoldable pub route : Map Text Text → TestStore F → TestStore F × Bool
  unfolding str_field result_update
  route values s =
      let test_id = str_field (bytes "test_id") values in
      let job_id = str_field (bytes "job_id") values in
      if str_field (bytes "abandoned") values == bytes "true"
      then mark_abandoned test_id job_id s
      else update test_id job_id (result_update values) s

module _ {F H : Type 0} (history : Option (HistoryStore F H)) (dashboard_url : Text) where
  -- The notice that goes out, and the state of the database after the share token was ensured.
  unfoldable pub notify_finished_test : UserStore → TestSnapshot F → Text → H → H × List (Notice F)
  notify_finished_test users snap owner_id past = elim (get_by_id owner_id users) [
    | none ↦ (past, [])
    | some user ↦ if user.webhook_url == [] then (past, []) else elim history [
      | none ↦ (past, record { webhook_url = user.webhook_url; snap = snap; report_url = [] } ∷ [])
      | some db ↦
          let (past', result) = db.ensure_share_token snap.test_id owner_id past in
          let report_url : Text = elim result [
            | none ↦ []
            | some none ↦ []
            | some (some token) ↦ dashboard_url ++ bytes "/reports/" ++ token
          ] in
          (
            past',
            record { webhook_url = user.webhook_url; snap = snap; report_url = report_url } ∷ [],
          )
    ]
  ]

  -- Whatever the write to the history answers, the notification follows.
  unfoldable pub on_test_finished :
      ⦃fl : Float F⦄ → UserStore → Text → TestStore F → H → H × List (Notice F)
  unfolding notify_finished_test
  on_test_finished users test_id s past =
      let (snap, owner_id) = snapshot_unscoped test_id s in
      elim snap [
        | none ↦ (past, [])
        | some view ↦ elim history [
          | none ↦ notify_finished_test users view owner_id past
          | some db ↦ notify_finished_test users view owner_id (db.save view owner_id past).0
        ]
      ]

  -- One message of the loop of watchResults.
  unfoldable pub handle_message :
      ⦃fl : Float F⦄
      → UserStore
      → Map Text Text
      → TestStore F
      → H
      → TestStore F × H × List (Notice F)
  unfolding route on_test_finished str_field
  handle_message users values s past =
      let (s', finished) = route values s in
      if finished
      then (let (past', notices) =
            on_test_finished users (str_field (bytes "test_id") values) s' past in
          (s', past', notices))
      else (s', past, [])

  -- The loop over the messages, in the order of the stream.
  unfoldable pub handle_messages :
      ⦃fl : Float F⦄
      → UserStore
      → List (Map Text Text)
      → TestStore F
      → H
      → TestStore F × H × List (Notice F)
  unfolding handle_message
  handle_messages users [] s past = (s, past, [])
  handle_messages users (values ∷ rest) s past =
      let (s', past', notices) = handle_message users values s past in
      let (s'', past'', more) = handle_messages users rest s' past' in
      (s'', past'', notices ++ more)
