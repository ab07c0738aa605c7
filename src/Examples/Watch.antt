-- ===== src/Examples/Watch.antt =====
-- The results stream of a test with one sub-job, and what its owner is shown.
use sentry_load.Prelude.{
  ℕ, ◌≡◌, refl, ◌⊎◌, inl, inr, Bool, true, List, [], ◌∷◌, Option, none, some, map, Text, bytes,
  text_eq, All, Map, lookup,
}
use sentry_load.Coordinator.History.{HistoryStore}
use sentry_load.Coordinator.Snapshot.{TestState, no_result, build_snapshot}
use sentry_load.Coordinator.TestStore.{TestStore, new_test_store, register}
use sentry_load.Coordinator.TestStore.Runs.{receive_all, finishes}
use sentry_load.Coordinator.ResultWatcher.{Notice, str_field, handle_messages}
use sentry_load.Coordinator.ResultWatcher.Routing.{
  message_of, webhook_of, repeat, handle_messages_store, notices_per_finish,
}
use sentry_load.Coordinator.Api.{Server, test_response}
use sentry_load.Coordinator.Reports.{handle_get_test}
use sentry_load.Coordinator.Reports.Scope.{get_test_scoped}
use sentry_load.Examples.World.{whole, Queue, services, ann, users, server}

abbrev tests : TestStore ℕ
tests = register (bytes "t") ann.id (bytes "a.io") (bytes "j" ∷ []) 5 new_test_store

abbrev tick : Map Text Text
tick =
    (bytes "test_id", bytes "t") ∷ (bytes "job_id", bytes "j") ∷ (bytes "requests", bytes "3") ∷ []

abbrev last_tick : Map Text Text
last_tick = (bytes "done", bytes "true") ∷ tick

abbrev stream : List (Map Text Text)
stream = tick ∷ last_tick ∷ []

abbrev no_past : Option (HistoryStore ℕ Unit)
no_past = none

handle_messages_store_example :
    (handle_messages no_past [] users stream tests tt).0 ≡ receive_all (map message_of stream) tests
handle_messages_store_example = handle_messages_store no_past [] users stream tests tt

stream_of_t : All (λ values. str_field (bytes "test_id") values ≡ bytes "t") stream
unfolding bytes str_field sentry_load.Prelude.lookup_or lookup sentry_load.Prelude.same
stream_of_t = (refl, (refl, tt))

ann_listens : webhook_of users (bytes "t") tests ≡ some (bytes "a.io")
unfolding webhook_of sentry_load.Coordinator.TestStore.Finish.owner_of lookup register
    sentry_load.Prelude.insert new_test_store sentry_load.Prelude.same bytes
    sentry_load.Coordinator.UserStore.get_by_id sentry_load.Coordinator.UserStore.add_user
ann_listens = refl

one_finish : finishes (bytes "t") (map message_of stream) tests ≡ 1
unfolding finishes sentry_load.Prelude.same message_of str_field sentry_load.Prelude.lookup_or
    lookup bytes sentry_load.Coordinator.TestStore.Runs.receive register sentry_load.Prelude.insert
    new_test_store sentry_load.Coordinator.ResultWatcher.result_update
    sentry_load.Coordinator.TestStore.notify_subscribers
one_finish = refl

notices_per_finish_example :
    map (λ (n : Notice ℕ). n.webhook_url) (handle_messages no_past [] users stream tests tt).2
    ≡ repeat (bytes "a.io") (finishes (bytes "t") (map message_of stream) tests)
notices_per_finish_example =
    notices_per_finish no_past [] users (bytes "t") (bytes "a.io") stream tests tt stream_of_t
      ann_listens

abbrev running : Server ℕ Unit Queue Unit
running = record server { tests = tests }

abbrev state : TestState ℕ
state = record {
  test_id = bytes "t";
  owner_id = ann.id;
  url = bytes "a.io";
  created_at = 5;
  sub_jobs = (bytes "j", no_result) ∷ [];
}

shown :
    (handle_get_test services (bytes "t") ann running).body ≡ test_response (build_snapshot state)
unfolding handle_get_test sentry_load.Coordinator.TestStore.snapshot lookup register
    sentry_load.Prelude.insert new_test_store sentry_load.Prelude.same bytes
shown = refl

get_test_scoped_example :
    ((t : TestState ℕ) × (lookup (bytes "t") running.tests.tests ≡ some t)
      × (t.owner_id ≡ ann.id)
      × (build_snapshot state ≡ build_snapshot t))
    ⊎ ((history : HistoryStore ℕ Unit) × (services.history ≡ some history)
        × (history.get (bytes "t") ann.id running.past ≡ some (some (build_snapshot state))))
get_test_scoped_example =
    get_test_scoped services (bytes "t") ann running (build_snapshot state) shown
