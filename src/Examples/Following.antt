-- ===== src/Examples/Following.antt =====
-- A WebSocket that follows a test of one sub-job.
use sentry_load.Prelude.{
  ℕ, ◌<◌, ◌≡◌, refl, Bool, true, false, List, [], ◌∷◌, ◌++◌, Option, none, some, arith, length,
  Text, text_eq, nat_eq, sym, bytes, pos, lookup, lookup_or,
}
use sentry_load.Coordinator.Snapshot.{TestSnapshot}
use sentry_load.Coordinator.TestStore.{
  ResultUpdate, Channel, TestStore, channel_capacity, new_test_store, register, snapshot,
}
use sentry_load.Coordinator.TestStore.Runs.{Message, reports, receive, receive_all}
use sentry_load.Coordinator.Live.{Live, start_live, live_rounds}
use sentry_load.Coordinator.Live.Ends.{
  contains, has_done, up_to_done, EndsWith, live_ends_with_test,
}
use sentry_load.Examples.World.{whole}

abbrev owner : Text
owner = bytes "gh-7"

abbrev update_with : Bool → ResultUpdate ℕ
update_with done = record {
  requests = pos 3;
  errors = pos 0;
  rps = 1;
  p50 = [];
  p95 = [];
  p99 = [];
  done = done;
  circuit_broken = false;
  latency_sketch = [];
}

abbrev progress : Message ℕ
progress = reports (bytes "t") (bytes "a") (update_with false)

abbrev last : Message ℕ
last = reports (bytes "t") (bytes "a") (update_with true)

abbrev begun : TestStore ℕ × Live ℕ
begun =
    start_live true (bytes "t") owner
      (register (bytes "t") owner (bytes "a.io") (bytes "a" ∷ []) 5 new_test_store)

abbrev followed : Live ℕ
followed = begun.1

abbrev no_snapshots : Channel ℕ
no_snapshots = record { buffer = []; closed = false }

finishes : (receive last begun.0).1 ≡ true
unfolding receive lookup start_live snapshot sentry_load.Coordinator.TestStore.subscribe register
    sentry_load.Prelude.insert new_test_store sentry_load.Prelude.same bytes
    sentry_load.Coordinator.Snapshot.build_snapshot
finishes = refl

follows : followed.test_id ≡ bytes "t"
unfolding bytes start_live snapshot lookup sentry_load.Coordinator.TestStore.subscribe register
    sentry_load.Prelude.insert new_test_store sentry_load.Prelude.same
    sentry_load.Coordinator.Snapshot.build_snapshot
follows = refl

runs : followed.running ≡ true
unfolding start_live snapshot lookup sentry_load.Coordinator.TestStore.subscribe register
    sentry_load.Prelude.insert new_test_store sentry_load.Prelude.same bytes
    sentry_load.Coordinator.Snapshot.build_snapshot
runs = refl

subscribed : contains followed.channel (lookup_or [] followed.test_id begun.0.subscribers) ≡ true
unfolding contains lookup_or lookup start_live snapshot sentry_load.Coordinator.TestStore.subscribe
    register sentry_load.Prelude.insert new_test_store sentry_load.Prelude.same bytes
    sentry_load.Coordinator.Snapshot.build_snapshot
subscribed = refl

channel_is_empty : lookup followed.channel begun.0.channels ≡ some no_snapshots
unfolding lookup start_live snapshot sentry_load.Coordinator.TestStore.subscribe register
    sentry_load.Prelude.insert new_test_store sentry_load.Prelude.same bytes
    sentry_load.Coordinator.Snapshot.build_snapshot
channel_is_empty = refl

live_ends_with_test_example :
    (waiting : Channel ℕ) × (lookup followed.channel (receive last begun.0).0.channels
      ≡ some waiting)
    × (has_done waiting.buffer ≡ true)
    × EndsWith
        (followed.sent ++ up_to_done waiting.buffer)
        (live_rounds channel_capacity (receive last begun.0).0 followed)
live_ends_with_test_example =
    live_ends_with_test last begun.0 followed no_snapshots finishes (sym follows) runs subscribed
      channel_is_empty (omega arith)

-- Four reports that nobody reads fill the channel; the one that finishes the test is dropped, and
-- what waits is not done.
abbrev full : TestStore ℕ
full = receive_all (progress ∷ progress ∷ progress ∷ progress ∷ last ∷ []) begun.0

abbrev read_all : TestStore ℕ × Live ℕ
read_all = live_rounds 5 full followed

never_told : read_all.1.running ≡ true
unfolding live_rounds start_live snapshot lookup sentry_load.Coordinator.TestStore.subscribe
    register sentry_load.Prelude.insert new_test_store sentry_load.Prelude.same bytes
    sentry_load.Coordinator.Snapshot.build_snapshot receive_all receive
    sentry_load.Coordinator.TestStore.notify_subscribers lookup_or
never_told = refl
