-- ===== src/Examples/Runs.antt =====
-- A test of two sub-jobs from its registration on.
use sentry_load.Prelude.{
  ℕ, ◌+◌, ◌-◌, ◌≤◌, ◌<◌, ◌≡◌, ◌≢◌, refl, ◌⊎◌, inl, inr, Bool, true, false, not, ◌&&◌, ◌||◌, List,
  [], ◌∷◌, Option, none, some, arith, Text, bytes, text_eq, same, same_iff, false≢true, ◌==◌,
  if◌then◌else◌, All, pos, lookup,
}
use mathlib.Core.Option
use sentry_load.Coordinator.Snapshot.{SubJobState, no_result}
use sentry_load.Coordinator.TestStore.{
  ResultUpdate, TestStore, new_test_store, subscribe, unsubscribe, register, update,
  cooldown_remaining, apply_update,
}
use sentry_load.Coordinator.TestStore.Finish.{known, is_finished, owner_of}
use sentry_load.Coordinator.TestStore.Runs.{
  Message, reports, abandons, receive, receive_all, about, is_final, new_state, finishes,
  receive_effect, receive_finishes, finished_stays, reopened_finishes_again,
}
use sentry_load.Coordinator.TestStore.Access.{listed, register_effect}
use sentry_load.Examples.World.{whole}

abbrev t : Text
t = bytes "t"

abbrev a : Text
a = bytes "a"

abbrev b : Text
b = bytes "b"

abbrev result : ResultUpdate ℕ
result = record {
  requests = pos 3;
  errors = pos 0;
  rps = 1;
  p50 = [];
  p95 = [];
  p99 = [];
  done = true;
  circuit_broken = false;
  latency_sketch = [];
}

abbrev partial : ResultUpdate ℕ
partial = record result { done = false }

abbrev begun : TestStore ℕ
begun = register t (bytes "gh-7") (bytes "a.io") (a ∷ b ∷ []) 5 new_test_store

abbrev ended : TestStore ℕ
ended = receive_all (reports t a result ∷ abandons t b ∷ []) begun

once : finishes t (reports t a result ∷ abandons t b ∷ abandons t b ∷ []) begun ≡ 1
unfolding finishes sentry_load.Prelude.same bytes receive lookup register sentry_load.Prelude.insert
    new_test_store sentry_load.Coordinator.TestStore.notify_subscribers
once = refl

is-ended : is_finished t ended ≡ true
unfolding is_finished lookup receive_all receive register sentry_load.Prelude.insert new_test_store
    sentry_load.Prelude.same bytes sentry_load.Coordinator.TestStore.notify_subscribers
is-ended = refl

receive_effect_example :
    ((known t b begun ≡ none) × (receive (abandons t b) begun ≡ (begun, false)))
    ⊎ ((sj : SubJobState ℕ) × (known t b begun ≡ some sj)
        × ((t' j : Text)
            → known t' j (receive (abandons t b) begun).0 ≡ (
                if t == t' && b == j then some (new_state (abandons t b) sj) else known t' j begun))
        × ((t' : Text) → owner_of t' (receive (abandons t b) begun).0 ≡ owner_of t' begun))
receive_effect_example = receive_effect (abandons t b) begun

receive_finishes_example :
    ((receive (abandons t b) begun).1
      ≡ (not (is_finished t begun) && is_finished t (receive (abandons t b) begun).0))
    × ((t' : Text)
        → is_finished t' (receive (abandons t b) begun).0 ≡ (
            if t == t'
            then is_finished t' (receive (abandons t b) begun).0
            else is_finished t' begun))
receive_finishes_example = receive_finishes (abandons t b) begun

late-IsFinal :
    All
      (λ (m : Message ℕ). (not (about m == t) || is_final m) ≡ true)
      (abandons t b ∷ reports t a result ∷ [])
unfolding sentry_load.Prelude.same bytes
late-IsFinal = (refl, (refl, tt))

finished_stays_example :
    (finishes t (abandons t b ∷ reports t a result ∷ []) ended ≡ 0)
    × (is_finished t (receive_all (abandons t b ∷ reports t a result ∷ []) ended) ≡ true)
finished_stays_example =
    finished_stays t (abandons t b ∷ reports t a result ∷ []) ended late-IsFinal is-ended

abbrev last_of_b : SubJobState ℕ
last_of_b = record no_result { done = true; abandoned = true }

knows-b : known t b ended ≡ some last_of_b
unfolding known lookup receive_all receive register sentry_load.Prelude.insert new_test_store
    sentry_load.Prelude.same bytes sentry_load.Coordinator.TestStore.notify_subscribers
knows-b = refl

reopened_finishes_again_example :
    (is_finished t (update t b partial ended).0 ≡ false)
    × ((update t b result (update t b partial ended).0).1 ≡ true)
reopened_finishes_again_example =
    reopened_finishes_again t b partial result ended last_of_b knows-b is-ended refl refl

register_effect_example :
    (owner_of t begun ≡ some (bytes "gh-7"))
    × ((j : Text) → known t j begun ≡ (if listed j (a ∷ b ∷ []) then some no_result else none))
    × (is_finished t begun ≡ false)
    × ((t' : Text)
        → lookup t' begun.tests
          ≡ (if t == t' then lookup t begun.tests else lookup t' (new_test_store {F = ℕ}).tests))
register_effect_example =
    register_effect t (bytes "gh-7") (bytes "a.io") a (b ∷ []) 5 new_test_store
