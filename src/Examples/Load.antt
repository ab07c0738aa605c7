-- ===== src/Examples/Load.antt =====
-- A submission from its guards to the jobs stream.
use sentry_load.Prelude.{
  ℕ, suc, ◌+◌, ◌≤◌, ◌<◌, ◌≡◌, ◌≢◌, refl, ◌⊎◌, inl, inr, Bool, true, false, List, [], ◌∷◌, Option,
  none, some, arith, Text, bytes, length, sum, All, ◌/◌, nat_eq, text_eq, ltb, lookup, same, pos,
}
use sentry_load.Coordinator.Jobs.{split_vus, build_sub_jobs}
use sentry_load.Coordinator.Jobs.Split.{split_vus_exact}
use sentry_load.Coordinator.TestStore.{cooldown_remaining}
use sentry_load.Coordinator.Api.{pass}
use sentry_load.Coordinator.CreateTest.{
  Plan, check_create_test, handle_create_test, target_host, may_target,
}
use sentry_load.Coordinator.CreateTest.Guards.{IsBounded, check_create_test_sound}
use sentry_load.Coordinator.CreateTest.Submit.{Accepted, create_test-Accepted, create_test_refused}
use sentry_load.Wire.Jobs.{IsAccepted, published_jobs-IsAccepted}
use sentry_load.Examples.World.{whole, redis_appends, services, config, ann, bob, request, server}

-- Seven virtual users on three workers.
shares : split_vus 7 3 ≡ 3 ∷ 2 ∷ 2 ∷ []
unfolding split_vus
shares = refl

split_vus_exact_example :
    (sum (split_vus 7 3) ≡ 7)
    × (length (split_vus 7 3) ≡ 3)
    × All (λ v. (7 / 3 ≤ v) × (v ≤ 7 / 3 + 1)) (split_vus 7 3)
    × All (λ v. 0 < v) (split_vus 7 3)
split_vus_exact_example = split_vus_exact 7 3 (omega arith) (omega arith)

abbrev plan : Plan
plan = record {
  url = bytes "a.io";
  vus = 7;
  duration_seconds = 30;
  ramp_pattern = bytes "steady";
  fanout = 3;
}

passes : check_create_test services config ann 100 (some request) server ≡ pass plan
unfolding check_create_test cooldown_remaining lookup
    sentry_load.Coordinator.TestStore.new_test_store same bytes may_target
    sentry_load.Prelude.lookup_or sentry_load.Coordinator.CreateTest.out_of_range
    sentry_load.Coordinator.CreateTest.is_ramp_pattern
    sentry_load.Coordinator.CreateTest.clamp_fanout
passes = refl

accepted : (handle_create_test services config ann 100 (some request) server).1.status ≡ 202
unfolding handle_create_test cooldown_remaining lookup
    sentry_load.Coordinator.TestStore.new_test_store same bytes may_target
    sentry_load.Prelude.lookup_or sentry_load.Coordinator.CreateTest.out_of_range
    sentry_load.Coordinator.CreateTest.is_ramp_pattern
    sentry_load.Coordinator.Enqueue.count_live_workers
    sentry_load.Coordinator.CreateTest.clamp_fanout sentry_load.Coordinator.Enqueue.enqueue
    build_sub_jobs split_vus
accepted = refl

create_test-Accepted_example :
    Accepted services config redis_appends ann 100
      (some request)
      server
      (handle_create_test services config ann 100 (some request) server).0
create_test-Accepted_example =
    create_test-Accepted services config redis_appends ann 100 (some request) server accepted

create_test_refused_example :
    let (s', r) = handle_create_test services config bob 100 none server in
    (s'.users ≡ server.users)
    × (s'.domains ≡ server.domains)
    × ((r.status ≡ 202) ⊎ (s'.tests ≡ server.tests))
create_test_refused_example = create_test_refused services config bob 100 none server

check_create_test_sound_example :
    (cooldown_remaining ann.id config.test_cooldown 100 server.tests ≡ 0)
    × ((host : Text) × (target_host services config request.url ≡ some host)
        × (may_target services config host ann server ≡ true))
    × IsBounded plan
    × (plan.url ≡ request.url)
    × (plan.ramp_pattern ≡ request.ramp_pattern)
check_create_test_sound_example =
    check_create_test_sound services config ann 100 request server plan passes

plan-IsBounded : IsBounded plan
plan-IsBounded = record {
  vus_pos = omega arith;
  vus_capped = omega arith;
  duration_pos = omega arith;
  duration_capped = omega arith;
  fanout_pos = omega arith;
  fanout_capped = omega arith;
  fanout_le_vus = omega arith;
  known_pattern = inl refl;
}

published_jobs-IsAccepted_example :
    All (IsAccepted (bytes "t") plan) (build_sub_jobs services.new_id 1 plan.vus 3)
published_jobs-IsAccepted_example =
    published_jobs-IsAccepted services.new_id 1 (bytes "t") plan 3 plan-IsBounded (omega arith)
      (omega arith)
