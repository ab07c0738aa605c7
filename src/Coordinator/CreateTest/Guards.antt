-- ===== src/Coordinator/CreateTest/Guards.antt =====
-- On the guards of handleCreateTest (coordinator/handlers.go).
use sentry_load.Prelude.{
  ℕ, ◌≤◌, ◌<◌, ◌≡◌, sym, ap, subst, ◌⊎◌, inl, inr, true, false, Option, some, arith, Text, text_eq,
  bytes, Option-cases, same_iff, ℤ, pos, negsuc, pos_part,
}
use sentry_load.Coordinator.Persister.{User}
use sentry_load.Coordinator.TestStore.{cooldown_remaining}
use sentry_load.Coordinator.Api.{Services, Config, Server, Response, pass, stop}
use sentry_load.Coordinator.CreateTest.{
  CreateTestRequest, Plan, out_of_range, clamp_fanout, is_ramp_pattern, target_host, may_target,
  check_create_test, too_fast,
}

-- The ranges that every test is held to.
pub record IsBounded (plan : Plan) : Type 0 where
  pub vus_pos : 0 < plan.vus
  pub vus_capped : plan.vus ≤ 200
  pub duration_pos : 0 < plan.duration_seconds
  pub duration_capped : plan.duration_seconds ≤ 300
  pub fanout_pos : 0 < plan.fanout
  pub fanout_capped : plan.fanout ≤ 5
  pub fanout_le_vus : plan.fanout ≤ plan.vus
  pub known_pattern : (plan.ramp_pattern ≡ bytes "steady") ⊎ (plan.ramp_pattern ≡ bytes "ramp")

range_pos :
    (n : ℤ) (limit : ℕ) → out_of_range n limit ≡ false → (0 < pos_part n) × (pos_part n ≤ limit)
unfolding out_of_range
range_pos (pos n) limit h = ground arith
range_pos (negsuc n) limit h = absurd (ground arith)

pub clamp_fanout_bounds :
    (worker_count : ℤ) (vus : ℕ)
    → 0 < vus
    → (0 < clamp_fanout worker_count vus)
      × (clamp_fanout worker_count vus ≤ 5)
      × (clamp_fanout worker_count vus ≤ vus)
unfolding clamp_fanout
clamp_fanout_bounds worker_count vus h = ground arith

ramp_known : (t : Text) → is_ramp_pattern t ≡ true → (t ≡ bytes "steady") ⊎ (t ≡ bytes "ramp")
unfolding is_ramp_pattern
ramp_known t h = ground (arith, same_iff t (bytes "steady"), same_iff t (bytes "ramp"))

abbrev pub plan_of : CreateTestRequest → Plan
plan_of req = record {
  url = req.url;
  vus = pos_part req.vus;
  duration_seconds = pos_part req.duration_seconds;
  ramp_pattern = req.ramp_pattern;
  fanout = clamp_fanout req.worker_count (pos_part req.vus);
}

module _ {F P R H : Type 0} (sv : Services F P R H) (cfg : Config) where
  guards_passed :
      (user : User) (now : ℕ) (req : CreateTestRequest) (s : Server F P R H) (plan : Plan)
      → check_create_test sv cfg user now (some req) s ≡ pass plan
      → (cooldown_remaining user.id cfg.test_cooldown now s.tests ≡ 0)
        × (host : Text) × (target_host sv cfg req.url ≡ some host)
        × (may_target sv cfg host user s ≡ true)
        × (out_of_range req.vus 200 ≡ false)
        × (out_of_range req.duration_seconds 300 ≡ false)
        × (is_ramp_pattern req.ramp_pattern ≡ true)
        × (plan_of req ≡ plan)
  unfolding check_create_test
  guards_passed user now req s plan h = elim (Option-cases (target_host sv cfg req.url)) [
    | inl e ↦ absurd (ground arith)
    | inr (host, e) ↦ (
      ground arith,
      host,
      e,
      ground arith,
      ground arith,
      ground arith,
      ground arith,
      ground arith,
    )
  ]

  -- A request that passes the guards comes from a user whose cooldown is over, targets a host that
  -- is allowlisted or that this user has verified, and asks for a test within the caps; the plan
  -- keeps its URL and its pattern.
  pub check_create_test_sound :
      (user : User) (now : ℕ) (req : CreateTestRequest) (s : Server F P R H) (plan : Plan)
      → check_create_test sv cfg user now (some req) s ≡ pass plan
      → (cooldown_remaining user.id cfg.test_cooldown now s.tests ≡ 0)
        × ((host : Text) × (target_host sv cfg req.url ≡ some host)
            × (may_target sv cfg host user s ≡ true))
        × IsBounded plan
        × (plan.url ≡ req.url)
        × (plan.ramp_pattern ≡ req.ramp_pattern)
  check_create_test_sound user now req s plan h =
      let (unhurried, host, e, allowed, vus, duration, ramp, made) =
        guards_passed user now req s plan h in
      let v = range_pos req.vus 200 vus in
      let d = range_pos req.duration_seconds 300 duration in
      let f = clamp_fanout_bounds req.worker_count (pos_part req.vus) v.0 in
      (
        unhurried,
        (host, e, allowed),
        subst IsBounded made (record {
          vus_pos = v.0;
          vus_capped = v.1;
          duration_pos = d.0;
          duration_capped = d.1;
          fanout_pos = f.0;
          fanout_capped = f.1;
          fanout_le_vus = f.2;
          known_pattern = ramp_known req.ramp_pattern ramp;
        }),
        sym (ap (λ (p : Plan). p.url) made),
        sym (ap (λ (p : Plan). p.ramp_pattern) made),
      )

  -- The guards end a request with an error response, never with success.
  pub check_create_test_stop :
      (user : User) (now : ℕ) (body : Option CreateTestRequest) (s : Server F P R H)
      (r : Response F)
      → check_create_test sv cfg user now body s ≡ stop r
      → 400 ≤ r.status
  unfolding check_create_test too_fast
  check_create_test_stop user now body s r h = ground arith
