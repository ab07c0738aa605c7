-- ===== src/Coordinator/CreateTest.antt =====
-- handleCreateTest of coordinator/handlers.go: the guards in the order of the code, admission by
-- the live workers, the enqueueing and the registration.
pub mod Guards
pub mod Submit
use sentry_load.Prelude.{
  ℕ, suc, ◌+◌, ◌-◌, ◌/◌, ◌%◌, Bool, true, false, not, ◌&&◌, ◌||◌, List, [], ◌∷◌, ◌++◌, Option, none,
  some, Text, text_eq, bytes, nat_eq, ltb, leb, ◌==◌, if◌then◌else◌, ℤ, pos, negsuc, pos_part, Map,
  lookup_or, Float,
}
use sentry_load.Strconv.{format_nat}
use sentry_load.Coordinator.Jobs.{max_vus_per_test, max_duration_seconds, max_fanout}
use sentry_load.Coordinator.Persister.{User}
use sentry_load.Coordinator.DomainStore.{Url, is_verified}
use sentry_load.Coordinator.Enqueue.{Redis, count_live_workers, enqueue}
use sentry_load.Coordinator.TestStore.{cooldown_remaining, register}
use sentry_load.Coordinator.Api.{
  Services, Config, Metrics, Server, Response, error_response, write_json, write_error,
  create_test_response, Checked, pass, stop, ensure, ◌>>=◌, ◌>>◌,
}

pub record CreateTestRequest : Type 0 where
  pub url : Text
  pub vus : ℤ
  pub duration_seconds : ℤ
  pub ramp_pattern : Text
  pub worker_count : ℤ

-- What the guards leave of a request: counts in their ranges.
pub record Plan : Type 0 where
  pub url : Text
  pub vus : ℕ
  pub duration_seconds : ℕ
  pub ramp_pattern : Text
  pub fanout : ℕ

-- A duration in whole seconds, as %s prints it.
format_seconds : ℕ → Text
format_seconds n =
    if ltb n 60
    then format_nat n ++ bytes "s"
    else if ltb n 3600
    then format_nat (n / 60) ++ bytes "m" ++ format_nat (n % 60) ++ bytes "s"
    else format_nat (n / 3600)
      ++ bytes "h"
      ++ format_nat (n % 3600 / 60)
      ++ bytes "m"
      ++ format_nat (n % 60)
      ++ bytes "s"

-- remaining.Round(time.Second)
round_seconds : ℕ → ℕ
round_seconds ns = (ns + 500000000) / 1000000000

-- n <= 0 || n > limit
unfoldable pub out_of_range : ℤ → ℕ → Bool
out_of_range (pos n) limit = n == 0 || ltb limit n
out_of_range (negsuc n) limit = true

-- The clamps of worker_count.
unfoldable pub clamp_fanout : ℤ → ℕ → ℕ
clamp_fanout worker_count vus =
    let fanout = if pos_part worker_count == 0 then 1 else pos_part worker_count in
    let fanout' = if ltb max_fanout fanout then max_fanout else fanout in
    if ltb vus fanout' then vus else fanout'

unfoldable pub too_fast : {F : Type 0} → ℕ → Response F
unfolding format_seconds round_seconds
too_fast remaining = record {
  status = 429;
  body = error_response (
      bytes "submitting too fast; wait "
      ++ format_seconds (round_seconds remaining)
      ++ bytes " before your next test");
  retry_after = some (remaining / 1000000000 + 1);
}

unfoldable pub is_ramp_pattern : Text → Bool
is_ramp_pattern ramp_pattern = ramp_pattern == bytes "steady" || ramp_pattern == bytes "ramp"

is_http : Url → Bool
is_http u = not (u.hostname == []) && (u.scheme == bytes "http" || u.scheme == bytes "https")

clamp_warning : ℕ → ℕ → Text
clamp_warning fanout live =
    bytes "requested "
    ++ format_nat fanout
    ++ bytes " workers but only "
    ++ format_nat live
    ++ bytes " are currently available; running across "
    ++ format_nat live
    ++ bytes " instead"

module _ {F P R H : Type 0} where
  unfoldable pub set_live : ℕ → Server F P R H → Server F P R H
  set_live live s = record s { metrics = record s.metrics { live_workers = live } }

  count_no_capacity : Server F P R H → Server F P R H
  count_no_capacity s = record s {
    metrics = record s.metrics { no_capacity = suc s.metrics.no_capacity };
  }

  count_created : Bool → Server F P R H → Server F P R H
  count_created clamped s = record s {
    metrics =
        (if clamped
          then record s.metrics { clamped = suc s.metrics.clamped }
          else record s.metrics { accepted = suc s.metrics.accepted });
  }

module _ {F P R H : Type 0} (sv : Services F P R H) (cfg : Config) where
  -- The host that the URL names, if the URL is an absolute one of http or https.
  unfoldable pub target_host : Text → Option Text
  unfolding is_http
  target_host url = elim (sv.parse_url url) [
    | none ↦ none
    | some u ↦ if is_http u then some u.hostname else none
  ]

  -- s.allowlist[host] || s.domains.IsVerified(host, user.ID)
  unfoldable pub may_target : Text → User → Server F P R H → Bool
  may_target host user s = lookup_or false host cfg.allowlist || is_verified host user.id s.domains

  check_url : Text → Checked F Text
  unfolding target_host
  check_url url = elim (target_host url) [
    | none ↦ stop (write_error 400 (bytes "url must be a valid absolute http(s) URL"))
    | some host ↦ pass host
  ]

  decoded : Option CreateTestRequest → Checked F CreateTestRequest
  decoded none = stop (write_error 400 (bytes "invalid JSON body"))
  decoded (some req) = pass req

  -- The guards, from the cooldown to the ramp pattern.
  unfoldable pub check_create_test :
      User → ℕ → Option CreateTestRequest → Server F P R H → Checked F Plan
  unfolding check_url decoded
  check_create_test user now body s = do
    let remaining = cooldown_remaining user.id cfg.test_cooldown now s.tests
    ensure (remaining == 0) (too_fast remaining)
    req ← decoded body
    host ← check_url req.url
    ensure (may_target host user s) (
        write_error 403 (
          bytes "domain "
          ++ sv.quote host
          ++ bytes " is not verified; POST /domains to start verification"))
    ensure (not (out_of_range req.vus max_vus_per_test))
        (write_error 400 (bytes "vus must be between 1 and " ++ format_nat max_vus_per_test))
    ensure (not (out_of_range req.duration_seconds max_duration_seconds)) (
        write_error 400
          (bytes "duration_seconds must be between 1 and " ++ format_nat max_duration_seconds))
    ensure (is_ramp_pattern req.ramp_pattern)
        (write_error 400 (bytes "ramp_pattern must be \"steady\" or \"ramp\""))
    pass (record {
      url = req.url;
      vus = pos_part req.vus;
      duration_seconds = pos_part req.duration_seconds;
      ramp_pattern = req.ramp_pattern;
      fanout = clamp_fanout req.worker_count (pos_part req.vus);
    })

module _ {F P R H : Type 0} ⦃fl : Float F⦄ (sv : Services F P R H) (cfg : Config) where
  -- From the call of the enqueuer on.
  unfoldable pub launch : Plan → Text → User → ℕ → Server F P R H → Server F P R H × Response F
  unfolding count_created
  launch plan warning user now s =
      let (queue', drawn', sent) =
        enqueue sv.redis sv.new_id plan.url plan.ramp_pattern plan.vus plan.duration_seconds
          plan.fanout s.drawn s.queue in
      let s' = record s { queue = queue'; drawn = drawn' } in
      elim sent [
        | none ↦ (s', write_error 500 (bytes "failed to enqueue test"))
        | some (test_id, job_ids) ↦ (
          count_created (not (warning == []))
              (record s' { tests = register test_id user.id plan.url job_ids now s'.tests }),
          write_json 202 (create_test_response test_id job_ids warning),
        )
      ]

  -- Admission by the live workers, and the launch.
  unfoldable pub submit : Plan → User → ℕ → Server F P R H → Server F P R H × Response F
  unfolding launch clamp_warning set_live count_no_capacity
  submit plan user now s = elim (count_live_workers sv.redis s.queue) [
    | none ↦ (s, write_error 500 (bytes "failed to check worker capacity"))
    | some live ↦
        let s' = set_live live s in
        if live == 0
        then (
          count_no_capacity s',
          write_error 503 (bytes "no workers are currently available; try again shortly"),
        )
        else if ltb live plan.fanout
        then launch (record plan { fanout = live }) (clamp_warning plan.fanout live) user now s'
        else launch plan [] user now s'
  ]

  unfoldable pub handle_create_test :
      User → ℕ → Option CreateTestRequest → Server F P R H → Server F P R H × Response F
  unfolding submit check_create_test
  handle_create_test user now body s = elim (check_create_test sv cfg user now body s) [
    | stop r ↦ (s, r)
    | pass plan ↦ submit plan user now s
  ]
