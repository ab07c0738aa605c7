-- ===== src/Coordinator/Badge.antt =====
-- coordinator/badge.go and the text of coordinator/webhook.go: what a shared test looks like in a
-- badge, and what a webhook is told of a finished test.
use sentry_load.Prelude.{
  ℕ, ◌+◌, ◌*◌, ◌/◌, Bool, false, [], ◌∷◌, ◌++◌, Option, none, some, length, Text, text_eq, bytes,
  if◌then◌else◌, ℤ, pos, negsuc, int_ltb, ltb, ◌==◌, Float,
}
use sentry_load.Strings.{trim_suffix}
use sentry_load.Strconv.{itoa}
use sentry_load.Coordinator.History.{HistoryStore}
use sentry_load.Coordinator.Snapshot.{TestSnapshot}

abbrev pub green : Text
green = bytes "#059669"

abbrev pub amber : Text
amber = bytes "#d97706"

abbrev pub red : Text
red = bytes "#dc2626"

abbrev pub gray : Text
gray = bytes "#6b7280"

-- The arguments of writeBadge.
pub record Badge : Type 0 where
  pub label : Text
  pub message : Text
  pub color : Text

abbrev pub gray_badge : Text → Badge
gray_badge message = record { label = bytes "sentry load"; message = message; color = gray }

-- int(float64(len(s))*charWidth) + padding
unfoldable pub segment_width : Text → ℕ
segment_width s = 13 * length s / 2 + 10

-- The numbers that writeBadge prints: the width, the x and width of the message's segment, and the
-- middles of the two texts.
pub record Layout : Type 0 where
  pub total_width : ℕ
  pub label_width : ℕ
  pub message_width : ℕ
  pub label_middle : ℕ
  pub message_middle : ℕ

unfoldable pub badge_layout : Badge → Layout
unfolding segment_width
badge_layout b =
    let label_width = segment_width b.label in
    let message_width = segment_width b.message in
    record {
      total_width = label_width + message_width;
      label_width = label_width;
      message_width = message_width;
      label_middle = label_width / 2;
      message_middle = label_width + message_width / 2;
    }

module _ {F : Type 0} ⦃fl : Float F⦄ where
  -- float64(n)
  of_int : ℤ → F
  of_int (pos n) = fl.of_nat n
  of_int (negsuc n) = fl.neg (fl.of_nat (n + 1))

  -- The percentage of requests that failed.
  unfoldable pub error_percent : TestSnapshot F → F
  unfolding of_int
  error_percent snap =
      if int_ltb (pos 0) snap.total_requests
      then fl.mul (fl.div (of_int snap.total_errors) (of_int snap.total_requests)) (fl.of_nat 100)
      else fl.of_nat 0

  unfoldable pub badge_color : TestSnapshot F → Text
  unfolding error_percent
  badge_color snap =
      if snap.circuit_broken
      then red
      else if fl.lt (fl.of_nat 5) (error_percent snap)
      then amber
      else green

  -- The middle dot is the bytes 194 and 183.
  unfoldable pub test_badge : TestSnapshot F → Badge
  unfolding badge_color
  test_badge snap = record {
    label = bytes "load tested";
    message =
        fl.format 0 snap.combined_rps
        ++ bytes " rps "
        ++ (194 ∷ 183 ∷ [])
        ++ bytes " "
        ++ fl.format 1 (error_percent snap)
        ++ bytes "% err";
    color = badge_color snap;
  }

  -- The status text of formatWebhookMessage.
  unfoldable pub webhook_status : TestSnapshot F → Text
  webhook_status snap =
      if snap.circuit_broken
      then bytes "circuit-broken — target error rate spiked, aborted early"
      else if snap.abandoned
      then bytes "incomplete — workers kept failing mid-run, part of the load was never generated"
      else bytes "finished"

  unfoldable pub format_webhook_message : TestSnapshot F → Text → Text
  unfolding webhook_status error_percent
  format_webhook_message snap report_url =
      bytes "Sentry Load — test "
      ++ webhook_status snap
      ++ bytes "\n"
      ++ snap.url
      ++ bytes "\n"
      ++ itoa snap.total_requests
      ++ bytes " requests, "
      ++ fl.format 1 (error_percent snap)
      ++ bytes "% errors, "
      ++ fl.format 1 snap.combined_rps
      ++ bytes " RPS"
      ++ (elim snap.p95_ms [
        | none ↦ []
        | some p95 ↦ bytes ", p95 " ++ fl.format 1 p95 ++ bytes "ms"
      ])
      ++ (if report_url == [] then [] else bytes "\n" ++ report_url)

  module _ {H : Type 0} (history : Option (HistoryStore F H)) where
    -- handleBadge, up to the rendering of writeBadge.
    unfoldable pub handle_badge : Text → H → Badge
    unfolding test_badge
    handle_badge path_token past = elim history [
      | none ↦ gray_badge (bytes "unavailable")
      | some store ↦ elim (store.get_by_share_token (trim_suffix path_token (bytes ".svg")) past) [
        | none ↦ gray_badge (bytes "error")
        | some none ↦ gray_badge (bytes "not found")
        | some (some snap) ↦ test_badge snap
      ]
    ]

-- The answer of a webhook's endpoint: an error of the request, or its status code.
unfoldable pub notify_succeeds : Option ℕ → Bool
notify_succeeds none = false
notify_succeeds (some status_code) = ltb status_code 300
