-- ===== src/Coordinator/Routes.antt =====
-- NewServer, withCORS (coordinator/server.go) and metricsMiddleware (coordinator/prometheus.go):
-- the routes of the API and what stands before every handler. Matching a request to a route is
-- net/http's.
use sentry_load.Strconv.{itoa}
use sentry_load.Prelude.{
  ℕ, pos, ℕ, ◌≡◌, refl, Bool, true, false, not, ◌&&◌, ◌||◌, List, [], ◌∷◌, ◌++◌, Option, none, some,
  arith, All, Text, text_eq, bytes, ◌==◌, if◌then◌else◌, Map,
}

-- One for each handler that NewServer registers.
pub data Handler : Type 0 where
  healthz metrics github_login github_callback create_domain_challenge verify_domain : Handler
  create_test list_tests test_trend get_test delete_test set_test_label get_webhook : Handler
  set_webhook share_test public_report badge test_live : Handler

pub record Route : Type 0 where
  pub method : Text
  pub path : Text
  -- wrapped in requireAuth
  pub requires_auth : Bool
  pub handler : Handler

abbrev public : Text → Text → Handler → Route
public method path handler = record {
  method = method;
  path = path;
  requires_auth = false;
  handler = handler;
}

abbrev protected : Text → Text → Handler → Route
protected method path handler = record {
  method = method;
  path = path;
  requires_auth = true;
  handler = handler;
}

unfoldable pub routes : List Route
routes =
    public (bytes "GET") (bytes "/healthz") healthz
    ∷ public (bytes "GET") (bytes "/metrics") metrics
    ∷ public (bytes "GET") (bytes "/auth/github/login") github_login
    ∷ public (bytes "GET") (bytes "/auth/github/callback") github_callback
    ∷ protected (bytes "POST") (bytes "/domains") create_domain_challenge
    ∷ protected (bytes "POST") (bytes "/domains/{domain}/verify") verify_domain
    ∷ protected (bytes "POST") (bytes "/tests") create_test
    ∷ protected (bytes "GET") (bytes "/tests") list_tests
    ∷ protected (bytes "GET") (bytes "/tests/trend") test_trend
    ∷ protected (bytes "GET") (bytes "/tests/{id}") get_test
    ∷ protected (bytes "DELETE") (bytes "/tests/{id}") delete_test
    ∷ protected (bytes "PUT") (bytes "/tests/{id}/label") set_test_label
    ∷ protected (bytes "GET") (bytes "/me/webhook") get_webhook
    ∷ protected (bytes "PUT") (bytes "/me/webhook") set_webhook
    ∷ protected (bytes "POST") (bytes "/tests/{id}/share") share_test
    ∷ public (bytes "GET") (bytes "/reports/{token}") public_report
    ∷ public (bytes "GET") (bytes "/badge/{token}") badge
    ∷ public (bytes "GET") (bytes "/tests/{id}/live") test_live
    ∷ []

abbrev pub allowed_methods : List Text
allowed_methods = bytes "GET" ∷ bytes "POST" ∷ bytes "OPTIONS" ∷ []

-- The three headers of withCORS, with the methods of the last one as a list.
pub record Cors : Type 0 where
  pub allow_origin : Text
  pub allow_headers : Text
  pub allow_methods : List Text

-- The headers, if an origin is configured, and whether the request goes on to the routes; OPTIONS
-- is answered with 204 at once.
unfoldable pub with_cors : Text → Text → Option Cors × Bool
with_cors allowed_origin method = (
  (if allowed_origin == []
      then none
      else some (record {
        allow_origin = allowed_origin;
        allow_headers = bytes "Authorization, Content-Type, ngrok-skip-browser-warning";
        allow_methods = allowed_methods;
      })),
  not (method == bytes "OPTIONS"),
)

-- The label `route` of the request metrics.
unfoldable pub route_label : Text → Text
route_label pattern = if pattern == [] then bytes "unmatched" else pattern

-- What statusRecorder holds after the handler's calls of WriteHeader.
unfoldable pub recorded_status : List ℕ → ℕ → ℕ
recorded_status [] status = status
recorded_status (s ∷ ss) status = recorded_status ss s

-- The labels of a request in metricsMiddleware: the route, the method and the status.
unfoldable pub request_labels : Text → Text → List ℕ → Text × Text × Text
unfolding route_label recorded_status
request_labels pattern method written =
    (route_label pattern, method, itoa (pos (recorded_status written 200)))

unfoldable pub is_one_of : Text → List Text → Bool
is_one_of t [] = false
is_one_of t (s ∷ ss) = s == t || is_one_of t ss

-- The routes whose method the preflight answer does not name.
unfoldable pub refused_by_preflight : List Route → List Handler
refused_by_preflight [] = []
refused_by_preflight (r ∷ rs) =
    let rest = refused_by_preflight rs in
    if is_one_of r.method allowed_methods then rest else r.handler ∷ rest

-- The handlers that PUT and DELETE reach.
refused_by_preflight_run :
    refused_by_preflight routes ≡ delete_test ∷ set_test_label ∷ set_webhook ∷ []
unfolding refused_by_preflight routes is_one_of bytes sentry_load.Prelude.same
refused_by_preflight_run = refl
