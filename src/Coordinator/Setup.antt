-- ===== src/Coordinator/Setup.antt =====
-- main and parseAllowlist of coordinator/main.go: what the environment configures and the stores
-- that the coordinator starts with. `none` is log.Fatalf. An unset variable reads as the empty
-- text.
use sentry_load.Prelude.{
  ℕ, ◌*◌, Bool, true, List, [], ◌∷◌, ◌++◌, Option, none, some, Text, text_eq, bytes, ◌==◌,
  if◌then◌else◌, or_default, ℤ, pos, negsuc, wrap64, Map, insert,
}
use sentry_load.Strings.{split, trim_space}
use sentry_load.Strconv.{ok, syntax, range, atoi}
use sentry_load.Coordinator.Persister.{Persister}
use sentry_load.Coordinator.DomainStore.{DomainStore, load_domain_store}
use sentry_load.Coordinator.UserStore.{UserStore, load_user_store}

unfoldable pub add_hosts : List Text → Map Text Bool → Map Text Bool
add_hosts [] hosts = hosts
add_hosts (h ∷ hs) hosts =
    let host = trim_space h in add_hosts hs (if host == [] then hosts else insert host true hosts)

unfoldable pub parse_allowlist : Text → Map Text Bool
unfolding add_hosts
parse_allowlist v =
    add_hosts (split b',' v) ((bytes "localhost", true) ∷ (bytes "127.0.0.1", true) ∷ [])

-- 30 seconds, in nanoseconds
abbrev pub default_test_cooldown : ℤ
default_test_cooldown = pos 30000000000

-- TEST_COOLDOWN_SECONDS; the product with time.Second wraps around.
unfoldable pub parse_cooldown : Text → Option ℤ
parse_cooldown v = if v == [] then some default_test_cooldown else elim (atoi v) [
  | ok (pos secs) ↦ some (wrap64 (pos (secs * 1000000000)))
  | ok (negsuc n) ↦ none
  | syntax ↦ none
  | range ↦ none
]

pub record Settings : Type 0 where
  pub redis_addr : Text
  pub port : Text
  pub allowlist : Map Text Bool
  pub dashboard_url : Text
  pub github_client_id : Text
  pub github_client_secret : Text
  pub github_redirect_url : Text
  pub test_cooldown : ℤ

unfoldable pub read_settings : (getenv : Text → Text) → Option Settings
unfolding parse_allowlist parse_cooldown or_default
read_settings getenv =
    let port = or_default (getenv (bytes "PORT")) (bytes "8080") in
    elim (parse_cooldown (getenv (bytes "TEST_COOLDOWN_SECONDS"))) [
      | none ↦ none
      | some cooldown ↦ some (record {
        redis_addr = or_default (getenv (bytes "REDIS_ADDR")) (bytes "localhost:6379");
        port = port;
        allowlist = parse_allowlist (getenv (bytes "ALLOWLISTED_HOSTS"));
        dashboard_url = or_default (getenv (bytes "DASHBOARD_URL")) (bytes "http://localhost:3000");
        github_client_id = getenv (bytes "GITHUB_CLIENT_ID");
        github_client_secret = getenv (bytes "GITHUB_CLIENT_SECRET");
        github_redirect_url =
            or_default (getenv (bytes "GITHUB_REDIRECT_URL"))
              (bytes "http://localhost:" ++ port ++ bytes "/auth/github/callback");
        test_cooldown = cooldown;
      })
    ]

module _ {P : Type 0} (persist : Option (Persister P)) where
  -- The users and sessions first, then the domains; empty stores without a database.
  unfoldable pub load_stores : ℕ → P → P × Option (UserStore × DomainStore)
  load_stores now p =
      let (p', users) = load_user_store persist now p in
      elim users [
        | none ↦ (p', none)
        | some us ↦ elim (load_domain_store persist p') [
          | none ↦ (p', none)
          | some ds ↦ (p', some (us, ds))
        ]
      ]
