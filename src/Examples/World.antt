-- ===== src/Examples/World.antt =====
-- A small world for the examples: whole numbers for floats, lists for Redis and the databases, and
-- one user, one allowlisted host and one live worker.
use sentry_load.Prelude.{
  ℕ, ◌+◌, ◌*◌, ◌/◌, ◌^◌, ◌≡◌, refl, true, false, List, [], ◌∷◌, ◌++◌, Option, none, some, Text,
  text_eq, bytes, nat_eq, ltb, leb, ◌==◌, if◌then◌else◌, pos, int_eq, Float, Bool-cases, inl, inr,
  ==_refl, ap,
}
use sentry_load.Strconv.{format_nat}
use sentry_load.Coordinator.Persister.{User, Persister}
use sentry_load.Coordinator.UserStore.{UserStore, new_user_store, add_user}
use sentry_load.Coordinator.Enqueue.{Fields, Redis}
use sentry_load.Coordinator.Enqueue.Published.{Appends}
use sentry_load.Coordinator.TestStore.{new_test_store}
use sentry_load.Coordinator.Api.{Services, Config, Server}
use sentry_load.Coordinator.CreateTest.{CreateTestRequest}

instance abbrev pub whole : Float ℕ
whole = record {
  lit = λ m k. m / 10 ^ k;
  of_nat = λ n. n;
  neg = λ n. 0;
  add = λ a b. a + b;
  mul = λ a b. a * b;
  div = λ a b. if b == 0 then a else a / b;
  pow = λ a b. a ^ b;
  log = λ a. a;
  ceil = λ a. a;
  round = λ a. a;
  trunc = λ a. a;
  lt = ltb;
  le = leb;
  parse = λ s. 0;
  format = λ k a. format_nat a;
}

-- The state of Redis: the messages of each stream, in one list.
abbrev pub Queue : Type 0
Queue = List (Text × Fields)

abbrev pub on_stream : Text → Queue → List Fields
on_stream stream [] = []
on_stream stream ((name, job) ∷ q) =
    if name == stream then job ∷ on_stream stream q else on_stream stream q

abbrev pub redis : Redis Queue
redis = record {
  x_add = λ stream job q. (q ++ (stream, job) ∷ [], true);
  scan = λ p q. some (bytes "w" ∷ []) ∷ [];
}

pub on_stream-append :
    (stream : Text) (job : Fields) (q : Queue)
    → on_stream stream (q ++ (stream, job) ∷ []) ≡ on_stream stream q ++ job ∷ []
on_stream-append stream job [] = rw (==_refl stream) refl
on_stream-append stream job ((name, other) ∷ q) = elim (Bool-cases (name == stream)) [
  | inl e ↦ rw e (ap (λ (l : List Fields). other ∷ l) (on_stream-append stream job q))
  | inr e ↦ rw e (on_stream-append stream job q)
]

abbrev pub redis_appends : Appends redis
redis_appends = record {
  entries = on_stream;
  appended = λ stream job q h. on_stream-append stream job q;
}

abbrev pub no_db : Option (Persister Unit)
no_db = none

abbrev pub services : Services ℕ Unit Queue Unit
services = record {
  persister = none;
  history = none;
  redis = redis;
  new_id = λ n. b'u' ∷ format_nat n;
  sha256 = λ s. s;
  parse_ip = λ s. false;
  parse_url = λ s. some (record { scheme = bytes "https"; hostname = s });
  query_escape = λ s. s;
  quote = λ s. s;
  lookup_txt = λ name. some (bytes "00" ∷ []);
  http_get = λ url. none;
  exchange = λ code. none;
  fetch_user = λ token. none;
}

abbrev pub config : Config
config = record {
  allowlist = (bytes "a.io", true) ∷ [];
  github_client_id = bytes "id";
  github_redirect_url = [];
  dashboard_url = [];
  test_cooldown = 10;
}

abbrev pub ann : User
ann = record {
  id = bytes "gh-7";
  github_id = pos 7;
  github_login = bytes "ann";
  webhook_url = bytes "a.io";
}

abbrev pub bob : User
bob = record { id = bytes "gh-8"; github_id = pos 8; github_login = bytes "bob"; webhook_url = [] }

abbrev pub users : UserStore
users = add_user ann new_user_store

abbrev pub request : CreateTestRequest
request = record {
  url = bytes "a.io";
  vus = pos 7;
  duration_seconds = pos 30;
  ramp_pattern = bytes "steady";
  worker_count = pos 3;
}

abbrev pub server : Server ℕ Unit Queue Unit
server = record {
  tests = new_test_store;
  domains = record { challenges = (bytes "b.io", bytes "00") ∷ []; verified = [] };
  users = users;
  auth_states = record { issued = (bytes "s", 0) ∷ [] };
  db = tt;
  queue = [];
  past = tt;
  drawn = 0;
  metrics = record { accepted = 0; clamped = 0; no_capacity = 0; live_workers = 0 };
}
