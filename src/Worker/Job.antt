-- ===== src/Worker/Job.antt =====
-- worker/job.go: the job that a message of the jobs stream describes, and the caps that a worker
-- holds it to. The fields of a message are texts, as Redis delivers them.
use sentry_load.Prelude.{
  ℕ, Bool, true, ◌||◌, none, some, Text, text_eq, bytes, nat_eq, ltb, ◌==◌, if◌then◌else◌, ℤ, pos,
  negsuc, Map, lookup,
}
use sentry_load.Strconv.{ok, syntax, range, atoi}

abbrev pub max_vus : ℕ
max_vus = 200

abbrev pub max_duration_seconds : ℕ
max_duration_seconds = 300

pub record Job : Type 0 where
  pub id : Text
  pub test_id : Text
  pub url : Text
  pub vus : ℤ
  pub duration_seconds : ℤ
  pub ramp_pattern : Text

-- The errors of parseJob and validate.
pub data JobError : Type 0 where
  missing_field : Text → JobError
  invalid_number : Text → JobError
  unknown_ramp_pattern : Text → JobError
  vus_out_of_range : ℤ → JobError
  duration_out_of_range : ℤ → JobError

pub data Result (A : Type 0) : Type 0 where
  good : A → Result A
  bad : JobError → Result A

infixl 5 ◌>>=◌ ◌>>◌
abbrev pub ◌>>=◌ : {A B : Type 0} → Result A → (A → Result B) → Result B
good a >>= f = f a
bad e >>= f = bad e

abbrev pub ◌>>◌ : {B : Type 0} → Result (Unit {0}) → Result B → Result B
m >> k = m >>= λ _. k

-- The closure `str`.
unfoldable pub str : Text → Map Text Text → Result Text
str key values = elim (lookup key values) [ none ↦ bad (missing_field key) | some s ↦ good s ]

-- strconv.Atoi with its error named after the field
unfoldable pub number : Text → Text → Result ℤ
number key s = elim (atoi s) [
  | ok n ↦ good n
  | syntax ↦ bad (invalid_number key)
  | range ↦ bad (invalid_number key)
]

unfoldable pub check_pattern : Text → Result (Unit {0})
check_pattern ramp_pattern =
    if ramp_pattern == bytes "steady" || ramp_pattern == bytes "ramp"
    then good tt
    else bad (unknown_ramp_pattern ramp_pattern)

unfoldable pub parse_job : Map Text Text → Result Job
unfolding str number check_pattern
parse_job values = do
  id ← str (bytes "id") values
  test_id ← str (bytes "test_id") values
  url ← str (bytes "url") values
  ramp_pattern ← str (bytes "ramp_pattern") values
  vus_str ← str (bytes "vus") values
  vus ← number (bytes "vus") vus_str
  dur_str ← str (bytes "duration_seconds") values
  duration_seconds ← number (bytes "duration_seconds") dur_str
  check_pattern ramp_pattern
  good (record {
    id = id;
    test_id = test_id;
    url = url;
    vus = vus;
    duration_seconds = duration_seconds;
    ramp_pattern = ramp_pattern;
  })

-- n <= 0 || n > limit
unfoldable pub beyond : ℤ → ℕ → Bool
beyond (pos n) limit = n == 0 || ltb limit n
beyond (negsuc n) limit = true

unfoldable pub validate : Job → Result (Unit {0})
unfolding beyond
validate j =
    if beyond j.vus max_vus
    then bad (vus_out_of_range j.vus)
    else if beyond j.duration_seconds max_duration_seconds
    then bad (duration_out_of_range j.duration_seconds)
    else good tt
