-- ===== src/Strconv/RoundTrip.antt =====
-- On writing decimal numbers and reading them.
use sentry_load.Prelude.{
  ℕ, zero, suc, ◌+◌, ◌/◌, ◌%◌, ◌≤◌, ◌<◌, ◌≡◌, refl, ◌∙◌, ◌⊎◌, [], ◌∷◌, arith, Text, pos,
}
use sentry_load.Strings.{Free}
use sentry_load.Strconv.{
  ok, max_uint64, int64_limit, scan, parse_uint, atoi, atoi_value, digits, format_nat,
}

scan-digits : (f n : ℕ) (out : Text) → n < f → n ≤ max_uint64 → scan 0 (digits f n out) ≡ scan n out
unfolding scan digits
scan-digits zero n out h k = absurd (omega arith)
scan-digits (suc f) n out h k = ground (arith, scan-digits f (n / 10) ((48 + n % 10) ∷ out))

abbrev pub Starts : Text → Type 0
Starts [] = ⊥
Starts (c ∷ s) = (48 ≤ c) × (c ≤ 57)

digits-Starts : (f n : ℕ) (out : Text) → n < f → Starts (digits f n out)
unfolding digits
digits-Starts zero n out h = absurd (omega arith)
digits-Starts (suc f) n out h = ground (arith, digits-Starts f (n / 10) ((48 + n % 10) ∷ out))

digits-Free :
    (c f n : ℕ) (out : Text) → (c < 48) ⊎ (57 < c) → n < f → Free c out → Free c (digits f n out)
unfolding digits
digits-Free c zero n out d h k = absurd (omega arith)
digits-Free c (suc f) n out d h k = ground (arith, digits-Free c f (n / 10) ((48 + n % 10) ∷ out) d)

parse-Starts : (s : Text) → Starts s → parse_uint s ≡ scan 0 s
unfolding parse_uint
parse-Starts [] h = absurd h
parse-Starts (c ∷ s) h = refl

-- ParseUint reads what Itoa wrote.
pub parse_uint-format_nat : (n : ℕ) → n ≤ max_uint64 → parse_uint (format_nat n) ≡ ok n
unfolding format_nat
parse_uint-format_nat n h =
    parse-Starts (digits (suc n) n []) (digits-Starts (suc n) n [] (omega arith))
    ∙ (scan-digits (suc n) n [] (omega arith) h ∙ unfold scan in refl)

atoi-Starts :
    (s : Text) (n : ℕ)
    → Starts s
    → parse_uint s ≡ ok n
    → n < int64_limit
    → (atoi s ≡ ok (pos n)) × (atoi_value s ≡ pos n)
unfolding atoi atoi_value
atoi-Starts [] n h e k = absurd h
atoi-Starts (c ∷ s) n h e k = ground arith

atoi_of_format :
    (n : ℕ)
    → n < int64_limit
    → (atoi (format_nat n) ≡ ok (pos n)) × (atoi_value (format_nat n) ≡ pos n)
unfolding format_nat
atoi_of_format n h =
    atoi-Starts (digits (suc n) n []) n (digits-Starts (suc n) n [] (omega arith))
      (unfold format_nat in parse_uint-format_nat n (omega arith)) h

-- Atoi reads what Itoa wrote.
pub atoi-format_nat : (n : ℕ) → n < int64_limit → atoi (format_nat n) ≡ ok (pos n)
atoi-format_nat n h = (atoi_of_format n h).0

pub atoi_value-format_nat : (n : ℕ) → n < int64_limit → atoi_value (format_nat n) ≡ pos n
atoi_value-format_nat n h = (atoi_of_format n h).1

-- A number holds no byte but digits.
pub format_nat-Free : (c n : ℕ) → (c < 48) ⊎ (57 < c) → Free c (format_nat n)
unfolding format_nat
format_nat-Free c n d = digits-Free c (suc n) n [] d (omega arith) tt
