-- ===== src/Strconv.antt =====
-- The functions of Go's package `strconv` that the program calls, in base ten.
pub mod RoundTrip
use sentry_load.Prelude.{
  ℕ, zero, suc, ◌+◌, ◌-◌, ◌*◌, ◌/◌, ◌%◌, ◌^◌, Bool, true, false, ◌&&◌, ◌||◌, [], ◌∷◌, Text, ltb,
  leb, ◌==◌, nat_eq, if◌then◌else◌, ℤ, pos, negsuc,
}

-- A value, or strconv.ErrSyntax or strconv.ErrRange.
pub data Parsed (A : Type 0) : Type 0 where
  ok : A → Parsed A
  syntax : Parsed A
  range : Parsed A

abbrev pub max_uint64 : ℕ
max_uint64 = 18446744073709551615

-- The loop of ParseUint: a byte that is no digit, or a value past 64 bits, ends it.
unfoldable pub scan : ℕ → Text → Parsed ℕ
scan n [] = ok n
scan n (c ∷ s) =
    let d = c - b'0' in
    let rest = scan (n * 10 + d) s in
    if ltb c b'0' || ltb b'9' c then syntax else if ltb max_uint64 (n * 10 + d) then range else rest

-- strconv.ParseUint(s, 10, 64)
unfoldable pub parse_uint : Text → Parsed ℕ
unfolding scan
parse_uint [] = syntax
parse_uint (c ∷ s) = scan 0 (c ∷ s)

abbrev pub int64_limit : ℕ
int64_limit = 9223372036854775808

-- -n, for n ≤ 2^63
negate : ℕ → ℤ
negate zero = pos 0
negate (suc n) = negsuc n

-- The range test of ParseInt. The value beside an error is what Atoi returns with it.
signed : Bool → Parsed ℕ → Parsed ℤ × ℤ
unfolding negate
signed neg syntax = (syntax, pos 0)
signed neg range = (range, if neg then negsuc (int64_limit - 1) else pos (int64_limit - 1))
signed false (ok n) =
    if leb int64_limit n then (range, pos (int64_limit - 1)) else (ok (pos n), pos n)
signed true (ok n) =
    if ltb int64_limit n then (range, negsuc (int64_limit - 1)) else (ok (negate n), negate n)

-- strconv.Atoi on 64 bits: the result, and the value that a caller sees who ignores the error.
atoi_parts : Text → Parsed ℤ × ℤ
unfolding signed parse_uint
atoi_parts [] = (syntax, pos 0)
atoi_parts (c ∷ s) =
    if c == b'-'
    then signed true (parse_uint s)
    else if c == b'+'
    then signed false (parse_uint s)
    else signed false (parse_uint (c ∷ s))

unfoldable pub atoi : Text → Parsed ℤ
unfolding atoi_parts
atoi s = (atoi_parts s).0

unfoldable pub atoi_value : Text → ℤ
unfolding atoi_parts
atoi_value s = (atoi_parts s).1

-- The digits of `n` in front of `out`, last digit first; `n` is fuel enough.
digits : ℕ → ℕ → Text → Text
digits zero n out = out
digits (suc f) n out = elim (ltb n 10) [
  | true ↦ (b'0' + n) ∷ out
  | false ↦ digits f (n / 10) ((b'0' + n % 10) ∷ out)
]

-- strconv.Itoa of an `int` that is not negative, and of any `int`
unfoldable pub format_nat : ℕ → Text
unfolding digits
format_nat n = digits (suc n) n []

unfoldable pub itoa : ℤ → Text
unfolding format_nat
itoa (pos n) = format_nat n
itoa (negsuc n) = b'-' ∷ format_nat (suc n)

-- strconv.FormatBool
unfoldable pub format_bool : Bool → Text
format_bool true = b't' ∷ b'r' ∷ b'u' ∷ b'e' ∷ []
format_bool false = b'f' ∷ b'a' ∷ b'l' ∷ b's' ∷ b'e' ∷ []
