-- ===== src/Prelude/Floats.antt =====
-- Go's float64 and the operations on it that the program uses, as an interface: no law of rounding
-- is assumed.
use Prim.Native.Nat.{ℕ}
use mathlib.Core.Bool.{Bool}
use sentry_load.Prelude.Texts.{Text}

pub record Float (F : Type 0) : Type 0 where
  -- the literal m / 10 ^ k
  pub lit : ℕ → ℕ → F
  -- float64(n)
  pub of_nat : ℕ → F
  pub add : F → F → F
  pub mul : F → F → F
  pub div : F → F → F
  pub neg : F → F
  pub pow : F → F → F
  pub log : F → F
  pub ceil : F → F
  pub round : F → F
  -- the conversion of a float that is not negative to an integer
  pub trunc : F → ℕ
  pub lt : F → F → Bool
  pub le : F → F → Bool
  -- the value that strconv.ParseFloat returns, whatever its error
  pub parse : Text → F
  -- fmt's %.1f and %.0f, strconv.FormatFloat(f, 'f', 1, 64)
  pub format : ℕ → F → Text
