-- ===== src/Strings.antt =====
-- The functions of Go's package `strings` that the program calls, over bytes.
use sentry_load.Prelude.{
  ℕ, ◌+◌, ◌≡◌, refl, Bool, true, false, ◌&&◌, ◌||◌, List, [], ◌∷◌, ◌++◌, map, Option, none, some,
  arith, Text, leb, ◌==◌, nat_eq, if◌then◌else◌,
}
use mathlib.Core.List.{reverse}

-- strings.CutPrefix
unfoldable pub cut_prefix : Text → Text → Option Text
cut_prefix s [] = some s
cut_prefix [] (c ∷ p) = none
cut_prefix (d ∷ s) (c ∷ p) = if c == d then cut_prefix s p else none

unfoldable pub push_front : ℕ → List Text → List Text
push_front c [] = (c ∷ []) ∷ []
push_front c (t ∷ ts) = (c ∷ t) ∷ ts

-- strings.Split by a separator of one byte
unfoldable pub split : ℕ → Text → List Text
unfolding push_front
split c [] = [] ∷ []
split c (x ∷ s) = let rest = split c s in if x == c then [] ∷ rest else push_front x rest

-- strings.Cut at a separator of one byte
unfoldable pub cut : ℕ → Text → Option (Text × Text)
cut c [] = none
cut c (x ∷ s) =
    let rest : Option (Text × Text) = elim (cut c s) [
      | none ↦ none
      | some (a, b) ↦ some (x ∷ a, b)
    ] in
    if x == c then some ([], s) else rest

-- The white space of ASCII.
unfoldable pub is_space : ℕ → Bool
is_space c = c == 32 || (leb 9 c && leb c 13)

trim_left : Text → Text
trim_left [] = []
trim_left (c ∷ s) = if is_space c then trim_left s else c ∷ s

-- strings.TrimSpace, on ASCII
unfoldable pub trim_space : Text → Text
unfolding trim_left
trim_space s = reverse (trim_left (reverse (trim_left s)))

-- strings.HasSuffix
unfoldable pub has_suffix : Text → Text → Bool
has_suffix s p = elim (cut_prefix (reverse s) (reverse p)) [ none ↦ false | some _ ↦ true ]

-- strings.TrimSuffix
unfoldable pub trim_suffix : Text → Text → Text
trim_suffix s p = elim (cut_prefix (reverse s) (reverse p)) [ none ↦ s | some t ↦ reverse t ]

to_lower_byte : ℕ → ℕ
to_lower_byte c = if leb b'A' c && leb c b'Z' then c + 32 else c

-- strings.ToLower, on ASCII
unfoldable pub to_lower : Text → Text
unfolding to_lower_byte
to_lower = map to_lower_byte

-- The bytes of `s` all differ from `c`.
abbrev pub Free : ℕ → Text → Type 0
Free c [] = Unit
Free c (x ∷ s) = ((x == c) ≡ false) × Free c s

pub cut_prefix-append : (p s : Text) → cut_prefix (p ++ s) p ≡ some s
unfolding cut_prefix
cut_prefix-append [] s = ground arith
cut_prefix-append (c ∷ p) s = ground (arith, cut_prefix-append p s)

pub cut-append : (c : ℕ) (s t : Text) → Free c s → cut c (s ++ c ∷ t) ≡ some (s, t)
unfolding cut
cut-append c [] t h = ground arith
cut-append c (x ∷ s) t h = ground (arith, cut-append c s t h.1)

pub split_single : (c : ℕ) (s : Text) → Free c s → split c s ≡ s ∷ []
unfolding split
split_single c [] h = refl
split_single c (x ∷ s) h = ground (arith, split_single c s h.1)

pub split-append : (c : ℕ) (s t : Text) → Free c s → split c (s ++ c ∷ t) ≡ s ∷ split c t
unfolding split
split-append c [] t h = ground arith
split-append c (x ∷ s) t h = ground (arith, split-append c s t h.1)

pub Free-append : (c : ℕ) (s t : Text) → Free c s → Free c t → Free c (s ++ t)
Free-append c [] t h k = k
Free-append c (x ∷ s) t h k = (h.0, Free-append c s t h.1 k)
