-- ===== src/Prelude/Sorting.antt =====
-- sort.Ints, and the order of Go's `int`.
use mathlib.Core.Path.{◌≡◌}
use mathlib.Core.Bool.{true, false}
use mathlib.Core.Logic.{inl, inr}
use mathlib.Core.List.{List, [], ◌∷◌}
use native.Mathlib.Omega.{arith}
use sentry_load.Prelude.Tests.{if◌then◌else◌, Bool-cases}
use sentry_load.Prelude.Lists.{All}
use sentry_load.Prelude.Int.{ℤ, int_ltb}

-- a ≤ b
abbrev pub AtMost : ℤ → ℤ → Type 0
AtMost a b = int_ltb b a ≡ false

pub AtMost-trans : (a b c : ℤ) → AtMost a b → AtMost b c → AtMost a c
unfolding int_ltb
AtMost-trans a b c h k = ground arith

pub AtMost-of_lt : (a b : ℤ) → int_ltb a b ≡ true → AtMost a b
unfolding int_ltb
AtMost-of_lt a b h = ground arith

unfoldable pub insert_sorted : ℤ → List ℤ → List ℤ
insert_sorted a [] = a ∷ []
insert_sorted a (b ∷ l) = if int_ltb b a then b ∷ insert_sorted a l else a ∷ b ∷ l

unfoldable pub sort_ints : List ℤ → List ℤ
unfolding insert_sorted
sort_ints [] = []
sort_ints (a ∷ l) = insert_sorted a (sort_ints l)

abbrev pub IsSorted : List ℤ → Type 0
IsSorted [] = Unit
IsSorted (a ∷ l) = All (AtMost a) l × IsSorted l

pub insert_sorted-All :
    (P : ℤ → Type 0) (a : ℤ) (l : List ℤ) → P a → All P l → All P (insert_sorted a l)
unfolding insert_sorted
insert_sorted-All P a [] h k = (h, tt)
insert_sorted-All P a (b ∷ l) h k = elim (Bool-cases (int_ltb b a)) [
  | inl e ↦ rw e (k.0, insert_sorted-All P a l h k.1)
  | inr e ↦ rw e (h, k)
]

All-AtMost : (a b : ℤ) (l : List ℤ) → AtMost a b → All (AtMost b) l → All (AtMost a) l
All-AtMost a b [] h k = tt
All-AtMost a b (c ∷ l) h k = (AtMost-trans a b c h k.0, All-AtMost a b l h k.1)

insert_sorted-IsSorted : (a : ℤ) (l : List ℤ) → IsSorted l → IsSorted (insert_sorted a l)
unfolding insert_sorted
insert_sorted-IsSorted a [] h = (tt, tt)
insert_sorted-IsSorted a (b ∷ l) h = elim (Bool-cases (int_ltb b a)) [
  | inl e ↦
      rw e
        (insert_sorted-All (AtMost b) a l (AtMost-of_lt b a e) h.0, insert_sorted-IsSorted a l h.1)
  | inr e ↦ rw e ((e, All-AtMost a b l e h.0), h)
]

pub sort_ints-IsSorted : (l : List ℤ) → IsSorted (sort_ints l)
unfolding sort_ints
sort_ints-IsSorted [] = tt
sort_ints-IsSorted (a ∷ l) = insert_sorted-IsSorted a (sort_ints l) (sort_ints-IsSorted l)
