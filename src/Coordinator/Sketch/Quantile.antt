-- ===== src/Coordinator/Sketch/Quantile.antt =====
-- On the loop of quantileMS (coordinator/sketch.go): the bucket of a rank.
use sentry_load.Prelude.{
  ℕ, ◌+◌, ◌≤◌, ◌<◌, ◌≡◌, refl, ◌∙◌, Bool, false, not, List, [], ◌∷◌, arith, ltb, if◌then◌else◌, All,
  ℤ, pos, int_eq, int_ltb, int_beq_iff, Map, lookup, lookup_or,
}
use sentry_load.Prelude.Sorting.{
  AtMost, AtMost-trans, IsSorted, insert_sorted, sort_ints, sort_ints-IsSorted,
}
use sentry_load.Coordinator.Sketch.{LatencySketch, u64, keys, walk, bucket_at}
use sentry_load.Coordinator.Sketch.Weight.{weight, anywhere, member, Distinct, IsExact}

abbrev pub below : ℤ → ℤ → Bool
below i j = int_ltb j i

abbrev pub up_to : ℤ → ℤ → Bool
up_to i j = not (int_ltb i j)

-- The samples in the buckets `ks` that pass `p`.
unfoldable pub weight_at : (ℤ → Bool) → Map ℤ ℕ → List ℤ → ℕ
weight_at p m [] = 0
weight_at p m (k ∷ ks) = (if p k then lookup_or 0 k m else 0) + weight_at p m ks

weight_at_fresh :
    (p : ℤ → Bool) (k : ℤ) (c : ℕ) (m : Map ℤ ℕ) (ks : List ℤ)
    → member k ks ≡ false
    → weight_at p ((k, c) ∷ m) ks ≡ weight_at p m ks
unfolding weight_at member lookup lookup_or
weight_at_fresh p k c m [] h = refl
weight_at_fresh p k c m (j ∷ ks) h = ground (arith, weight_at_fresh p k c m ks)

weight_at-keys :
    (p : ℤ → Bool) (m : Map ℤ ℕ) → Distinct (keys m) → weight_at p m (keys m) ≡ weight p m
unfolding weight_at weight keys lookup lookup_or
weight_at-keys p [] h = refl
weight_at-keys p ((k, c) ∷ m) h =
    ground (arith, weight_at_fresh p k c m (keys m), weight_at-keys p m h.1, int_beq_iff k k)

weight_at-insert_sorted :
    (p : ℤ → Bool) (m : Map ℤ ℕ) (k : ℤ) (ks : List ℤ)
    → weight_at p m (insert_sorted k ks) ≡ weight_at p m (k ∷ ks)
unfolding weight_at insert_sorted
weight_at-insert_sorted p m k [] = refl
weight_at-insert_sorted p m k (j ∷ ks) = ground (arith, weight_at-insert_sorted p m k ks)

weight_at-sort_ints :
    (p : ℤ → Bool) (m : Map ℤ ℕ) (ks : List ℤ) → weight_at p m (sort_ints ks) ≡ weight_at p m ks
unfolding weight_at sort_ints
weight_at-sort_ints p m [] = refl
weight_at-sort_ints p m (k ∷ ks) =
    omega (arith, weight_at-insert_sorted p m k (sort_ints ks), weight_at-sort_ints p m ks)

weight_at_none_below :
    (k : ℤ) (m : Map ℤ ℕ) (ks : List ℤ) → All (AtMost k) ks → weight_at (below k) m ks ≡ 0
unfolding weight_at
weight_at_none_below k m [] h = refl
weight_at_none_below k m (j ∷ ks) h = ground (arith, weight_at_none_below k m ks h.1)

int_ltb_irrefl : (k : ℤ) → int_ltb k k ≡ false
unfolding int_ltb
int_ltb_irrefl k = ground arith

lower_bound : (ks : List ℤ) → IsSorted ks → (lo : ℤ) × All (AtMost lo) ks
lower_bound [] s = (pos 0, tt)
lower_bound (k ∷ ks) s = (k, (int_ltb_irrefl k, s.0))

pub weight_at_sorted_keys :
    (p : ℤ → Bool) (m : Map ℤ ℕ)
    → Distinct (keys m)
    → weight_at p m (sort_ints (keys m)) ≡ weight p m
weight_at_sorted_keys p m d = weight_at-sort_ints p m (keys m) ∙ weight_at-keys p m d

module _ (m : Map ℤ ℕ) (rank : ℕ) where
  Located : ℕ → List ℤ → ℤ → Type 0
  Located seen ks i =
      (seen + weight_at (below i) m ks ≤ rank) × (rank < seen + weight_at (up_to i) m ks)

  walk_step :
      (seen : ℕ) (last i : ℤ) (ks : List ℤ)
      → seen + lookup_or 0 i m < 18446744073709551616
      → let seen' = seen + lookup_or 0 i m in
        walk m rank seen last (i ∷ ks) ≡ (if ltb rank seen' then i else walk m rank seen' i ks)
  unfolding walk
  walk_step seen last i ks h =
      let e : u64 (seen + lookup_or 0 i m) ≡ seen + lookup_or 0 i m = omega arith in rw e

  walk-Located :
      (lo : ℤ) (seen : ℕ) (last : ℤ) (ks : List ℤ)
      → All (AtMost lo) ks
      → IsSorted ks
      → seen ≤ rank
      → rank < seen + weight_at anywhere m ks
      → seen + weight_at anywhere m ks < 18446744073709551616
      → AtMost lo (walk m rank seen last ks) × Located seen ks (walk m rank seen last ks)
  unfolding Located weight_at
  walk-Located lo seen last [] a s h k b = absurd (omega arith)
  walk-Located lo seen last (i ∷ ks) a s h k b =
      let seen' = seen + lookup_or 0 i m in
      let next = walk m rank seen' i ks in
      ground (
        arith,
        walk_step seen last i ks,
        walk-Located i seen' i ks s.0 s.1,
        AtMost-trans lo i next a.0,
        weight_at_none_below i m ks s.0,
        int_ltb_irrefl i,
      )

-- In an exact sketch, the bucket found for a rank below the total is the one that holds the sample
-- of that rank in the sorted sequence of all samples: at most `rank` samples lie in lower
-- buckets, and more than `rank` samples lie in this bucket and the lower ones.
pub bucket_at_rank :
    (s : LatencySketch) (rank : ℕ)
    → IsExact s
    → s.total < 18446744073709551616
    → rank < s.total
    → let i = bucket_at s rank in
      (weight (below i) s.counts ≤ rank) × (rank < weight (up_to i) s.counts)
unfolding bucket_at Located
bucket_at_rank s rank e b h =
    let m = s.counts in
    let ks = sort_ints (keys m) in
    let sorted = sort_ints-IsSorted (keys m) in
    let (lo, low) = lower_bound ks sorted in
    let all = weight_at_sorted_keys anywhere m e.distinct in
    let found =
      walk-Located m rank lo 0 (pos 0) ks low sorted (omega arith) (omega (arith, all))
        (omega (arith, all)) in
    let i = bucket_at s rank in
    omega (
      arith,
      found.1,
      weight_at_sorted_keys (below i) m e.distinct,
      weight_at_sorted_keys (up_to i) m e.distinct,
    )
