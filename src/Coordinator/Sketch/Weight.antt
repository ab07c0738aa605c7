-- ===== src/Coordinator/Sketch/Weight.antt =====
-- On merge (coordinator/sketch.go): how many samples of a sketch lie in a set of buckets.
use sentry_load.Prelude.{
  ℕ, ◌+◌, ◌≤◌, ◌<◌, ◌≡◌, refl, ap, Bool, true, false, ◌||◌, List, [], ◌∷◌, arith, ◌==◌,
  if◌then◌else◌, ℤ, int_eq, int_beq_iff, Map, lookup, lookup_or, insert,
}
use sentry_load.Coordinator.Sketch.{LatencySketch, u64, add_at, keys, merge, merge_counts}

-- The samples of a histogram whose bucket passes the test `p`.
unfoldable pub weight : (ℤ → Bool) → Map ℤ ℕ → ℕ
weight p [] = 0
weight p ((idx, c) ∷ m) = (if p idx then c else 0) + weight p m

abbrev pub anywhere : ℤ → Bool
anywhere _ = true

unfoldable pub member : ℤ → List ℤ → Bool
member k [] = false
member k (j ∷ ks) = k == j || member k ks

abbrev pub Distinct : List ℤ → Type 0
Distinct [] = Unit
Distinct (k ∷ ks) = (member k ks ≡ false) × Distinct ks

-- No bucket stands twice, and the total is the number of samples.
pub record IsExact (s : LatencySketch) : Type 0 where
  pub counted : s.total ≡ weight anywhere s.counts
  pub distinct : Distinct (keys s.counts)

member-keys-insert :
    (j k : ℤ) (v : ℕ) (m : Map ℤ ℕ) → member j (keys (insert k v m)) ≡ (j == k || member j (keys m))
unfolding member keys insert
member-keys-insert j k v [] = refl
member-keys-insert j k v ((i, c) ∷ m) =
    ground (arith, member-keys-insert j k v m, int_beq_iff i k, int_beq_iff j k, int_beq_iff j i)

pub keys-insert-Distinct :
    (k : ℤ) (v : ℕ) (m : Map ℤ ℕ) → Distinct (keys m) → Distinct (keys (insert k v m))
unfolding member keys insert
keys-insert-Distinct k v [] h = (refl, tt)
keys-insert-Distinct k v ((i, c) ∷ m) h =
    ground (arith, keys-insert-Distinct k v m h.1, member-keys-insert i k v m)

pub add_at-Distinct :
    (k : ℤ) (c : ℕ) (m : Map ℤ ℕ) → Distinct (keys m) → Distinct (keys (add_at k c m))
unfolding add_at
add_at-Distinct k c m h = keys-insert-Distinct k (u64 (lookup_or 0 k m + c)) m h

merge_counts-Distinct : (m n : Map ℤ ℕ) → Distinct (keys m) → Distinct (keys (merge_counts m n))
unfolding merge_counts
merge_counts-Distinct m [] h = h
merge_counts-Distinct m ((k, c) ∷ n) h =
    merge_counts-Distinct (add_at k c m) n (add_at-Distinct k c m h)

pub lookup-le-weight : (k : ℤ) (m : Map ℤ ℕ) → lookup_or 0 k m ≤ weight anywhere m
unfolding lookup lookup_or weight
lookup-le-weight k [] = omega arith
lookup-le-weight k ((j, c) ∷ m) = ground (arith, lookup-le-weight k m)

pub weight-insert :
    (p : ℤ → Bool) (k : ℤ) (v : ℕ) (m : Map ℤ ℕ)
    → weight p (insert k v m) + (if p k then lookup_or 0 k m else 0)
      ≡ weight p m + (if p k then v else 0)
unfolding weight insert lookup lookup_or
weight-insert p k v [] = ground arith
weight-insert p k v ((j, c) ∷ m) = ground (arith, weight-insert p k v m, int_beq_iff j k, ap-p)
  where
    ap-p : j ≡ k → p j ≡ p k
    ap-p e = ap p e

-- An addition that does not wrap adds its samples to the buckets that hold them.
pub weight-add_at :
    (p : ℤ → Bool) (k : ℤ) (c : ℕ) (m : Map ℤ ℕ)
    → weight anywhere m + c < 18446744073709551616
    → weight p (add_at k c m) ≡ weight p m + (if p k then c else 0)
unfolding add_at
weight-add_at p k c m h =
    ground (arith, weight-insert p k (u64 (lookup_or 0 k m + c)) m, lookup-le-weight k m)

pub weight-merge_counts :
    (p : ℤ → Bool) (m n : Map ℤ ℕ)
    → weight anywhere m + weight anywhere n < 18446744073709551616
    → weight p (merge_counts m n) ≡ weight p m + weight p n
unfolding merge_counts weight
weight-merge_counts p m [] h = omega arith
weight-merge_counts p m ((k, c) ∷ n) h = ground (
  arith,
  weight-merge_counts p (add_at k c m) n,
  weight-add_at p k c m,
  weight-add_at anywhere k c m,
)

-- Merging two exact sketches whose samples together fit in 64 bits gives an exact sketch, and each
-- set of buckets holds the samples of both.
pub weight-merge :
    (s t : LatencySketch)
    → IsExact s
    → IsExact t
    → s.total + t.total < 18446744073709551616
    → IsExact (merge s t)
      × (merge s t).total ≡ s.total + t.total
      × ((p : ℤ → Bool) → weight p (merge s t).counts ≡ weight p s.counts + weight p t.counts)
unfolding merge
weight-merge s t hs ht h = (
  record {
    counted = ground (arith, weight-merge_counts anywhere s.counts t.counts);
    distinct = merge_counts-Distinct s.counts t.counts hs.distinct;
  },
  omega arith,
  λ p. ground (arith, weight-merge_counts p s.counts t.counts),
)
