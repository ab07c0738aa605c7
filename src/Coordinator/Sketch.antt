-- ===== src/Coordinator/Sketch.antt =====
-- coordinator/sketch.go: decoding and merging the workers' latency histograms, and reading a
-- percentile off one. Counts are uint64 and wrap.
pub mod Weight
pub mod Quantile
use sentry_load.Prelude.{
  ℕ, zero, suc, ◌+◌, ◌-◌, ◌%◌, Bool, true, false, List, [], ◌∷◌, map, Option, none, some, Text,
  bytes, ltb, ◌==◌, nat_eq, if◌then◌else◌, ℤ, pos, negsuc, int_eq, Map, lookup_or, insert, Float,
}
use sentry_load.Prelude.Sorting.{sort_ints}
use sentry_load.Strings.{cut_prefix, split, cut}
use sentry_load.Strconv.{ok, syntax, range, atoi, parse_uint}

abbrev pub u64 : ℕ → ℕ
u64 n = n % 18446744073709551616

pub record LatencySketch : Type 0 where
  pub counts : Map ℤ ℕ
  pub total : ℕ

abbrev pub empty : LatencySketch
empty = record { counts = []; total = 0 }

-- s.counts[idx] += c
unfoldable pub add_at : ℤ → ℕ → Map ℤ ℕ → Map ℤ ℕ
add_at idx c counts = insert idx (u64 (lookup_or 0 idx counts + c)) counts

-- The body of the decoder's loop, once a pair is parsed.
unfoldable pub add_bucket : ℤ → ℕ → LatencySketch → LatencySketch
add_bucket idx count sk = record {
  counts = add_at idx count sk.counts;
  total = u64 (sk.total + count);
}

unfoldable pub decode_pair : Text → Option (ℤ × ℕ)
decode_pair pair = elim (cut b':' pair) [
  | none ↦ none
  | some (idx_text, count_text) ↦ elim (atoi idx_text) [
    | ok idx ↦ elim (parse_uint count_text) [ ok count ↦ some (idx, count) | _ ↦ none ]
    | _ ↦ none
  ]
]

unfoldable pub decode_pairs : List Text → LatencySketch → Option LatencySketch
decode_pairs [] sk = some sk
decode_pairs (pair ∷ pairs) sk = elim (decode_pair pair) [
  | none ↦ none
  | some (idx, count) ↦ decode_pairs pairs (add_bucket idx count sk)
]

abbrev pub sketch_format_prefix : Text
sketch_format_prefix = b'v' ∷ b'1' ∷ b':' ∷ []

-- `none` stands for each of the decoder's errors.
unfoldable pub decode_latency_sketch : Text → Option LatencySketch
unfolding decode_pair decode_pairs
decode_latency_sketch s = elim (cut_prefix s sketch_format_prefix) [
  | none ↦ none
  | some [] ↦ some empty
  | some (c ∷ body) ↦ decode_pairs (split b',' (c ∷ body)) empty
]

pub merge_counts : Map ℤ ℕ → Map ℤ ℕ → Map ℤ ℕ
merge_counts counts [] = counts
merge_counts counts ((idx, c) ∷ other) = merge_counts (add_at idx c counts) other

unfoldable pub merge : LatencySketch → LatencySketch → LatencySketch
unfolding merge_counts
merge s other = record {
  counts = merge_counts s.counts other.counts;
  total = u64 (s.total + other.total);
}

-- The keys that the loop over the map collects.
unfoldable pub keys : Map ℤ ℕ → List ℤ
keys [] = []
keys ((idx, c) ∷ m) = idx ∷ keys m

-- The loop over the sorted keys; past the last key it returns that key.
walk : Map ℤ ℕ → ℕ → ℕ → ℤ → List ℤ → ℤ
walk counts rank seen last [] = last
walk counts rank seen last (idx ∷ idxs) =
    let seen' = u64 (seen + lookup_or 0 idx counts) in
    let rest = walk counts rank seen' idx idxs in if ltb rank seen' then idx else rest

-- The bucket that holds the sample of the given rank.
unfoldable pub bucket_at : LatencySketch → ℕ → ℤ
unfolding walk keys
bucket_at s rank = walk s.counts rank 0 (pos 0) (sort_ints (keys s.counts))

module _ {F : Type 0} ⦃fl : Float F⦄ where
  -- (1 + 0.01) / (1 - 0.01)
  sketch_gamma : F
  sketch_gamma = fl.div (fl.lit 101 2) (fl.lit 99 2)

  unfoldable pub bucket_value_micros : ℤ → F
  unfolding sketch_gamma
  bucket_value_micros (negsuc n) = fl.of_nat 1
  bucket_value_micros (pos idx) =
      if idx == 0
      then fl.of_nat 1
      else fl.div (fl.mul (fl.of_nat 2) (fl.pow sketch_gamma (fl.of_nat idx)))
          (fl.add sketch_gamma (fl.of_nat 1))

  -- uint64(q * float64(s.total-1))
  unfoldable pub rank_of : F → ℕ → ℕ
  rank_of q total = fl.trunc (fl.mul q (fl.of_nat (total - 1)))

  unfoldable pub quantile_ms : LatencySketch → F → Option F
  unfolding bucket_at rank_of
  quantile_ms s q =
      if s.total == 0
      then none
      else some (fl.div (bucket_value_micros (bucket_at s (rank_of q s.total))) (fl.of_nat 1000))
