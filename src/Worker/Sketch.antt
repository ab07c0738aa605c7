-- ===== src/Worker/Sketch.antt =====
-- worker/sketch.go: the latency histogram that a worker sends along with its metrics.
use sentry_load.Prelude.{
  ℕ, suc, ◌+◌, List, [], ◌∷◌, ◌++◌, map, Text, ltb, if◌then◌else◌, ℤ, pos, int_eq, Map, lookup_or,
  insert, Float,
}
use sentry_load.Prelude.Sorting.{sort_ints}
use sentry_load.Strconv.{itoa}

abbrev pub sketch_format_prefix : Text
sketch_format_prefix = b'v' ∷ b'1' ∷ b':' ∷ []

module _ (F : Type 0) ⦃fl : Float F⦄ where
  -- math.Log((1 + 0.01) / (1 - 0.01))
  sketch_log_gamma : F
  sketch_log_gamma = fl.log (fl.div (fl.lit 101 2) (fl.lit 99 2))

  -- A latency in nanoseconds; past one microsecond the logarithm is positive.
  unfoldable pub sketch_bucket : ℕ → ℤ
  unfolding sketch_log_gamma
  sketch_bucket d =
      let us = fl.div (fl.of_nat d) (fl.of_nat 1000) in
      if fl.le us (fl.of_nat 1)
      then pos 0
      else pos (fl.trunc (fl.ceil (fl.div (fl.log us) sketch_log_gamma)))

-- counts[b]++ for each bucket
unfoldable pub count_buckets : Map ℤ ℕ → List ℤ → Map ℤ ℕ
count_buckets counts [] = counts
count_buckets counts (b ∷ bs) = count_buckets (insert b (lookup_or 0 b counts + 1) counts) bs

unfoldable pub keys : Map ℤ ℕ → List ℤ
keys [] = []
keys ((b, c) ∷ m) = b ∷ keys m

-- What one round of the loop writes after the comma.
unfoldable pub write_bucket : ℤ → ℕ → Text
write_bucket b c = itoa b ++ b':' ∷ itoa (pos c)

unfoldable pub write_buckets : ℕ → Map ℤ ℕ → List ℤ → Text
write_buckets i counts [] = []
write_buckets i counts (b ∷ bs) =
    (if ltb 0 i then b',' ∷ [] else [])
    ++ (write_bucket b (lookup_or 0 b counts) ++ write_buckets (suc i) counts bs)

unfoldable pub encode_buckets : List ℤ → Text
unfolding count_buckets keys write_buckets
encode_buckets bs =
    let counts = count_buckets [] bs in
    sketch_format_prefix ++ write_buckets 0 counts (sort_ints (keys counts))

unfoldable pub encode_latency_sketch : (F : Type 0) ⦃fl : Float F⦄ → List ℕ → Text
unfolding encode_buckets
encode_latency_sketch F latencies = encode_buckets (map (sketch_bucket F) latencies)
