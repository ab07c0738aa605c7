-- ===== src/Wire/Sketch.antt =====
-- worker/sketch.go writes what coordinator/sketch.go reads: the histogram of the samples.
use sentry_load.Prelude.{
  ℕ, suc, ◌+◌, ◌≤◌, ◌<◌, ◌≡◌, refl, sym, ◌∙◌, ap, inl, inr, Bool, true, ◌==◌, Bool-cases, List, [],
  ◌∷◌, ◌++◌, some, arith, length, All, Text, ltb, if◌then◌else◌, ℤ, pos, negsuc, int_eq, Map,
  lookup_or, insert, append-nil, append_assoc, subst,
}
use sentry_load.Prelude.Sorting.{insert_sorted-All, sort_ints}
use sentry_load.Strings.{
  Free, Free-append, cut-append, split, split_single, split-append, cut_prefix,
}
use sentry_load.Strconv.{int64_limit, itoa, format_nat}
use sentry_load.Strconv.RoundTrip.{atoi-format_nat, parse_uint-format_nat, format_nat-Free}
use sentry_load.Coordinator.Sketch.{
  LatencySketch, empty, add_at, add_bucket, decode_pair, decode_pairs, decode_latency_sketch, merge,
  bucket_at,
}
use sentry_load.Coordinator.Sketch
use sentry_load.Coordinator.Sketch.Weight.{
  weight, anywhere, Distinct, IsExact, lookup-le-weight, weight-insert, keys-insert-Distinct,
  weight-add_at, add_at-Distinct, weight-merge,
}
use sentry_load.Coordinator.Sketch.Quantile.{
  weight_at, weight_at_sorted_keys, below, up_to, bucket_at_rank,
}
use sentry_load.Worker.Sketch.{keys, count_buckets, write_bucket, write_buckets, encode_buckets}

-- The samples whose bucket passes the test.
unfoldable pub count_where : (ℤ → Bool) → List ℤ → ℕ
count_where p [] = 0
count_where p (b ∷ bs) = (if p b then 1 else 0) + count_where p bs

-- A bucket index that a worker sends: from 0, and in the range of int.
abbrev pub IsBucket : ℤ → Type 0
IsBucket (pos n) = n < int64_limit
IsBucket (negsuc n) = ⊥

decode-write_bucket :
    (b : ℤ) (c : ℕ) → IsBucket b → c < int64_limit → decode_pair (write_bucket b c) ≡ some (b, c)
unfolding decode_pair write_bucket itoa
decode-write_bucket (negsuc n) c h k = absurd h
decode-write_bucket (pos n) c h k = ground (
  arith,
  cut-append 58 (format_nat n) (format_nat c) (format_nat-Free 58 n (inr (omega arith))),
  atoi-format_nat n h,
  parse_uint-format_nat c (omega arith),
)

write_bucket-Free : (b : ℤ) (c : ℕ) → IsBucket b → Free 44 (write_bucket b c)
unfolding write_bucket itoa
write_bucket-Free (negsuc n) c h = absurd h
write_bucket-Free (pos n) c h =
    Free-append 44 (format_nat n) (58 ∷ format_nat c) (format_nat-Free 44 n (inl (omega arith)))
      (refl, format_nat-Free 44 c (inl (omega arith)))

-- What the decoder makes of the pairs of `ks`.
add_all : Map ℤ ℕ → List ℤ → LatencySketch → LatencySketch
add_all m [] sk = sk
add_all m (k ∷ ks) sk = add_all m ks (add_bucket k (lookup_or 0 k m) sk)

module _ (m : Map ℤ ℕ) where
  write_tail :
      (i : ℕ) (b : ℤ) (bs : List ℤ)
      → write_buckets (suc i) m (b ∷ bs)
        ≡ 44 ∷ (write_bucket b (lookup_or 0 b m) ++ write_buckets (suc (suc i)) m bs)
  unfolding write_buckets
  write_tail i b bs = let e : ltb 0 (suc i) ≡ true = ground arith in rw e

  split_buckets :
      (i : ℕ) (b : ℤ) (bs : List ℤ) (sk : LatencySketch)
      → ((k : ℤ) → lookup_or 0 k m < int64_limit)
      → All IsBucket (b ∷ bs)
      → decode_pairs (split 44 (write_bucket b (lookup_or 0 b m) ++ write_buckets (suc i) m bs)) sk
        ≡ some (add_all m (b ∷ bs) sk)
  unfolding decode_pairs add_all
  split_buckets i b [] sk small h =
      let c = lookup_or 0 b m in
      rw (append_nil_tail i c) (
        rw (split_single 44 (write_bucket b c) (write_bucket-Free b c h.0))
          (rw (decode-write_bucket b c h.0 (small b), decode_pairs)))
    where
      append_nil_tail :
          (i c : ℕ) → write_bucket b c ++ write_buckets (suc i) m [] ≡ write_bucket b c
      append_nil_tail i c = unfold write_buckets in append-nil (write_bucket b c)
  split_buckets i b (b' ∷ bs) sk small h =
      let c = lookup_or 0 b m in
      let rest = write_bucket b' (lookup_or 0 b' m) ++ write_buckets (suc (suc i)) m bs in
      rw (write_tail i b' bs) (
        rw (split-append 44 (write_bucket b c) rest (write_bucket-Free b c h.0)) (
          rw (decode-write_bucket b c h.0 (small b), decode_pairs)
            (split_buckets (suc i) b' bs (add_bucket b c sk) small h.1)))

  weight-add_all :
      (ks : List ℤ) (sk : LatencySketch)
      → IsExact sk
      → sk.total + weight_at anywhere m ks < 18446744073709551616
      → IsExact (add_all m ks sk)
        × ((p : ℤ → Bool)
            → weight p (add_all m ks sk).counts ≡ weight p sk.counts + weight_at p m ks)
  unfolding add_all weight_at add_bucket
  weight-add_all [] sk e h = (e, λ p. omega arith)
  weight-add_all (k ∷ ks) sk e h =
      let c = lookup_or 0 k m in
      let added = weight-add_at anywhere k c sk.counts (omega (arith, e.counted)) in
      let exact : IsExact (add_bucket k c sk) = record {
        counted = omega (arith, e.counted, added);
        distinct = add_at-Distinct k c sk.counts e.distinct;
      } in
      let rest = weight-add_all ks (add_bucket k c sk) exact (omega arith) in
      (
        rest.0,
        λ p. omega (arith, rest.1 p, weight-add_at p k c sk.counts (omega (arith, e.counted))),
      )

module _ where
  keys-eq : (m : Map ℤ ℕ) → keys m ≡ Sketch.keys m
  unfolding keys Sketch.keys
  keys-eq [] = refl
  keys-eq ((k, c) ∷ m) = ap (λ (l : List ℤ). k ∷ l) (keys-eq m)

-- The worker's map holds each bucket once, with the number of its samples.
weight-count_buckets :
    (bs : List ℤ) (m : Map ℤ ℕ)
    → Distinct (Sketch.keys m)
    → Distinct (Sketch.keys (count_buckets m bs))
      × ((p : ℤ → Bool) → weight p (count_buckets m bs) ≡ weight p m + count_where p bs)
unfolding count_buckets count_where
weight-count_buckets [] m d = (d, λ p. omega arith)
weight-count_buckets (b ∷ bs) m d =
    let c = lookup_or 0 b m in
    let rest = weight-count_buckets bs (insert b (c + 1) m) (keys-insert-Distinct b (c + 1) m d) in
    (rest.0, λ p. ground (arith, rest.1 p, weight-insert p b (c + 1) m))

keys-insert-All :
    (k : ℤ) (v : ℕ) (m : Map ℤ ℕ)
    → IsBucket k
    → All IsBucket (keys m)
    → All IsBucket (keys (insert k v m))
unfolding keys insert
keys-insert-All k v [] h a = (h, tt)
keys-insert-All k v ((j, w) ∷ m) h a = elim (Bool-cases (j == k)) [
  | inl e ↦ rw e a
  | inr e ↦ rw e (a.0, keys-insert-All k v m h a.1)
]

count_buckets-All :
    (bs : List ℤ) (m : Map ℤ ℕ)
    → All IsBucket bs
    → All IsBucket (keys m)
    → All IsBucket (keys (count_buckets m bs))
unfolding count_buckets
count_buckets-All [] m h a = a
count_buckets-All (b ∷ bs) m h a =
    count_buckets-All bs _ h.1 (keys-insert-All b (lookup_or 0 b m + 1) m h.0 a)

sort_ints-All : (ks : List ℤ) → All IsBucket ks → All IsBucket (sort_ints ks)
unfolding sort_ints
sort_ints-All [] h = tt
sort_ints-All (k ∷ ks) h = insert_sorted-All IsBucket k (sort_ints ks) h.0 (sort_ints-All ks h.1)

count_where-anywhere : (bs : List ℤ) → count_where anywhere bs ≡ length bs
unfolding count_where
count_where-anywhere [] = refl
count_where-anywhere (b ∷ bs) = omega (arith, count_where-anywhere bs)

decode_body :
    (s : Text) (x : ℕ) (t : Text)
    → decode_latency_sketch (118 ∷ 49 ∷ 58 ∷ (s ++ x ∷ t))
      ≡ decode_pairs (split 44 (s ++ x ∷ t)) empty
unfolding decode_latency_sketch cut_prefix
decode_body [] x t = refl
decode_body (c ∷ s) x t = refl

decode_written :
    (m : Map ℤ ℕ) (ks : List ℤ)
    → ((k : ℤ) → lookup_or 0 k m < int64_limit)
    → All IsBucket ks
    → decode_latency_sketch (118 ∷ 49 ∷ 58 ∷ write_buckets 0 m ks) ≡ some (add_all m ks empty)
decode_written m [] small h = unfold decode_latency_sketch cut_prefix write_buckets add_all in refl
decode_written m (k ∷ ks) small h =
    let c = lookup_or 0 k m in
    let tail = write_buckets 1 m ks in
    let e : write_bucket k c ++ tail ≡ itoa k ++ 58 ∷ (itoa (pos c) ++ tail) =
      unfold write_bucket in append_assoc (itoa k) (58 ∷ itoa (pos c)) tail in
    let first : write_buckets 0 m (k ∷ ks) ≡ write_bucket k c ++ tail =
      unfold write_buckets in refl in
    rw first (
      subst
        (λ (s : Text).
          decode_pairs (split 44 s) empty ≡ some (add_all m (k ∷ ks) empty)
          → decode_latency_sketch (118 ∷ 49 ∷ 58 ∷ s) ≡ some (add_all m (k ∷ ks) empty))
        (sym e) (λ q. decode_body (itoa k) 58 (itoa (pos c) ++ tail) ∙ q)
        (split_buckets m 0 k ks empty small h))

-- The coordinator decodes the text that a worker writes for fewer than 2^63 samples to an exact
-- sketch of those samples: as many in total, and as many in every set of buckets.
pub decode-encode_buckets :
    (bs : List ℤ)
    → All IsBucket bs
    → length bs < int64_limit
    → (sk : LatencySketch) × (decode_latency_sketch (encode_buckets bs) ≡ some sk)
      × IsExact sk
      × (sk.total ≡ length bs)
      × ((p : ℤ → Bool) → weight p sk.counts ≡ count_where p bs)
unfolding encode_buckets Sketch.keys
decode-encode_buckets bs h small =
    let m = count_buckets [] bs in
    let ks = sort_ints (keys m) in
    let (distinct, counted) = weight-count_buckets bs [] tt in
    let whole = count_where-anywhere bs in
    let at : (p : ℤ → Bool) → weight_at p m ks ≡ count_where p bs = λ p.
      rw (keys-eq m)
        (unfold weight in omega (arith, weight_at_sorted_keys p m distinct, counted p)) in
    let all =
      weight-add_all m ks empty (record { counted = unfold weight in refl; distinct = tt })
        (omega (arith, at anywhere)) in
    let sk = add_all m ks empty in
    (
      sk,
      decode_written m ks
          (λ k. unfold weight in omega (arith, lookup-le-weight k m, counted anywhere))
          (sort_ints-All (keys m) (count_buckets-All bs [] h tt)),
      all.0,
      unfold weight in omega (arith, all.0.counted, all.1 anywhere, at anywhere),
      λ p. unfold weight in omega (arith, all.1 p, at p),
    )

module _ (bs cs : List ℤ) (hb : All IsBucket bs) (hc : All IsBucket cs) where
  -- Where two workers' samples together fit in 63 bits, each sketch decodes, and every bucket
  -- that the coordinator reads off the merged sketch is the one that holds the sample of that
  -- rank among the samples of both workers.
  pub merged_rank :
      (rank : ℕ)
      → length bs + length cs < int64_limit
      → rank < length bs + length cs
      → (sk : LatencySketch) × (tk : LatencySketch) × (decode_latency_sketch (encode_buckets bs)
          ≡ some sk)
        × (decode_latency_sketch (encode_buckets cs) ≡ some tk)
        × (let i = bucket_at (merge sk tk) rank in
            (count_where (below i) bs + count_where (below i) cs ≤ rank)
            × (rank < count_where (up_to i) bs + count_where (up_to i) cs))
  merged_rank rank small h =
      let (sk, ds, es, ts, ws) = decode-encode_buckets bs hb (omega arith) in
      let (tk, dt, et, tt', wt) = decode-encode_buckets cs hc (omega arith) in
      let (em, tm, wm) = weight-merge sk tk es et (omega arith) in
      let found = bucket_at_rank (merge sk tk) rank em (omega arith) (omega arith) in
      let i = bucket_at (merge sk tk) rank in
      (
        sk,
        tk,
        ds,
        dt,
        omega (
          arith,
          found,
          wm (below i),
          ws (below i),
          wt (below i),
          wm (up_to i),
          ws (up_to i),
          wt (up_to i),
        ),
      )
