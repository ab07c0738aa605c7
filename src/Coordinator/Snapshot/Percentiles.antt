-- ===== src/Coordinator/Snapshot/Percentiles.antt =====
-- On combinedPercentiles (coordinator/teststore.go).
use sentry_load.Prelude.{
  ℕ, ◌+◌, ◌<◌, ◌≡◌, refl, ◌⊎◌, inl, inr, Bool, true, false, not, ◌&&◌, [], ◌∷◌, none, some, arith,
  Text, ◌==◌, if◌then◌else◌, Bool-cases, Option-cases, ℤ, pos, int_eq, Map, Float,
}
use sentry_load.Coordinator.Sketch
use sentry_load.Coordinator.Sketch.{LatencySketch, merge, empty}
use sentry_load.Coordinator.Sketch.Weight.{weight, anywhere, IsExact, weight-merge}
use sentry_load.Coordinator.Snapshot.{SubJobState, merge_sketches, percentile, combined_percentiles}
use sentry_load.Coordinator.Snapshot.Merge.{any_sub_job}

module _ {F : Type 0} where
  -- A sub-job that has sent requests and no sketch.
  unfoldable pub lacks_sketch : SubJobState F → Bool
  lacks_sketch sj = not (sj.requests == pos 0) && elim sj.sketch [ none ↦ true | some _ ↦ false ]

  -- The samples, in the buckets that pass `p`, of the sub-jobs that have sent requests.
  unfoldable pub reported : (ℤ → Bool) → Map Text (SubJobState F) → ℕ
  reported p [] = 0
  reported p ((id, sj) ∷ m) =
      (if sj.requests == pos 0
        then 0
        else elim sj.sketch [ none ↦ 0 | some sk ↦ weight p sk.counts ])
      + reported p m

  abbrev pub AllExact : Map Text (SubJobState F) → Type 0
  AllExact [] = Unit
  AllExact ((id, sj) ∷ m) = elim sj.sketch [ none ↦ Unit | some sk ↦ IsExact sk ] × AllExact m

module _ {F : Type 0} ⦃fl : Float F⦄ where
  merge_sketches_missing :
      (m : Map Text (SubJobState F)) (sk : LatencySketch)
      → any_sub_job lacks_sketch m ≡ true
      → merge_sketches m sk ≡ none
  unfolding any_sub_job lacks_sketch merge_sketches
  merge_sketches_missing [] sk h = cc
  merge_sketches_missing ((id, sj) ∷ m) sk h = elim (Option-cases sj.sketch) [
    | inl missing ↦ ground (arith, merge_sketches_missing m sk)
    | inr (sk', found) ↦
        ground (arith, merge_sketches_missing m sk, merge_sketches_missing m (merge sk sk'))
  ]

  merge_sketches-reported :
      (m : Map Text (SubJobState F)) (sk : LatencySketch)
      → any_sub_job lacks_sketch m ≡ false
      → AllExact m
      → IsExact sk
      → sk.total + reported anywhere m < 18446744073709551616
      → (merged : LatencySketch) × (merge_sketches m sk ≡ some merged)
        × IsExact merged
        × ((p : ℤ → Bool) → weight p merged.counts ≡ weight p sk.counts + reported p m)
  unfolding any_sub_job lacks_sketch merge_sketches reported
  merge_sketches-reported [] sk h a e b = (sk, refl, e, λ p. omega arith)
  merge_sketches-reported ((id, sj) ∷ m) sk h a e b = elim (Bool-cases (sj.requests == pos 0)) [
    | inl idle ↦
        let rest = merge_sketches-reported m sk (ground arith) a.1 e (ground arith) in
        (rest.0, ground (arith, rest), rest.2, λ p. ground (arith, rest.3 p))
    | inr busy ↦ elim (Option-cases sj.sketch) [
      | inl missing ↦ absurd (ground arith)
      | inr (sk', found) ↦
          let exact = rw found at a.0 in
          let merged = weight-merge sk sk' e exact (ground (arith, exact.counted)) in
          let rest =
            merge_sketches-reported m (merge sk sk') (ground arith) a.1 merged.0
              (ground (arith, exact.counted, merged.1)) in
          (rest.0, ground (arith, rest), rest.2, λ p. ground (arith, rest.3 p, merged.2 p))
    ]
  ]

  -- Where the sketches are exact and the samples of the sub-jobs that have sent requests together
  -- fit in 64 bits: if one of these sub-jobs has no sketch, no percentile is given; if each has one,
  -- the percentiles are those of one exact sketch, in which every set of buckets holds the samples
  -- of all of them.
  pub combined_percentiles_cases :
      (m : Map Text (SubJobState F))
      → AllExact m
      → reported anywhere m < 18446744073709551616
      → ((any_sub_job lacks_sketch m ≡ true) × (combined_percentiles m ≡ (none, none, none)))
        ⊎ ((any_sub_job lacks_sketch m ≡ false)
            × (merged : LatencySketch) × IsExact merged
            × ((p : ℤ → Bool) → weight p merged.counts ≡ reported p m)
            × (combined_percentiles m ≡ (
              percentile merged (fl.lit 50 2),
              percentile merged (fl.lit 95 2),
              percentile merged (fl.lit 99 2),
            )))
  unfolding combined_percentiles
  combined_percentiles_cases m a b = elim (Bool-cases (any_sub_job lacks_sketch m)) [
    | inl lacks ↦ inl (lacks, ground (arith, merge_sketches_missing m empty lacks))
    | inr has ↦
        let exact : IsExact empty =
          unfold weight Sketch.keys in record { counted = refl; distinct = tt } in
        let (merged, e, x, w) = merge_sketches-reported m empty has a exact (omega arith) in
        inr (has, merged, x, λ p. unfold weight in omega (arith, w p), rw (e, combined_percentiles))
  ]
