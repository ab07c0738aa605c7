-- ===== src/Coordinator/Jobs/Split.antt =====
-- On splitVUs and buildSubJobs (coordinator/jobs.go).
use sentry_load.Prelude.{
  ℕ, zero, suc, ◌+◌, ◌*◌, ◌/◌, ◌%◌, ◌≤◌, ◌<◌, min, ◌≡◌, refl, ap, ◌⊎◌, inl, List, [], ◌∷◌, map,
  arith, Text, length, sum, All,
}
use native.Mathlib.Nat.{div-add-mod, mod-lt}
use sentry_load.Coordinator.Jobs.{SubJobSpec, split_from, split_vus, specs_from, build_sub_jobs}

length-split_from : (i n b r : ℕ) → length (split_from i n b r) ≡ n
unfolding split_from
length-split_from i zero b r = refl
length-split_from i (suc n) b r = omega (arith, length-split_from (suc i) n b r)

sum-split_from : (i n b r : ℕ) → sum (split_from i n b r) + min i r ≡ n * b + min (i + n) r
unfolding split_from
sum-split_from i zero b r = ground arith
sum-split_from i (suc n) b r = ground (arith, sum-split_from (suc i) n b r)

even_from : (i n b r : ℕ) → All (λ v. (b ≤ v) × (v ≤ b + 1)) (split_from i n b r)
unfolding split_from
even_from i zero b r = tt
even_from i (suc n) b r = (ground arith, even_from (suc i) n b r)

positive_from : (i n b r : ℕ) → (0 < b) ⊎ (i + n ≤ r) → All (λ v. 0 < v) (split_from i n b r)
unfolding split_from
positive_from i zero b r h = tt
positive_from i (suc n) b r h = (ground arith, positive_from (suc i) n b r (ground arith))

quotient_pos : (total fanout : ℕ) → 0 < fanout → fanout ≤ total → 0 < total / fanout
quotient_pos total fanout h k = grind (arith, div-add-mod total fanout, mod-lt total {m = fanout} h)

-- Where at least one sub-job and no more sub-jobs than virtual users are asked for, the shares add
-- up to the test's virtual users, there are as many shares as sub-jobs, each is the quotient or
-- one more, and each is positive.
pub split_vus_exact :
    (total fanout : ℕ)
    → 0 < fanout
    → fanout ≤ total
    → (sum (split_vus total fanout) ≡ total)
      × (length (split_vus total fanout) ≡ fanout)
      × All (λ v. (total / fanout ≤ v) × (v ≤ total / fanout + 1)) (split_vus total fanout)
      × All (λ v. 0 < v) (split_vus total fanout)
unfolding split_vus
split_vus_exact total fanout h le = (
  grind
      (arith, sum-split_from 0 fanout (total / fanout) (total % fanout), div-add-mod total fanout),
  length-split_from 0 fanout (total / fanout) (total % fanout),
  even_from 0 fanout (total / fanout) (total % fanout),
  positive_from 0 fanout (total / fanout) (total % fanout) (inl (quotient_pos total fanout h le)),
)

vus-specs_from :
    (new_id : ℕ → Text) (n : ℕ) (counts : List ℕ)
    → map (λ (s : SubJobSpec). s.vus) (specs_from new_id n counts) ≡ counts
unfolding specs_from
vus-specs_from new_id n [] = refl
vus-specs_from new_id n (c ∷ counts) =
    ap (λ (l : List ℕ). c ∷ l) (vus-specs_from new_id (suc n) counts)

-- The sub-jobs of a test carry the shares of the split.
pub vus-build_sub_jobs :
    (new_id : ℕ → Text) (n total fanout : ℕ)
    → map (λ (s : SubJobSpec). s.vus) (build_sub_jobs new_id n total fanout)
      ≡ split_vus total fanout
unfolding build_sub_jobs
vus-build_sub_jobs new_id n total fanout = vus-specs_from new_id n (split_vus total fanout)
