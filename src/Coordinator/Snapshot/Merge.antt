-- ===== src/Coordinator/Snapshot/Merge.antt =====
-- On buildSnapshot (coordinator/teststore.go).
use mathlib.Core.Path.{ap₂}
use native.Mathlib.Nat.{add_assoc}
use mathlib.Core.List.Perm
use mathlib.Core.List.{Perm}
use sentry_load.Prelude.{
  ℕ, ◌+◌, ◌<◌, ◌≡◌, refl, sym, ◌∙◌, inl, inr, Bool, true, false, ◌&&◌, ◌||◌, List, [], ◌∷◌, ◌++◌,
  arith, append-nil, append_assoc, All, Text, text_eq, nat_eq, Bool-cases, ℤ, pos, int_eq, int_add,
  int_add-pos, pos_part, Map, Float,
}
use sentry_load.Coordinator.Snapshot.{
  SubJobState, TestState, SubJobSnapshot, TestSnapshot, text_ltb, all_sub_jobs_done,
  sub_job_snapshot, insert_by_id, sort_by_id, absorb, absorb_all, unmerged, build_snapshot,
}

module _ {F : Type 0} where
  -- Some sub-job has the property.
  unfoldable pub any_sub_job : (SubJobState F → Bool) → Map Text (SubJobState F) → Bool
  any_sub_job p [] = false
  any_sub_job p ((id, sj) ∷ rest) = p sj || any_sub_job p rest

  unfoldable pub sum_of : (SubJobState F → ℤ) → Map Text (SubJobState F) → ℕ
  sum_of f [] = 0
  sum_of f ((id, sj) ∷ rest) = pos_part (f sj) + sum_of f rest

  abbrev pub AllCounts : (SubJobState F → ℤ) → Map Text (SubJobState F) → Type 0
  AllCounts f [] = Unit
  AllCounts f ((id, sj) ∷ rest) = (f sj ≡ pos (pos_part (f sj))) × AllCounts f rest

  -- What the loop appends, in the order of the map.
  unfoldable pub views : Map Text (SubJobState F) → List (SubJobSnapshot F)
  unfolding sub_job_snapshot
  views [] = []
  views ((id, sj) ∷ rest) = sub_job_snapshot id sj ∷ views rest

  insert_by_id-perm :
      (a : SubJobSnapshot F) (l : List (SubJobSnapshot F)) → Perm (insert_by_id a l) (a ∷ l)
  unfolding insert_by_id
  insert_by_id-perm a [] = Perm.refl (a ∷ [])
  insert_by_id-perm a (b ∷ l) = elim (Bool-cases (text_ltb b.job_id a.job_id)) [
    | inl e ↦ rw e (Perm.trans (Perm.cons b (insert_by_id-perm a l)) (Perm.swap a b l))
    | inr e ↦ rw e (Perm.refl (a ∷ b ∷ l))
  ]

  sort_by_id-perm : (l : List (SubJobSnapshot F)) → Perm (sort_by_id l) l
  unfolding sort_by_id
  sort_by_id-perm [] = Perm.refl []
  sort_by_id-perm (a ∷ l) =
      Perm.trans (insert_by_id-perm a (sort_by_id l)) (Perm.cons a (sort_by_id-perm l))

text_ltb_asym : (s t : Text) → text_ltb s t ≡ true → text_ltb t s ≡ false
unfolding text_ltb
text_ltb_asym [] [] h = cc
text_ltb_asym [] (d ∷ t) h = refl
text_ltb_asym (c ∷ s) [] h = cc
text_ltb_asym (c ∷ s) (d ∷ t) h = ground (arith, text_ltb_asym s t)

-- Not greater is transitive.
text_le_trans : (s t u : Text) → text_ltb t s ≡ false → text_ltb u t ≡ false → text_ltb u s ≡ false
unfolding text_ltb
text_le_trans [] t u h k = refl
text_le_trans (c ∷ s) [] u h k = cc
text_le_trans (c ∷ s) (d ∷ t) [] h k = cc
text_le_trans (c ∷ s) (d ∷ t) (e ∷ u) h k = ground (arith, text_le_trans s t u)

module _ {F : Type 0} where
  abbrev pub NotAfter : SubJobSnapshot F → SubJobSnapshot F → Type 0
  NotAfter a b = text_ltb b.job_id a.job_id ≡ false

  abbrev pub IsSortedById : List (SubJobSnapshot F) → Type 0
  IsSortedById [] = Unit
  IsSortedById (a ∷ l) = All (NotAfter a) l × IsSortedById l

  insert_by_id-All :
      (P : SubJobSnapshot F → Type 0) (a : SubJobSnapshot F) (l : List (SubJobSnapshot F))
      → P a
      → All P l
      → All P (insert_by_id a l)
  unfolding insert_by_id
  insert_by_id-All P a [] h k = (h, tt)
  insert_by_id-All P a (b ∷ l) h k = elim (Bool-cases (text_ltb b.job_id a.job_id)) [
    | inl e ↦ rw e (k.0, insert_by_id-All P a l h k.1)
    | inr e ↦ rw e (h, k)
  ]

  NotAfter-All :
      (a b : SubJobSnapshot F) (l : List (SubJobSnapshot F))
      → NotAfter a b
      → All (NotAfter b) l
      → All (NotAfter a) l
  NotAfter-All a b [] h k = tt
  NotAfter-All a b (c ∷ l) h k =
      (text_le_trans a.job_id b.job_id c.job_id h k.0, NotAfter-All a b l h k.1)

  insert_by_id-IsSortedById :
      (a : SubJobSnapshot F) (l : List (SubJobSnapshot F))
      → IsSortedById l
      → IsSortedById (insert_by_id a l)
  unfolding insert_by_id
  insert_by_id-IsSortedById a [] h = (tt, tt)
  insert_by_id-IsSortedById a (b ∷ l) h = elim (Bool-cases (text_ltb b.job_id a.job_id)) [
    | inl e ↦ rw e (
      insert_by_id-All (NotAfter b) a l (text_ltb_asym b.job_id a.job_id e) h.0,
      insert_by_id-IsSortedById a l h.1,
    )
    | inr e ↦ rw e ((e, NotAfter-All a b l e h.0), h)
  ]

  sort_by_id-IsSortedById : (l : List (SubJobSnapshot F)) → IsSortedById (sort_by_id l)
  unfolding sort_by_id
  sort_by_id-IsSortedById [] = tt
  sort_by_id-IsSortedById (a ∷ l) =
      insert_by_id-IsSortedById a (sort_by_id l) (sort_by_id-IsSortedById l)

module _ {F : Type 0} ⦃fl : Float F⦄ where
  sub_jobs-absorb_all :
      (m : Map Text (SubJobState F)) (snap : TestSnapshot F)
      → (absorb_all m snap).sub_jobs ≡ snap.sub_jobs ++ views m
  unfolding absorb_all views
  sub_jobs-absorb_all [] snap = sym (append-nil snap.sub_jobs)
  sub_jobs-absorb_all ((id, sj) ∷ m) snap =
      sub_jobs-absorb_all m _ ∙ append_assoc snap.sub_jobs (sub_job_snapshot id sj ∷ []) (views m)

  flags-absorb_all :
      (m : Map Text (SubJobState F)) (snap : TestSnapshot F)
      → ((absorb_all m snap).done ≡ (all_sub_jobs_done m && snap.done))
        × ((absorb_all m snap).circuit_broken
            ≡ (any_sub_job (λ sj. sj.circuit_broken) m || snap.circuit_broken))
        × ((absorb_all m snap).abandoned ≡ (any_sub_job (λ sj. sj.abandoned) m || snap.abandoned))
  unfolding absorb_all absorb all_sub_jobs_done any_sub_job
  flags-absorb_all [] snap = ground arith
  flags-absorb_all ((id, sj) ∷ m) snap = ground (arith, flags-absorb_all m (absorb id sj snap))

  totals-absorb_all :
      (m : Map Text (SubJobState F)) (snap : TestSnapshot F) (r e : ℕ)
      → snap.total_requests ≡ pos r
      → snap.total_errors ≡ pos e
      → AllCounts (λ sj. sj.requests) m
      → AllCounts (λ sj. sj.errors) m
      → r + sum_of (λ sj. sj.requests) m < 9223372036854775808
      → e + sum_of (λ sj. sj.errors) m < 9223372036854775808
      → ((absorb_all m snap).total_requests ≡ pos (r + sum_of (λ sj. sj.requests) m))
        × ((absorb_all m snap).total_errors ≡ pos (e + sum_of (λ sj. sj.errors) m))
  unfolding absorb_all absorb sum_of
  totals-absorb_all [] snap r e hr he cr ce br be = ground arith
  totals-absorb_all ((id, sj) ∷ m) snap r e hr he cr ce br be =
      let rest =
        totals-absorb_all m (absorb id sj snap) (r + pos_part sj.requests) (e + pos_part sj.errors)
          (ap₂ int_add hr cr.0 ∙ int_add-pos r (pos_part sj.requests) (omega arith))
          (ap₂ int_add he ce.0 ∙ int_add-pos e (pos_part sj.errors) (omega arith)) cr.1 ce.1
          (omega arith) (omega arith) in
      ground (
        arith,
        rest,
        add_assoc r (pos_part sj.requests) (sum_of (λ sj. sj.requests) m),
        add_assoc e (pos_part sj.errors) (sum_of (λ sj. sj.errors) m),
      )

  -- The snapshot of a test is done exactly when every sub-job is, and is marked circuit-broken or
  -- abandoned exactly when some sub-job is.
  pub build_snapshot_flags :
      (t : TestState F)
      → ((build_snapshot t).done ≡ all_sub_jobs_done t.sub_jobs)
        × ((build_snapshot t).circuit_broken ≡ any_sub_job (λ sj. sj.circuit_broken) t.sub_jobs)
        × ((build_snapshot t).abandoned ≡ any_sub_job (λ sj. sj.abandoned) t.sub_jobs)
  unfolding build_snapshot
  build_snapshot_flags t = ground (arith, flags-absorb_all t.sub_jobs (unmerged t))

  -- Where the sub-jobs' counts are not negative and add up to less than 2^63, the snapshot's
  -- totals are their sums.
  pub build_snapshot_totals :
      (t : TestState F)
      → AllCounts (λ sj. sj.requests) t.sub_jobs
      → AllCounts (λ sj. sj.errors) t.sub_jobs
      → sum_of (λ sj. sj.requests) t.sub_jobs < 9223372036854775808
      → sum_of (λ sj. sj.errors) t.sub_jobs < 9223372036854775808
      → ((build_snapshot t).total_requests ≡ pos (sum_of (λ sj. sj.requests) t.sub_jobs))
        × ((build_snapshot t).total_errors ≡ pos (sum_of (λ sj. sj.errors) t.sub_jobs))
  unfolding build_snapshot
  build_snapshot_totals t cr ce br be =
      ground (arith, totals-absorb_all t.sub_jobs (unmerged t) 0 0 refl refl cr ce)

  -- The snapshot lists each sub-job of the test once, as it was last reported, and in the order of
  -- the job IDs, whatever the order of the map.
  pub build_snapshot_sub_jobs :
      (t : TestState F)
      → Perm (build_snapshot t).sub_jobs (views t.sub_jobs)
        × IsSortedById (build_snapshot t).sub_jobs
  unfolding build_snapshot
  build_snapshot_sub_jobs t =
      let e = sub_jobs-absorb_all t.sub_jobs (unmerged t) in
      (rw e (sort_by_id-perm (views t.sub_jobs)), sort_by_id-IsSortedById _)
