-- ===== src/Coordinator/TestStore/Runs.antt =====
-- On Update and MarkAbandoned (coordinator/teststore.go), over the messages of the results stream.
use sentry_load.Prelude.{
  ℕ, ◌+◌, ◌≡◌, ◌⊎◌, inl, inr, refl, sym, subst, false≢true, ◌∙◌, Bool, true, false, not, ◌&&◌, ◌||◌,
  List, [], ◌∷◌, none, some, arith, Text, text_eq, ◌==◌, if◌then◌else◌, Bool-cases, Option-cases,
  same_iff, insert, lookup-insert_self, Float, All,
}
use sentry_load.Coordinator.Snapshot.{SubJobState}
use sentry_load.Coordinator.TestStore.{
  ResultUpdate, TestStore, change_sub_job, apply_update, update, abandon, mark_abandoned,
}
use sentry_load.Coordinator.TestStore.Finish.{
  known, is_finished, owner_of, change_unknown, known-change, owner_of-change,
  is_finished-change_ne, result-change, tests-change, known-inv, is_finished_lem,
  done-insert-insert, done-insert_open, finished-change,
}

-- A message of the results stream: what its worker reported of a sub-job, or that the fleet gave
-- it up.
pub data Message (F : Type 0) : Type 0 where
  reports : Text → Text → ResultUpdate F → Message F
  abandons : Text → Text → Message F

module _ {F : Type 0} ⦃fl : Float F⦄ where
  unfoldable pub receive : Message F → TestStore F → TestStore F × Bool
  unfolding update mark_abandoned
  receive (reports test_id job_id u) s = update test_id job_id u s
  receive (abandons test_id job_id) s = mark_abandoned test_id job_id s

  abbrev pub about : Message F → Text
  about (reports test_id job_id u) = test_id
  about (abandons test_id job_id) = test_id

  -- The message leaves its sub-job done.
  abbrev pub is_final : Message F → Bool
  is_final (reports test_id job_id u) = u.done
  is_final (abandons test_id job_id) = true

  -- How often the messages made `test_id` finish.
  unfoldable pub finishes : Text → List (Message F) → TestStore F → ℕ
  finishes test_id [] s = 0
  finishes test_id (m ∷ ms) s =
      let (s', finished) = receive m s in
      (if about m == test_id && finished then 1 else 0) + finishes test_id ms s'

  unfoldable pub receive_all : List (Message F) → TestStore F → TestStore F
  receive_all [] s = s
  receive_all (m ∷ ms) s = receive_all ms (receive m s).0

  -- The state that a message gives its sub-job.
  abbrev pub new_state : Message F → SubJobState F → SubJobState F
  new_state (reports test_id job_id u) = apply_update u
  new_state (abandons test_id job_id) = abandon

  abbrev pub job_of : Message F → Text
  job_of (reports test_id job_id u) = job_id
  job_of (abandons test_id job_id) = job_id

  pub receive_lem :
      (m : Message F) (s : TestStore F)
      → receive m s ≡ change_sub_job (about m) (job_of m) (new_state m) s
  unfolding receive
  receive_lem (reports test_id job_id u) s = refl
  receive_lem (abandons test_id job_id) s = refl

  -- A message about a sub-job that the store does not know changes nothing and finishes nothing.
  -- Any other gives exactly its sub-job the new state, and leaves every other sub-job of every test
  -- as it was. No message changes a test's owner.
  pub receive_effect :
      (m : Message F) (s : TestStore F)
      → ((known (about m) (job_of m) s ≡ none) × (receive m s ≡ (s, false)))
        ⊎ ((sj : SubJobState F) × (known (about m) (job_of m) s ≡ some sj)
            × ((t j : Text)
                → known t j (receive m s).0
                  ≡ (if about m == t && job_of m == j then some (new_state m sj) else known t j s))
            × ((t : Text) → owner_of t (receive m s).0 ≡ owner_of t s))
  receive_effect m s = rw (receive_lem m s) (elim (Option-cases (known (about m) (job_of m) s)) [
    | inl e ↦ inl (e, change_unknown (about m) (job_of m) (new_state m) s e)
    | inr (sj, e) ↦ inr (
      sj,
      e,
      λ t j. known-change (about m) (job_of m) (new_state m) s sj t j e,
      owner_of-change (about m) (job_of m) (new_state m) s,
    )
  ])

  -- A message reports that its test finished exactly when the test was not finished before it and
  -- is finished after it. No message finishes another test or opens it.
  pub receive_finishes :
      (m : Message F) (s : TestStore F)
      → ((receive m s).1 ≡ (not (is_finished (about m) s) && is_finished (about m) (receive m s).0))
        × ((t : Text)
            → is_finished t (receive m s).0
              ≡ (if about m == t then is_finished t (receive m s).0 else is_finished t s))
  receive_finishes m s = rw (receive_lem m s) (
    result-change (about m) (job_of m) (new_state m) s,
    λ t. elim (Bool-cases (about m == t)) [
      | inl e ↦ rw e
      | inr e ↦ rw e (
          is_finished-change_ne (about m) (job_of m) (new_state m) s t
            (λ p. false≢true (sym e ∙ (same_iff (about m) t).1 p)))
    ],
  )

  final_new_state :
      (m : Message F) → is_final m ≡ true → (sj : SubJobState F) → (new_state m sj).done ≡ true
  unfolding apply_update abandon
  final_new_state (reports test_id job_id u) h sj = h
  final_new_state (abandons test_id job_id) h sj = refl

  receive_keeps_finished :
      (t : Text) (m : Message F) (s : TestStore F)
      → (not (about m == t) || is_final m) ≡ true
      → is_finished t s ≡ true
      → is_finished t (receive m s).0 ≡ true
  receive_keeps_finished t m s final h = elim (Bool-cases (about m == t)) [
    | inl e ↦
        let same_test = (same_iff (about m) t).0 e in
        subst (λ x. is_finished x (receive m s).0 ≡ true) same_test
          (rw (receive_lem m s) (
            finished-change (about m) (job_of m) (new_state m) s (final_new_state m (ground arith))
              (subst (λ x. is_finished x s ≡ true) (sym same_test) h)))
    | inr e ↦ ground (arith, (receive_finishes m s).1 t)
  ]

  final_silent :
      (t : Text) (m : Message F) (s : TestStore F)
      → is_finished t s ≡ true
      → (about m == t && (receive m s).1) ≡ false
  final_silent t m s h = elim (Bool-cases (about m == t)) [
    | inl e ↦
        let same_test = (same_iff (about m) t).0 e in
        let done = subst (λ x. is_finished x s ≡ true) (sym same_test) h in
        ground (arith, (receive_finishes m s).0)
    | inr e ↦ rw e
  ]

  -- Once a test is finished, messages that leave their sub-jobs done (and any messages about other
  -- tests) never make it finish again, and it stays finished.
  pub finished_stays :
      (t : Text) (ms : List (Message F)) (s : TestStore F)
      → All (λ m. (not (about m == t) || is_final m) ≡ true) ms
      → is_finished t s ≡ true
      → (finishes t ms s ≡ 0) × (is_finished t (receive_all ms s) ≡ true)
  unfolding finishes receive_all
  finished_stays t [] s a h = (refl, h)
  finished_stays t (m ∷ ms) s a h =
      let rest = finished_stays t ms (receive m s).0 a.1 (receive_keeps_finished t m s a.0 h) in
      rw (final_silent t m s h) (omega (arith, rest.0), rest.1)

  -- A report with done=false about a known sub-job of a finished test, also of one that was
  -- abandoned, opens the test again, and the next report with done=true about that sub-job finishes
  -- it a second time.
  pub reopened_finishes_again :
      (t j : Text) (u v : ResultUpdate F) (s : TestStore F) (sj : SubJobState F)
      → known t j s ≡ some sj
      → is_finished t s ≡ true
      → u.done ≡ false
      → v.done ≡ true
      → (is_finished t (update t j u s).0 ≡ false) × ((update t j v (update t j u s).0).1 ≡ true)
  unfolding apply_update
  reopened_finishes_again t j u v s sj k h d d' =
      let (state, e, e') = known-inv t j s sj k in
      let f = apply_update u in
      let g = apply_update v in
      let s1 = (change_sub_job t j f s).0 in
      let s2 = (change_sub_job t j g s1).0 in
      let jobs1 = insert j (f sj) state.sub_jobs in
      let e1 = tests-change t j f s state sj e e' in
      let e2 =
        tests-change t j g s1 (record state { sub_jobs = jobs1 }) (f sj) e1
          (lookup-insert_self j (f sj) state.sub_jobs) in
      let was = sym (is_finished_lem t s state e) ∙ h in
      let open1 = is_finished_lem t s1 _ e1 ∙ done-insert_open j (f sj) state.sub_jobs d in
      let done2 =
        is_finished_lem t s2 _ e2 ∙ done-insert-insert j (g (f sj)) (f sj) state.sub_jobs was d' in
      unfold update in (open1, result-change t j g s1 ∙ ground (arith, open1, done2))
