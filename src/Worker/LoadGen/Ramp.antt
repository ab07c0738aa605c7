-- ===== src/Worker/LoadGen/Ramp.antt =====
-- The start offsets of the virtual users in runLoadTest (worker/loadgen.go).
use native.Mathlib.Nat.{mul-le-mul_right, le_trans, mul-div-le}
use sentry_load.Prelude.{
  ℕ, zero, suc, ◌+◌, ◌*◌, ◌/◌, ◌≤◌, ◌<◌, ◌≡◌, refl, arith, All, length, text_eq, bytes, inl, inr,
  pos, ◌⊎◌, same,
}
use sentry_load.Worker.Job.{Job}
use sentry_load.Worker.LoadGen.{second, ramp_step, offsets_from, start_offsets}

offsets_from-length : (step i n : ℕ) → length (offsets_from step i n) ≡ n
unfolding offsets_from
offsets_from-length step i zero = refl
offsets_from-length step i (suc n) = omega (arith, offsets_from-length step (suc i) n)

offsets_from-bound :
    (step i n vus limit : ℕ)
    → vus * step ≤ limit
    → i + n ≤ vus
    → All (λ o. o ≤ limit) (offsets_from step i n)
unfolding offsets_from
offsets_from-bound step i zero vus limit l h = tt
offsets_from-bound step i (suc n) vus limit l h = (
  le_trans (mul-le-mul_right {m = i} {n = vus} step (omega arith)) l,
  offsets_from-bound step (suc i) n vus limit l (omega arith),
)

-- A job that is within the caps starts as many virtual users as it asks for if its pattern is known, and
-- each of them within its duration.
pub start_offsets-within :
    (job : Job) (vus duration : ℕ)
    → job.vus ≡ pos vus
    → job.duration_seconds ≡ pos duration
    → 0 < vus
    → (job.ramp_pattern ≡ bytes "steady") ⊎ (job.ramp_pattern ≡ bytes "ramp")
    → (length (start_offsets job) ≡ vus) × All (λ o. o ≤ duration * second) (start_offsets job)
unfolding start_offsets ramp_step bytes same
start_offsets-within job vus duration v d h (inl e) =
    rw (start_offsets, v, d, e)
      (
        offsets_from-length 0 0 vus,
        offsets_from-bound 0 0 vus vus (duration * second) (omega arith) (omega arith),
      )
start_offsets-within job vus duration v d h (inr e) =
    rw (start_offsets, v, d, e)
      (
        offsets_from-length _ 0 vus,
        offsets_from-bound (duration * second / vus) 0 vus vus (duration * second)
            (mul-div-le (duration * second) vus) (omega arith),
      )
