-- ===== src/Coordinator/AuthState.antt =====
-- coordinator/authstate.go: the single-use `state` parameter of a login. Times are nanoseconds on
-- the monotonic clock; `rand.Read` is the argument `random`.
use sentry_load.Prelude.{
  ℕ, ◌-◌, ◌≡◌, Bool, false, ◌&&◌, not, List, [], Option, none, some, arith, Text, text_eq, leb,
  ◌==◌, if◌then◌else◌, Map, lookup, insert, delete, lookup-insert, lookup-delete, Option-cases, inl,
  inr,
}
use sentry_load.Coordinator.DomainStore.{random_token}

abbrev pub state_ttl : ℕ
state_ttl = 600000000000

pub record StateStore : Type 0 where
  pub issued : Map Text ℕ

abbrev pub new_state_store : StateStore
new_state_store = record { issued = [] }

unfoldable pub issue : Option (List ℕ) → ℕ → StateStore → StateStore × Option Text
issue random now s = elim (random_token random) [
  | none ↦ (s, none)
  | some token ↦ (record s { issued = insert token now s.issued }, some token)
]

unfoldable pub consume : Text → ℕ → StateStore → StateStore × Bool
consume state now s =
    let s' : StateStore = record { issued = delete state s.issued } in
    elim (lookup state s.issued) [
      | none ↦ (s', false)
      | some issued_at ↦ (s', leb (now - issued_at) state_ttl)
    ]

-- Could the state still be consumed at time `now`?
unfoldable pub is_live : Text → ℕ → StateStore → Bool
is_live state now s = elim (lookup state s.issued) [
  | none ↦ false
  | some issued_at ↦ leb (now - issued_at) state_ttl
]

-- Consuming a state answers whether it was live, and uses it up whatever the answer: afterwards it
-- is live at no time, and every other state is as live as before.
pub consume_once :
    (state : Text) (now : ℕ) (s : StateStore)
    → let (s', answer) = consume state now s in
      (answer ≡ is_live state now s)
      × ((other : Text) (later : ℕ)
          → is_live other later s' ≡ (not (state == other) && is_live other later s))
unfolding consume is_live
consume_once state now s = elim (Option-cases (lookup state s.issued)) [
  | inl e ↦ (ground arith, λ other later. ground (arith, lookup-delete state other s.issued))
  | inr (t, e) ↦ (ground arith, λ other later. ground (arith, lookup-delete state other s.issued))
]

-- A state that is issued at `at` is live for ten minutes, and no other state changes. Without
-- random bytes there is no state and nothing changes.
pub issue_effect :
    (random : Option (List ℕ)) (at : ℕ) (other : Text) (later : ℕ) (s : StateStore)
    → let (s', token) = issue random at s in
      (token ≡ random_token random)
      × (is_live other later s' ≡ (elim (random_token random) [
        | none ↦ is_live other later s
        | some t ↦ if t == other then leb (later - at) state_ttl else is_live other later s
      ]))
unfolding issue is_live
issue_effect random at other later s = elim (Option-cases (random_token random)) [
  | inl e ↦ ground arith
  | inr (t, e) ↦ ground (arith, lookup-insert t other at s.issued)
]
