-- ===== src/Examples/Requests.antt =====
-- The seeded tables of guineapig/main.go, asked by both handlers.
use sentry_load.Prelude.{
  ◌≡◌, ◌≢◌, refl, ℕ, suc, ◌≤◌, leb, Bool, true, false, ◌&&◌, List, [], ◌∷◌, map, Option, none, some,
  All, Text, bytes, same, arith, leb→le,
}
use sentry_load.Target.{ProductRow, Product, seed, fast_handler, slow_handler}
use sentry_load.Target.Agree.{HasDistinctIds, counted, handlers_agree}

abbrev answer {ℓ} : {A : Type ℓ} → (Product → A) → Option (List Product) → List A
answer f none = []
answer f (some products) = map f products

-- Each of the twenty seeded products has five reviews, and its ID is its place.
seeded_counts :
    answer {A = ℕ × ℕ} (λ p. (p.id, p.review_count)) (fast_handler (λ i. false) seed)
    ≡ map
        (λ i. (i, 5))
        (1 ∷ 2 ∷ 3 ∷ 4 ∷ 5 ∷ 6 ∷ 7 ∷ 8 ∷ 9 ∷ 10 ∷ 11 ∷ 12 ∷ 13 ∷ 14 ∷ 15 ∷ 16 ∷ 17 ∷ 18 ∷ 19 ∷ 20
          ∷ [])
unfolding fast_handler seed same
seeded_counts = refl

-- A query of /slow that fails is a 500 after the queries before it.
late_failure : slow_handler (λ i. leb 20 i) seed ≡ none
unfolding slow_handler seed
late_failure = refl

last_review :
    answer {A = Text × List Text}
      (λ p. (p.name, p.reviews))
      (slow_handler
        (λ i. false)
        (record {
          products = record { id = 2; name = bytes "B" } ∷ record { id = 1; name = bytes "A" } ∷ [];
          reviews = record { id = 1; product_id = 2; body = bytes "fine" } ∷ [];
        }))
    ≡ (bytes "A", []) ∷ (bytes "B", bytes "fine" ∷ []) ∷ []
unfolding slow_handler
last_review = refl

-- The IDs are `n` or more and grow.
abbrev in_order : ℕ → List ProductRow → Bool
in_order n [] = true
in_order n (p ∷ ps) = leb n p.id && in_order (suc p.id) ps

in_order-above :
    (n i : ℕ) (ps : List ProductRow) → suc i ≤ n → in_order n ps ≡ true → All (λ q. i ≢ q.id) ps
in_order-above n i [] b h = tt
in_order-above n i (p ∷ ps) b h =
    let b' : n ≤ p.id = leb→le n p.id (ground (arith, h)) in
    (
      (λ e. absurd (omega (arith, b, b', e))),
      in_order-above (suc p.id) i ps (omega (arith, b, b')) (ground (arith, h)),
    )

in_order-HasDistinctIds : (n : ℕ) (ps : List ProductRow) → in_order n ps ≡ true → HasDistinctIds ps
in_order-HasDistinctIds n [] h = tt
in_order-HasDistinctIds n (p ∷ ps) h =
    let rest : in_order (suc p.id) ps ≡ true = ground (arith, h) in
    (
      in_order-above (suc p.id) p.id ps (omega arith) rest,
      in_order-HasDistinctIds (suc p.id) ps rest,
    )

seeded_in_order : in_order 1 seed.products ≡ true
unfolding seed
seeded_in_order = refl

handlers_agree_example :
    (products : List Product) × (slow_handler (λ i. false) seed ≡ some products)
    × (fast_handler (λ i. false) seed ≡ some (map counted products))
handlers_agree_example =
    handlers_agree (λ i. false) (λ i. false) seed
      (in_order-HasDistinctIds 1 seed.products seeded_in_order) (λ i. refl) (λ i. refl)
