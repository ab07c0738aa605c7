-- ===== src/Target.antt =====
-- The server that tests are aimed at, guineapig/main.go: its tables, their rows, and the handlers of
-- /fast and /slow on them. The seeded IDs are not negative. A query of a request has its number
-- there, from 0; one that fails answers 500, here `none`. Latency, the pools of connections, a
-- row that cannot be scanned and an error that ends the rows of a query early are left out.
pub mod Agree
use sentry_load.Prelude.{
  ◌≡◌, ℕ, zero, suc, ◌+◌, nat_beq, ltb, Bool, true, false, not, ◌&&◌, List, [], ◌∷◌, ◌++◌, map,
  Option, none, some, length, Text, bytes, text_eq, ◌==◌,
}
use sentry_load.Strconv.{format_nat}
use sentry_load.Coordinator.Postgres.Queries.{where_rows, order_by}

pub record Product : Type 0 where
  pub id : ℕ
  pub name : Text
  pub review_count : ℕ
  pub reviews : List Text

pub record ProductRow : Type 0 where
  pub id : ℕ
  pub name : Text

pub record ReviewRow : Type 0 where
  pub id : ℕ
  pub product_id : ℕ
  pub body : Text

pub record Store : Type 0 where
  pub products : List ProductRow
  pub reviews : List ReviewRow

-- The reviews `r` to 5 of a product, `left` of them, where `last` is the last ID of the table.
unfoldable pub seed_reviews : ℕ → ℕ → ℕ → ℕ → List ReviewRow
unfolding format_nat bytes
seed_reviews zero r i last = []
seed_reviews (suc left) r i last =
    record {
      id = suc last;
      product_id = i;
      body = bytes "Review " ++ format_nat r ++ bytes " for product " ++ format_nat i;
    }
    ∷ seed_reviews left (suc r) i (suc last)

-- The products `i` and on, `left` of them, each after the reviews of the one before.
unfoldable pub seed_products : ℕ → ℕ → Store → Store
unfolding seed_reviews format_nat bytes
seed_products zero i s = s
seed_products (suc left) i s = seed_products left (suc i) (record {
  products = s.products ++ record { id = i; name = bytes "Product " ++ format_nat i } ∷ [];
  reviews = s.reviews ++ seed_reviews 5 1 i (length s.reviews);
})

-- What the tables held before is dropped.
unfoldable pub seed : Store
unfolding seed_products
seed = seed_products 20 1 (record { products = []; reviews = [] })

-- ORDER BY id
unfoldable pub id_before : ProductRow → ProductRow → Bool
id_before p q = ltb p.id q.id

-- rv.product_id = p.id
unfoldable pub reviews_of : ℕ → List ReviewRow → List ReviewRow
unfolding where_rows
reviews_of id reviews = where_rows (λ rv. nat_beq rv.product_id id) reviews

-- A product that no review matches is kept with a null in place of the review.
unfoldable pub joined_rows : ProductRow → List ReviewRow → List (ProductRow × Option ReviewRow)
joined_rows p [] = (p, none) ∷ []
joined_rows p (rv ∷ matches) = (p, some rv) ∷ map (λ m. (p, some m)) matches

unfoldable pub left_join : List ProductRow → List ReviewRow → List (ProductRow × Option ReviewRow)
unfolding joined_rows reviews_of
left_join [] reviews = []
left_join (p ∷ ps) reviews = joined_rows p (reviews_of p.id reviews) ++ left_join ps reviews

-- GROUP BY p.id, p.name
unfoldable pub same_group : ProductRow → ProductRow → Bool
same_group p q = nat_beq p.id q.id && p.name == q.name

unfoldable pub groups : List ProductRow → List ProductRow
unfolding same_group where_rows
groups [] = []
groups (p ∷ ps) = p ∷ where_rows (λ q. not (same_group p q)) (groups ps)

-- rv.id is no null
unfoldable pub is_counted : ProductRow → ProductRow × Option ReviewRow → Bool
unfolding same_group
is_counted p (q, none) = false
is_counted p (q, some rv) = same_group p q

-- COUNT(rv.id) over the group of `p`
unfoldable pub count_reviews : ProductRow → List (ProductRow × Option ReviewRow) → ℕ
unfolding is_counted where_rows
count_reviews p rows = length (where_rows (is_counted p) rows)

-- The query of /fast, scanned.
unfoldable pub select_counted : Store → List Product
unfolding left_join groups count_reviews order_by id_before
select_counted s =
    let rows = left_join s.products s.reviews in
    map
      (λ p. record { id = p.id; name = p.name; review_count = count_reviews p rows; reviews = [] })
      (order_by id_before (groups (map (λ row. row.0) rows)))

unfoldable pub fast_handler : (ℕ → Bool) → Store → Option (List Product)
unfolding select_counted
fast_handler fails s = elim (fails 0) [ true ↦ none | false ↦ some (select_counted s) ]

-- The first query of /slow, scanned.
unfoldable pub select_products : Store → List Product
unfolding order_by id_before
select_products s =
    map (λ p. record { id = p.id; name = p.name; review_count = 0; reviews = [] })
      (order_by id_before s.products)

-- A query for each product, the first of them being the query `n` of the request.
unfoldable pub load_reviews : (ℕ → Bool) → ℕ → List ReviewRow → List Product → Option (List Product)
unfolding reviews_of
load_reviews fails n reviews [] = some []
load_reviews fails n reviews (p ∷ ps) =
    let rest = load_reviews fails (suc n) reviews ps in
    elim (fails n) [
      | true ↦ none
      | false ↦ elim rest [
        | none ↦ none
        | some loaded ↦
            some (record p { reviews = map (λ rv. rv.body) (reviews_of p.id reviews) } ∷ loaded)
      ]
    ]

unfoldable pub slow_handler : (ℕ → Bool) → Store → Option (List Product)
unfolding select_products load_reviews
slow_handler fails s = elim (fails 0) [
  | true ↦ none
  | false ↦ load_reviews fails 1 s.reviews (select_products s)
]
