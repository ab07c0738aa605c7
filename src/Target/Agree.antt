-- ===== src/Target/Agree.antt =====
-- handlers of guineapig/main.go: what one JOIN and what a query for each product answer.
use sentry_load.Prelude.{
  length-map, ◌≡◌, ◌≢◌, refl, sym, ap, ◌∙◌, inl, inr, ℕ, suc, ◌+◌, Bool, true, false, not, List, [],
  ◌∷◌, ◌++◌, map, Option, some, length, length-append, All, arith, text_eq, Bool-cases, same_iff,
}
use sentry_load.Coordinator.Postgres.Queries.{where_rows, order_by, insert_row}
use sentry_load.Coordinator.Postgres.Saved.{where_rows-append}
use sentry_load.Target.{
  Product, ProductRow, ReviewRow, Store, id_before, reviews_of, joined_rows, left_join, same_group,
  groups, is_counted, count_reviews, select_counted, fast_handler, select_products, load_reviews,
  slow_handler,
}

-- `id` is the primary key of the products.
abbrev pub HasDistinctIds : List ProductRow → Type 0
HasDistinctIds [] = Unit
HasDistinctIds (p ∷ ps) = All (λ q. p.id ≢ q.id) ps × HasDistinctIds ps

same_group_refl : (p : ProductRow) → same_group p p ≡ true
unfolding same_group
same_group_refl p = ground (arith, same_iff p.name p.name)

other_group : (p q : ProductRow) → p.id ≢ q.id → same_group p q ≡ false
unfolding same_group
other_group p q n = ground arith

where_rows_twice :
    {A : Type 0} (test : A → Bool) (l : List A)
    → where_rows test (where_rows test l) ≡ where_rows test l
unfolding where_rows
where_rows_twice test [] = refl
where_rows_twice test (a ∷ l) = ground (arith, where_rows_twice test l)

groups_repeat : (p : ProductRow) (l : List ProductRow) → groups (p ∷ p ∷ l) ≡ groups (p ∷ l)
unfolding groups where_rows
groups_repeat p l =
    ground (arith, same_group_refl p, where_rows_twice (λ q. not (same_group p q)) (groups l))

head_groups :
    (p : ProductRow) (ms : List ReviewRow) (l : List (ProductRow × Option ReviewRow))
    → groups (p ∷ map (λ row. row.0) (map (λ m. (p, some m)) ms ++ l))
      ≡ groups (p ∷ map (λ row. row.0) l)
head_groups p [] l = refl
head_groups p (m ∷ ms) l = groups_repeat p _ ∙ head_groups p ms l

heads_joined :
    (p : ProductRow) (ms : List ReviewRow) (l : List (ProductRow × Option ReviewRow))
    → groups (map (λ row. row.0) (joined_rows p ms ++ l)) ≡ groups (p ∷ map (λ row. row.0) l)
unfolding joined_rows
heads_joined p [] l = refl
heads_joined p (m ∷ ms) l = head_groups p ms l

where_rows_others :
    (p : ProductRow) (ps : List ProductRow)
    → All (λ q. p.id ≢ q.id) ps
    → where_rows (λ q. not (same_group p q)) ps ≡ ps
unfolding where_rows
where_rows_others p [] n = refl
where_rows_others p (q ∷ ps) n = ground (arith, other_group p q n.0, where_rows_others p ps n.1)

groups_joined :
    (ps : List ProductRow) (reviews : List ReviewRow)
    → HasDistinctIds ps
    → groups (map (λ row. row.0) (left_join ps reviews)) ≡ ps
unfolding left_join groups
groups_joined [] reviews n = refl
groups_joined (p ∷ ps) reviews n =
    heads_joined p (reviews_of p.id reviews) (left_join ps reviews)
    ∙ ap (λ l. p ∷ where_rows (λ q. not (same_group p q)) l) (groups_joined ps reviews n.1)
    ∙ ap (λ l. p ∷ l) (where_rows_others p ps n.0)

-- The rows of a group are counted wherever they stand.
count_reviews-append :
    (p : ProductRow) (xs ys : List (ProductRow × Option ReviewRow))
    → count_reviews p (xs ++ ys) ≡ count_reviews p xs + count_reviews p ys
unfolding count_reviews
count_reviews-append p xs ys = ground (
  arith,
  where_rows-append (is_counted p) xs ys,
  length-append (where_rows (is_counted p) xs) (where_rows (is_counted p) ys),
)

count_own :
    (p : ProductRow) (ms : List ReviewRow) → count_reviews p (map (λ m. (p, some m)) ms) ≡ length ms
unfolding count_reviews is_counted where_rows
count_own p [] = refl
count_own p (m ∷ ms) = ground (arith, same_group_refl p, count_own p ms)

count_other :
    (p q : ProductRow) (ms : List ReviewRow)
    → p.id ≢ q.id
    → count_reviews p (map (λ m. (q, some m)) ms) ≡ 0
unfolding count_reviews is_counted where_rows
count_other p q [] n = refl
count_other p q (m ∷ ms) n = ground (arith, other_group p q n, count_other p q ms n)

count_joined :
    (p q : ProductRow) (ms : List ReviewRow)
    → count_reviews p (joined_rows q ms) ≡ count_reviews p (map (λ m. (q, some m)) ms)
unfolding count_reviews is_counted where_rows joined_rows
count_joined p q [] = refl
count_joined p q (m ∷ ms) = refl

count_absent :
    (p : ProductRow) (ps : List ProductRow) (reviews : List ReviewRow)
    → All (λ q. p.id ≢ q.id) ps
    → count_reviews p (left_join ps reviews) ≡ 0
unfolding left_join
count_absent p [] reviews n = unfold count_reviews where_rows in refl
count_absent p (q ∷ ps) reviews n =
    let ms = reviews_of q.id reviews in
    omega (
      arith,
      count_reviews-append p (joined_rows q ms) (left_join ps reviews),
      count_joined p q ms,
      count_other p q ms n.0,
      count_absent p ps reviews n.1,
    )

-- The group of a product counts what a query for the product returns.
abbrev IsCounted : List (ProductRow × Option ReviewRow) → List ReviewRow → ProductRow → Type 0
IsCounted rows reviews p = count_reviews p rows ≡ length (reviews_of p.id reviews)

count_later :
    (p : ProductRow) (ps : List ProductRow) (ms reviews : List ReviewRow)
    (rows : List (ProductRow × Option ReviewRow))
    → All (λ q. p.id ≢ q.id) ps
    → All (IsCounted rows reviews) ps
    → All (IsCounted (joined_rows p ms ++ rows) reviews) ps
count_later p [] ms reviews rows n h = tt
count_later p (q ∷ ps) ms reviews rows n h = (
  omega (
    arith,
    count_reviews-append q (joined_rows p ms) rows,
    count_joined q p ms,
    count_other q p ms (λ e. n.0 (sym e)),
    h.0,
  ),
  count_later p ps ms reviews rows n.1 h.1,
)

left_join-counts :
    (ps : List ProductRow) (reviews : List ReviewRow)
    → HasDistinctIds ps
    → All (IsCounted (left_join ps reviews) reviews) ps
unfolding left_join
left_join-counts [] reviews n = tt
left_join-counts (p ∷ ps) reviews n =
    let ms = reviews_of p.id reviews in
    let rows = left_join ps reviews in
    (
      omega (
        arith,
        count_reviews-append p (joined_rows p ms) rows,
        count_joined p p ms,
        count_own p ms,
        count_absent p ps reviews n.0,
      ),
      count_later p ps ms reviews rows n.0 (left_join-counts ps reviews n.1),
    )

insert_row-All :
    (P : ProductRow → Type 0) (p : ProductRow) (ps : List ProductRow)
    → P p
    → All P ps
    → All P (insert_row id_before p ps)
unfolding insert_row
insert_row-All P p [] h hs = (h, tt)
insert_row-All P p (q ∷ ps) h hs = elim (Bool-cases (id_before q p)) [
  | inl e ↦ rw e (hs.0, insert_row-All P p ps h hs.1)
  | inr e ↦ rw e (h, hs)
]

order_by-All :
    (P : ProductRow → Type 0) (ps : List ProductRow) → All P ps → All P (order_by id_before ps)
unfolding order_by
order_by-All P [] h = tt
order_by-All P (p ∷ ps) h = insert_row-All P p (order_by id_before ps) h.0 (order_by-All P ps h.1)

-- What /fast answers where /slow lists the reviews.
unfoldable pub counted : Product → Product
counted p = record p { review_count = length p.reviews; reviews = [] }

load_reviews-counted :
    (fails : ℕ → Bool) (n : ℕ) (rows : List (ProductRow × Option ReviewRow))
    (reviews : List ReviewRow) (ps : List ProductRow)
    → ((i : ℕ) → fails i ≡ false)
    → All (IsCounted rows reviews) ps
    → (l : List Product) × (load_reviews fails n reviews
          (map (λ p. record { id = p.id; name = p.name; review_count = 0; reviews = [] }) ps)
        ≡ some l)
      × (map counted l
          ≡ map
              (λ p. record {
                id = p.id;
                name = p.name;
                review_count = count_reviews p rows;
                reviews = [];
              })
              ps)
unfolding load_reviews counted
load_reviews-counted fails n rows reviews [] up h = ([], refl, refl)
load_reviews-counted fails n rows reviews (p ∷ ps) up h =
    let (l, loaded, same) = load_reviews-counted fails (suc n) rows reviews ps up h.1 in
    let bodies = map (λ rv. rv.body) (reviews_of p.id reviews) in
    let counts : length bodies ≡ count_reviews p rows =
      length-map (λ rv. rv.body) (reviews_of p.id reviews) ∙ sym h.0 in
    (
      record { id = p.id; name = p.name; review_count = 0; reviews = bodies } ∷ l,
      rw (up n, loaded) refl,
      rw (counts, same) refl,
    )

-- Where the products have distinct IDs and no query of the two requests fails, /slow answers some
-- products, and /fast answers the same ones in the same order, with the number of reviews of a
-- product in place of the reviews that /slow lists for it.
pub handlers_agree :
    (fails fails' : ℕ → Bool) (s : Store)
    → HasDistinctIds s.products
    → ((i : ℕ) → fails i ≡ false)
    → ((i : ℕ) → fails' i ≡ false)
    → (products : List Product) × (slow_handler fails s ≡ some products)
      × (fast_handler fails' s ≡ some (map counted products))
unfolding select_products select_counted slow_handler fast_handler
handlers_agree fails fails' s distinct up up' =
    let rows = left_join s.products s.reviews in
    let (products, loaded, same) =
      load_reviews-counted fails 1 rows s.reviews (order_by id_before s.products) up (
        order_by-All (IsCounted rows s.reviews) s.products
          (left_join-counts s.products s.reviews distinct)) in
    (
      products,
      rw (slow_handler, up 0, loaded) refl,
      rw (fast_handler, up' 0, groups_joined s.products s.reviews distinct, same) refl,
    )
