-- ===== src/Coordinator/Postgres/Rows.antt =====
-- On the clauses of the statements of coordinator/history.go: rows of a table before and after an
-- insert or a delete.
use sentry_load.Prelude.{
  ◌≡◌, ◌≢◌, inl, inr, Bool, true, false, not, ◌&&◌, ◌||◌, List, [], ◌∷◌, some, arith, All, Text,
  text_eq, ◌==◌, Bool-cases, same_iff, Map, lookup, insert, delete, lookup-insert, lookup-delete,
  lookup-insert_self,
}
use sentry_load.Coordinator.Postgres.{TestRow, has_key}
use sentry_load.Coordinator.Postgres.Queries.{where_rows, has_token, shared_row, token_free}

module _ {F : Type 0} where
  -- A row that may take the token is the one that is found by it.
  pub shared_row-insert :
      (t id : Text) (r : TestRow F) (m : Map Text (TestRow F))
      → token_free t id m ≡ true
      → has_token t r ≡ true
      → shared_row t (insert id r m) ≡ some (id, r)
  unfolding shared_row insert token_free
  shared_row-insert t id r [] h k = ground arith
  shared_row-insert t id r ((j, s) ∷ m) h k =
      ground (arith, shared_row-insert t id r m, same_iff j id)

  pub shared_row-insert_other :
      (t id j : Text) (r s : TestRow F) (m : Map Text (TestRow F))
      → j ≢ id
      → has_token t r ≡ false
      → shared_row t m ≡ some (j, s)
      → shared_row t (insert id r m) ≡ some (j, s)
  unfolding shared_row insert
  shared_row-insert_other t id j r s [] n k h = ground arith
  shared_row-insert_other t id j r s ((i, u) ∷ m) n k h =
      ground (arith, shared_row-insert_other t id j r s m, same_iff i id)

  pub shared_row-delete :
      (t id j : Text) (s : TestRow F) (m : Map Text (TestRow F))
      → j ≢ id
      → shared_row t m ≡ some (j, s)
      → shared_row t (delete id m) ≡ some (j, s)
  unfolding shared_row delete
  shared_row-delete t id j s [] n h = ground arith
  shared_row-delete t id j s ((i, u) ∷ m) n h =
      ground (arith, shared_row-delete t id j s m, same_iff i id)

  -- Every row that is shared is the one that its token finds.
  abbrev pub IsIndexed : Map Text (TestRow F) → Type 0
  IsIndexed m =
      (t id : Text) (r : TestRow F)
      → lookup id m ≡ some r
      → has_token t r ≡ true
      → shared_row t m ≡ some (id, r)

  pub insert-IsIndexed :
      (id : Text) (r : TestRow F) (m : Map Text (TestRow F))
      → ((t : Text) → has_token t r ≡ true → token_free t id m ≡ true)
      → IsIndexed m
      → IsIndexed (insert id r m)
  unfolding token_free
  insert-IsIndexed id r m free h t j s e k = elim (Bool-cases (id == j)) [
    | inl same ↦
        ground (arith, lookup-insert id j r m, same_iff id j, shared_row-insert t id r m, free t)
    | inr other ↦ ground (
      arith,
      lookup-insert id j r m,
      same_iff id j,
      same_iff j id,
      shared_row-insert_other t id j r s m,
      free t,
      h t j s,
    )
  ]

  pub delete-IsIndexed :
      (id : Text) (m : Map Text (TestRow F)) → IsIndexed m → IsIndexed (delete id m)
  delete-IsIndexed id m h t j s e k =
      ground (arith, lookup-delete id j m, same_iff id j, shared_row-delete t id j s m, h t j s)

has_key-insert :
    {V : Type 0} (k j : Text) (v : V) (m : Map Text V)
    → has_key j (insert k v m) ≡ (k == j || has_key j m)
unfolding has_key
has_key-insert k j v m = ground (arith, lookup-insert k j v m)

has_key-delete :
    {V : Type 0} (k j : Text) (m : Map Text V)
    → has_key j (delete k m) ≡ (not (k == j) && has_key j m)
unfolding has_key
has_key-delete k j m = ground (arith, lookup-delete k j m)

pub has_key-lookup :
    {V : Type 0} (k : Text) (v : V) (m : Map Text V) → lookup k m ≡ some v → has_key k m ≡ true
unfolding has_key
has_key-lookup k v m h = ground arith

pub has_key-insert_self :
    {V : Type 0} (k : Text) (v : V) (m : Map Text V) → has_key k (insert k v m) ≡ true
has_key-insert_self k v m = has_key-lookup k v (insert k v m) (lookup-insert_self k v m)

-- Every row refers to a key of the other table.
abbrev pub Refers : {R V : Type 0} → (R → Text) → Map Text V → List R → Type 0
Refers f m = All (λ row. has_key (f row) m ≡ true)

module _ {R V : Type 0} (f : R → Text) where
  pub Refers-insert :
      (k : Text) (v : V) (m : Map Text V) (rows : List R)
      → Refers f m rows
      → Refers f (insert k v m) rows
  Refers-insert k v m [] h = tt
  Refers-insert k v m (r ∷ rows) h =
      (ground (arith, has_key-insert k (f r) v m, h.0), Refers-insert k v m rows h.1)

  pub Refers-delete :
      (k : Text) (m : Map Text V) (test : R → Bool) (rows : List R)
      → ((r : R) → test r ≡ true → f r ≢ k)
      → Refers f m rows
      → Refers f (delete k m) (where_rows test rows)
  unfolding where_rows
  Refers-delete k m test [] n h = tt
  Refers-delete k m test (r ∷ rows) n h = elim (Bool-cases (test r)) [
    | inl e ↦ rw e (
      ground (arith, has_key-delete k (f r) m, same_iff k (f r), n r e, h.0),
      Refers-delete k m test rows n h.1,
    )
    | inr e ↦ rw e (Refers-delete k m test rows n h.1)
  ]

  pub Refers-where :
      (m : Map Text V) (test : R → Bool) (rows : List R)
      → Refers f m rows
      → Refers f m (where_rows test rows)
  unfolding where_rows
  Refers-where m test [] h = tt
  Refers-where m test (r ∷ rows) h = elim (Bool-cases (test r)) [
    | inl e ↦ rw e (h.0, Refers-where m test rows h.1)
    | inr e ↦ rw e (Refers-where m test rows h.1)
  ]

module _ {R V : Type 0} (f : Text × R → Text) where
  -- Only rows that the table had, and the new one, have to refer to a key.
  pub Refers-row :
      (k : Text) (r : R) (m : Map Text V) (rows : Map Text R)
      → ((j : Text) → has_key (f (j, r)) m ≡ true)
      → Refers f m rows
      → Refers f m (insert k r rows)
  unfolding insert
  Refers-row k r m [] n h = (n k, tt)
  Refers-row k r m ((j, s) ∷ rows) n h = elim (Bool-cases (j == k)) [
    | inl e ↦ rw e (n j, h.1)
    | inr e ↦ rw e (h.0, Refers-row k r m rows n h.1)
  ]

  -- A row that is found by its key refers like the others.
  pub Refers-lookup :
      (k : Text) (r : R) (m : Map Text V) (rows : Map Text R)
      → ((j : Text) → f (j, r) ≡ f (k, r))
      → lookup k rows ≡ some r
      → Refers f m rows
      → has_key (f (k, r)) m ≡ true
  unfolding lookup
  Refers-lookup k r m [] n e h = ground arith
  Refers-lookup k r m ((j, s) ∷ rows) n e h = elim (Bool-cases (j == k)) [
    | inl p ↦ ground (arith, h.0, n j)
    | inr p ↦ ground (arith, Refers-lookup k r m rows n)
  ]
