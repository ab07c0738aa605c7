-- ===== src/Coordinator/Postgres/Queries.antt =====
-- The clauses WHERE, ORDER BY and LIMIT, ON DELETE CASCADE, and the unique index on share_token
-- that the statements of coordinator/history.go use.
use sentry_load.Prelude.{
  Bool, true, false, not, List, [], ◌∷◌, Option, none, some, Text, text_eq, ◌==◌, if◌then◌else◌,
  Map, lookup,
}
use sentry_load.Coordinator.Postgres.{TestRow, SubJobRow}

module _ {A : Type 0} where
  -- WHERE
  unfoldable pub where_rows : (A → Bool) → List A → List A
  where_rows test [] = []
  where_rows test (a ∷ l) = if test a then a ∷ where_rows test l else where_rows test l

  unfoldable pub insert_row : (A → A → Bool) → A → List A → List A
  insert_row before a [] = a ∷ []
  insert_row before a (b ∷ l) = if before b a then b ∷ insert_row before a l else a ∷ b ∷ l

  -- ORDER BY, rows that compare equal as they stand in the table
  unfoldable pub order_by : (A → A → Bool) → List A → List A
  unfolding insert_row
  order_by before [] = []
  order_by before (a ∷ l) = insert_row before a (order_by before l)

module _ {F : Type 0} where
  -- WHERE test_id = $1 AND owner_id = $2
  unfoldable pub owned_row : Text → Text → Map Text (TestRow F) → Option (TestRow F)
  owned_row test_id owner_id tests = elim (lookup test_id tests) [
    | none ↦ none
    | some r ↦ if r.owner_id == owner_id then some r else none
  ]

  -- share_token = $1
  unfoldable pub has_token : Text → TestRow F → Bool
  has_token token r = elim r.share_token [ none ↦ false | some t ↦ t == token ]

  -- WHERE share_token = $1
  unfoldable pub shared_row : Text → Map Text (TestRow F) → Option (Text × TestRow F)
  unfolding has_token
  shared_row token [] = none
  shared_row token ((id, r) ∷ rest) =
      if has_token token r then some (id, r) else shared_row token rest

  -- idx_tests_share_token: may the row `test_id` take this token?
  unfoldable pub token_free : Text → Text → Map Text (TestRow F) → Bool
  unfolding shared_row
  token_free token test_id tests = elim (shared_row token tests) [
    | none ↦ true
    | some (id, r) ↦ id == test_id
  ]

  unfoldable pub of_test : Text → Text × SubJobRow F → Bool
  of_test test_id row = row.1.test_id == test_id

  -- ON DELETE CASCADE
  unfoldable pub cascade : Text → Map Text (SubJobRow F) → Map Text (SubJobRow F)
  unfolding where_rows of_test
  cascade test_id sub_jobs = where_rows (λ row. not (of_test test_id row)) sub_jobs
