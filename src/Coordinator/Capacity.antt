-- ===== src/Coordinator/Capacity.antt =====
-- CountLiveWorkers of coordinator/capacity.go: the iterator of SCAN yields the keys page by page,
-- `none` in place of a page is its error.
use sentry_load.Prelude.{ℕ, ◌+◌, List, [], ◌∷◌, Option, none, some, length, Text}

unfoldable pub count_pages : List (Option (List Text)) → ℕ → Option ℕ
count_pages [] count = some count
count_pages (none ∷ pages) count = none
count_pages (some keys ∷ pages) count = count_pages pages (count + length keys)

-- The error hides what was counted.
unfoldable pub count_scanned : List (Option (List Text)) → Option ℕ
unfolding count_pages
count_scanned pages = count_pages pages 0
