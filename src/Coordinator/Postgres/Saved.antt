-- ===== src/Coordinator/Postgres/Saved.antt =====
-- Save, Get and Delete of coordinator/history.go, on a test and its sub-jobs.
use sentry_load.Prelude.{
  ◌≡◌, ◌≢◌, refl, ap, ◌∙◌, inl, inr, Bool, true, false, not, ◌&&◌, ◌||◌, List, [], ◌∷◌, ◌++◌, map,
  none, some, arith, All, Text, text_eq, Bool-cases, Option-cases, same_iff, Map, lookup, insert,
  lookup-insert, lookup-insert_self, append_assoc, append-nil,
}
use sentry_load.Coordinator.Snapshot.{TestSnapshot, SubJobSnapshot}
use sentry_load.Coordinator.Postgres.{
  TestRow, SubJobRow, Env, Database, Statement, select_test, select_sub_jobs, upsert_sub_job,
  fits_int4, has_key,
}
use sentry_load.Coordinator.Postgres.Queries.{where_rows, order_by, insert_row, owned_row, of_test}
use sentry_load.Coordinator.Postgres.History.{
  upserted_test, upserted_sub_job, upsert_sub_jobs, save_test, get_test, with_sub_jobs,
  load_sub_jobs, scan_test, scan_sub_job, any_abandoned,
}
use sentry_load.Coordinator.Postgres.Rows.{Refers}
use sentry_load.Coordinator.Postgres.Integrity.{IsSound, test_of}

pub insert-new :
    {V : Type 0} (k : Text) (v : V) (m : Map Text V)
    → lookup k m ≡ none
    → insert k v m ≡ m ++ (k, v) ∷ []
unfolding lookup insert
insert-new k v [] h = refl
insert-new k v ((j, w) ∷ m) h = ground (arith, insert-new k v m)

pub where_rows-append :
    {A : Type 0} (test : A → Bool) (xs ys : List A)
    → where_rows test (xs ++ ys) ≡ where_rows test xs ++ where_rows test ys
unfolding where_rows
where_rows-append test [] ys = refl
where_rows-append test (x ∷ xs) ys = ground (arith, where_rows-append test xs ys)

where_rows-nil :
    {A : Type 0} (test : A → Bool) (xs : List A)
    → All (λ x. test x ≡ false) xs
    → where_rows test xs ≡ []
unfolding where_rows
where_rows-nil test [] h = refl
where_rows-nil test (x ∷ xs) h = ground (arith, where_rows-nil test xs h.1, h.0)

module _ {A B : Type 0} (f : A → B) (before : B → B → Bool) where
  map-insert_row :
      (a : A) (l : List A)
      → map f (insert_row (λ x y. before (f x) (f y)) a l) ≡ insert_row before (f a) (map f l)
  unfolding insert_row
  map-insert_row a [] = refl
  map-insert_row a (b ∷ l) = elim (Bool-cases (before (f b) (f a))) [
    | inl e ↦ rw (e, map-insert_row a l) refl
    | inr e ↦ rw e refl
  ]

  map-order_by :
      (l : List A) → map f (order_by (λ x y. before (f x) (f y)) l) ≡ order_by before (map f l)
  unfolding order_by
  map-order_by [] = refl
  map-order_by (a ∷ l) =
      map-insert_row a (order_by (λ x y. before (f x) (f y)) l)
      ∙ ap (insert_row before (f a)) (map-order_by l)

module _ {F : Type 0} where
  any_abandoned-insert_row :
      (before : SubJobSnapshot F → SubJobSnapshot F → Bool) (a : SubJobSnapshot F)
      (l : List (SubJobSnapshot F))
      → any_abandoned (insert_row before a l) ≡ (a.abandoned || any_abandoned l)
  unfolding any_abandoned insert_row
  any_abandoned-insert_row before a [] = refl
  any_abandoned-insert_row before a (b ∷ l) = ground (arith, any_abandoned-insert_row before a l)

  any_abandoned-order_by :
      (before : SubJobSnapshot F → SubJobSnapshot F → Bool) (l : List (SubJobSnapshot F))
      → any_abandoned (order_by before l) ≡ any_abandoned l
  unfolding any_abandoned order_by
  any_abandoned-order_by before [] = refl
  any_abandoned-order_by before (a ∷ l) = ground (
    arith,
    any_abandoned-insert_row before a (order_by before l),
    any_abandoned-order_by before l,
  )

  -- Sub-jobs with IDs of their own, none of them in the table.
  abbrev pub IsNew : List (SubJobSnapshot F) → Map Text (SubJobRow F) → Type 0
  IsNew [] rows = Unit
  IsNew (sj ∷ sjs) rows =
      (lookup sj.job_id rows ≡ none) × All (λ other. sj.job_id ≢ other.job_id) sjs × IsNew sjs rows

  IsNew-insert :
      (k : Text) (r : SubJobRow F) (sjs : List (SubJobSnapshot F)) (rows : Map Text (SubJobRow F))
      → All (λ sj. k ≢ sj.job_id) sjs
      → IsNew sjs rows
      → IsNew sjs (insert k r rows)
  IsNew-insert k r [] rows n h = tt
  IsNew-insert k r (sj ∷ sjs) rows n h = (
    ground (arith, lookup-insert k sj.job_id r rows, same_iff k sj.job_id, h.0, n.0),
    h.1,
    IsNew-insert k r sjs rows n.1 h.2,
  )

  new_row : Text → SubJobSnapshot F → Text × SubJobRow F
  unfolding upserted_sub_job lookup
  new_row id sj = (sj.job_id, upserted_sub_job id sj [])

  upserted_sub_job-new :
      (id : Text) (sj : SubJobSnapshot F) (rows : Map Text (SubJobRow F))
      → lookup sj.job_id rows ≡ none
      → upserted_sub_job id sj rows ≡ upserted_sub_job id sj []
  unfolding upserted_sub_job lookup
  upserted_sub_job-new id sj rows h = ground (arith, h)

  upsert_sub_jobs-new :
      (id : Text) (env : Env) (sjs : List (SubJobSnapshot F)) (rows rows' : Map Text (SubJobRow F))
      → IsNew sjs rows
      → upsert_sub_jobs id env sjs rows ≡ some rows'
      → rows' ≡ rows ++ map (new_row id) sjs
  unfolding upsert_sub_jobs new_row
  upsert_sub_jobs-new id env [] rows rows' h e = ground (arith, append-nil rows)
  upsert_sub_jobs-new id env (sj ∷ sjs) rows rows' h e =
      elim (Bool-cases (
        env.fails (upsert_sub_job sj.job_id)
        || not (fits_int4 sj.requests && fits_int4 sj.errors))) [
          | inl stop ↦ absurd (ground arith)
          | inr go ↦
              let row = upserted_sub_job id sj rows in
              let rest =
                upsert_sub_jobs-new id env sjs (insert sj.job_id row rows) rows'
                  (IsNew-insert sj.job_id row sjs rows h.1 h.2) (ground arith) in
              let spelled = upserted_sub_job-new id sj rows h.0 in
              let added = insert-new sj.job_id row rows h.0 in
              ground (
                arith,
                rest,
                spelled,
                added,
                append_assoc rows ((sj.job_id, row) ∷ []) (map (new_row id) sjs),
              )
        ]

  -- The rows of the test are the new ones.
  where_rows-new :
      (id : Text) (sjs : List (SubJobSnapshot F))
      → where_rows (of_test id) (map (new_row id) sjs) ≡ map (new_row id) sjs
  unfolding where_rows of_test new_row upserted_sub_job lookup
  where_rows-new id [] = refl
  where_rows-new id (sj ∷ sjs) = ground (arith, where_rows-new id sjs, same_iff id id)

  where_rows-old :
      (id : Text) (tests : Map Text (TestRow F)) (rows : Map Text (SubJobRow F))
      → lookup id tests ≡ none
      → Refers test_of tests rows
      → where_rows (of_test id) rows ≡ []
  unfolding of_test where_rows has_key
  where_rows-old id tests [] n h = refl
  where_rows-old id tests ((j, r) ∷ rows) n h =
      ground (arith, where_rows-old id tests rows n h.1, h.0, same_iff r.test_id id)

  -- A sub-job as it is read back.
  abbrev pub finished : SubJobSnapshot F → SubJobSnapshot F
  finished sj = record sj { done = true }

  map-scan_new :
      (id : Text) (sjs : List (SubJobSnapshot F))
      → map scan_sub_job (map (new_row id) sjs) ≡ map finished sjs
  unfolding scan_sub_job new_row upserted_sub_job lookup
  map-scan_new id [] = refl
  map-scan_new id (sj ∷ sjs) = ap (λ l. finished sj ∷ l) (map-scan_new id sjs)

  any_abandoned-finished :
      (sjs : List (SubJobSnapshot F)) → any_abandoned (map finished sjs) ≡ any_abandoned sjs
  unfolding any_abandoned
  any_abandoned-finished [] = refl
  any_abandoned-finished (sj ∷ sjs) = ground (arith, any_abandoned-finished sjs)

  save_test-tables :
      (snap : TestSnapshot F) (owner : Text) (d : Database F)
      → (save_test snap owner d).1 ≡ true
      → (rows : Map Text (SubJobRow F)) × (upsert_sub_jobs snap.test_id d.env snap.sub_jobs
            d.tables.sub_jobs
          ≡ some rows)
        × ((save_test snap owner d).0.tables ≡ record (d.tables) {
          tests =
              insert snap.test_id
                (upserted_test snap owner d.env.clock d.tables.tests)
                d.tables.tests;
          sub_jobs = rows;
        })
  unfolding save_test
  save_test-tables snap owner d h =
      elim (Option-cases (upsert_sub_jobs snap.test_id d.env snap.sub_jobs d.tables.sub_jobs)) [
        | inl e ↦ absurd (ground arith)
        | inr (rows, e) ↦ (rows, e, ground arith)
      ]

  -- What Get reports of a test that was saved for the first time.
  unfoldable pub as_saved : (Text → Text → Bool) → TestSnapshot F → TestSnapshot F
  as_saved collate snap = record snap {
    label = [];
    done = true;
    abandoned = any_abandoned snap.sub_jobs;
    sub_jobs = order_by (λ a b. collate a.job_id b.job_id) (map finished snap.sub_jobs);
    finished_at = none;
  }

  module _ (collate : Text → Text → Bool) where
    load_saved :
        (id : Text) (sjs : List (SubJobSnapshot F)) (rows : Map Text (SubJobRow F))
        (tests : Map Text (TestRow F)) (d : Database F)
        → lookup id tests ≡ none
        → Refers test_of tests rows
        → d.tables.sub_jobs ≡ rows ++ map (new_row id) sjs
        → d.env.fails select_sub_jobs ≡ false
        → load_sub_jobs collate id d
          ≡ some (order_by (λ a b. collate a.job_id b.job_id) (map finished sjs))
    unfolding load_sub_jobs scan_sub_job
    load_saved id sjs rows tests d n h e up =
        let mine : where_rows (of_test id) d.tables.sub_jobs ≡ map (new_row id) sjs = ground (
          arith,
          e,
          where_rows-append (of_test id) rows (map (new_row id) sjs),
          where_rows-old id tests rows n h,
          where_rows-new id sjs,
        ) in
        rw (up, mine)
          (ap some (
            map-order_by scan_sub_job (λ a b. collate a.job_id b.job_id) (map (new_row id) sjs)
            ∙ ap (order_by (λ a b. collate a.job_id b.job_id)) (map-scan_new id sjs)))

    get_test-stored :
        (id owner : Text) (row : TestRow F) (sjs : List (SubJobSnapshot F)) (d : Database F)
        → lookup id d.tables.tests ≡ some row
        → row.owner_id ≡ owner
        → load_sub_jobs collate id d ≡ some sjs
        → d.env.fails select_test ≡ false
        → (get_test collate id owner d
            ≡ some (
                some (record (scan_test id row) { sub_jobs = sjs; abandoned = any_abandoned sjs })))
          × ((o : Text) → o ≢ owner → get_test collate id o d ≡ some none)
    unfolding get_test owned_row with_sub_jobs
    get_test-stored id owner row sjs d found mine loaded up = (
      ground (arith, found, mine, loaded, up, same_iff row.owner_id owner),
      λ o n. ground (arith, found, mine, up, same_iff row.owner_id o),
    )

    -- A finished test with a new ID, and sub-jobs with new IDs of their own, that Save accepts is
    -- what Get then returns to its owner where no statement fails: its totals, percentiles and
    -- sub-jobs, these in the order of their IDs and done, without a label; it is abandoned if one
    -- of its sub-jobs is. To any other user Get reports that there is no such test.
    pub save_test_read_back :
        (snap : TestSnapshot F) (owner : Text) (d : Database F) (env : Env)
        → IsSound d.tables
        → lookup snap.test_id d.tables.tests ≡ none
        → IsNew snap.sub_jobs d.tables.sub_jobs
        → (save_test snap owner d).1 ≡ true
        → ((s : Statement) → env.fails s ≡ false)
        → let later : Database F = record {
          tables = (save_test snap owner d).0.tables;
          env = env;
        } in
          (get_test collate snap.test_id owner later ≡ some (some (as_saved collate snap)))
          × ((o : Text) → o ≢ owner → get_test collate snap.test_id o later ≡ some none)
    unfolding as_saved scan_test upserted_test
    save_test_read_back snap owner d env sound fresh new saved up =
        let (rows, e, t) = save_test-tables snap owner d saved in
        let later : Database F = record { tables = (save_test snap owner d).0.tables; env = env } in
        let row = upserted_test snap owner d.env.clock d.tables.tests in
        let sjs = order_by (λ a b. collate a.job_id b.job_id) (map finished snap.sub_jobs) in
        let rows_are =
          upsert_sub_jobs-new snap.test_id d.env snap.sub_jobs d.tables.sub_jobs rows new e in
        let found : lookup snap.test_id later.tables.tests ≡ some row =
          rw t (lookup-insert_self snap.test_id row d.tables.tests) in
        let loaded : load_sub_jobs collate snap.test_id later ≡ some sjs =
          load_saved snap.test_id snap.sub_jobs d.tables.sub_jobs d.tables.tests later fresh
            sound.sub_jobs_refer (rw t rows_are) (up select_sub_jobs) in
        let (own, others) =
          get_test-stored snap.test_id owner row sjs later found (rw (upserted_test, fresh) refl)
            loaded (up select_test) in
        let abandoned : any_abandoned sjs ≡ any_abandoned snap.sub_jobs =
          any_abandoned-order_by (λ a b. collate a.job_id b.job_id) (map finished snap.sub_jobs)
          ∙ any_abandoned-finished snap.sub_jobs in
        (own ∙ rw (upserted_test, fresh, abandoned) refl, others)
