-- ===== src/Coordinator/Snapshot.antt =====
-- coordinator/teststore.go: the state of a test and its sub-jobs, and the merged view of it.
pub mod Merge
pub mod Percentiles
use sentry_load.Prelude.{
  ℕ, zero, suc, ◌+◌, ◌-◌, ◌≡◌, Bool, true, false, not, ◌&&◌, ◌||◌, List, [], ◌∷◌, ◌++◌, Option,
  none, some, length, Text, text_eq, nat_eq, ltb, leb, ◌==◌, if◌then◌else◌, ℤ, pos, int_eq, int_add,
  Map, lookup, lookup_or, insert, delete, Float,
}
use sentry_load.Coordinator.Sketch.{LatencySketch, decode_latency_sketch, merge, empty, quantile_ms}

pub record SubJobState (F : Type 0) : Type 0 where
  pub requests : ℤ
  pub errors : ℤ
  pub rps : F
  pub p50 : Text
  pub p95 : Text
  pub p99 : Text
  pub done : Bool
  pub circuit_broken : Bool
  pub abandoned : Bool
  pub sketch : Option LatencySketch

pub record TestState (F : Type 0) : Type 0 where
  pub test_id : Text
  pub owner_id : Text
  pub url : Text
  pub created_at : ℕ
  pub sub_jobs : Map Text (SubJobState F)

pub record SubJobSnapshot (F : Type 0) : Type 0 where
  pub job_id : Text
  pub requests : ℤ
  pub errors : ℤ
  pub rps : F
  pub p50_ms : Text
  pub p95_ms : Text
  pub p99_ms : Text
  pub done : Bool
  pub circuit_broken : Bool
  pub abandoned : Bool

pub record TestSnapshot (F : Type 0) : Type 0 where
  pub test_id : Text
  pub url : Text
  pub label : Text
  pub done : Bool
  pub circuit_broken : Bool
  pub abandoned : Bool
  pub total_requests : ℤ
  pub total_errors : ℤ
  pub combined_rps : F
  pub p50_ms : Option F
  pub p95_ms : Option F
  pub p99_ms : Option F
  pub sub_jobs : List (SubJobSnapshot F)
  pub finished_at : Option ℕ

-- Go's `<` on strings.
unfoldable pub text_ltb : Text → Text → Bool
text_ltb s [] = false
text_ltb [] (d ∷ t) = true
text_ltb (c ∷ s) (d ∷ t) = ltb c d || (c == d && text_ltb s t)

module _ {F : Type 0} where
  unfoldable pub all_sub_jobs_done : Map Text (SubJobState F) → Bool
  all_sub_jobs_done [] = true
  all_sub_jobs_done ((id, sj) ∷ rest) = sj.done && all_sub_jobs_done rest

  sub_job_snapshot : Text → SubJobState F → SubJobSnapshot F
  sub_job_snapshot job_id sj = record {
    job_id = job_id;
    requests = sj.requests;
    errors = sj.errors;
    rps = sj.rps;
    p50_ms = sj.p50;
    p95_ms = sj.p95;
    p99_ms = sj.p99;
    done = sj.done;
    circuit_broken = sj.circuit_broken;
    abandoned = sj.abandoned;
  }

  insert_by_id : SubJobSnapshot F → List (SubJobSnapshot F) → List (SubJobSnapshot F)
  insert_by_id a [] = a ∷ []
  insert_by_id a (b ∷ l) = if text_ltb b.job_id a.job_id then b ∷ insert_by_id a l else a ∷ b ∷ l

  -- sort.Slice by JobID
  unfoldable pub sort_by_id : List (SubJobSnapshot F) → List (SubJobSnapshot F)
  unfolding insert_by_id text_ltb
  sort_by_id [] = []
  sort_by_id (a ∷ l) = insert_by_id a (sort_by_id l)

module _ {F : Type 0} ⦃fl : Float F⦄ where
  -- &subJobState{}
  abbrev pub no_result : SubJobState F
  no_result = record {
    requests = pos 0;
    errors = pos 0;
    rps = fl.of_nat 0;
    p50 = [];
    p95 = [];
    p99 = [];
    done = false;
    circuit_broken = false;
    abandoned = false;
    sketch = none;
  }

  -- The loop of combinedPercentiles; `none` is its early return.
  unfoldable pub merge_sketches : Map Text (SubJobState F) → LatencySketch → Option LatencySketch
  merge_sketches [] merged = some merged
  merge_sketches ((id, sj) ∷ rest) merged =
      if sj.requests == pos 0
      then merge_sketches rest merged
      else elim sj.sketch [ none ↦ none | some sk ↦ merge_sketches rest (merge merged sk) ]

  -- math.Round(v*10) / 10
  round_tenth : F → F
  round_tenth v = fl.div (fl.round (fl.mul v (fl.of_nat 10))) (fl.of_nat 10)

  unfoldable pub percentile : LatencySketch → F → Option F
  unfolding round_tenth
  percentile merged q = elim (quantile_ms merged q) [ none ↦ none | some v ↦ some (round_tenth v) ]

  unfoldable pub combined_percentiles : Map Text (SubJobState F) → Option F × Option F × Option F
  unfolding merge_sketches percentile
  combined_percentiles sub_jobs = elim (merge_sketches sub_jobs empty) [
    | none ↦ (none, none, none)
    | some merged ↦ (
      percentile merged (fl.lit 50 2),
      percentile merged (fl.lit 95 2),
      percentile merged (fl.lit 99 2),
    )
  ]

  -- One round of the loop of buildSnapshot.
  absorb : Text → SubJobState F → TestSnapshot F → TestSnapshot F
  unfolding sub_job_snapshot
  absorb job_id sj snap = record snap {
    sub_jobs = snap.sub_jobs ++ sub_job_snapshot job_id sj ∷ [];
    total_requests = int_add snap.total_requests sj.requests;
    total_errors = int_add snap.total_errors sj.errors;
    combined_rps = fl.add snap.combined_rps sj.rps;
    done = if not sj.done then false else snap.done;
    circuit_broken = if sj.circuit_broken then true else snap.circuit_broken;
    abandoned = if sj.abandoned then true else snap.abandoned;
  }

  unfoldable pub absorb_all : Map Text (SubJobState F) → TestSnapshot F → TestSnapshot F
  unfolding absorb
  absorb_all [] snap = snap
  absorb_all ((id, sj) ∷ rest) snap = absorb_all rest (absorb id sj snap)

  -- The snapshot before the loop.
  abbrev pub unmerged : TestState F → TestSnapshot F
  unmerged t = record {
    test_id = t.test_id;
    url = t.url;
    label = [];
    done = true;
    circuit_broken = false;
    abandoned = false;
    total_requests = pos 0;
    total_errors = pos 0;
    combined_rps = fl.of_nat 0;
    p50_ms = none;
    p95_ms = none;
    p99_ms = none;
    sub_jobs = [];
    finished_at = none;
  }

  unfoldable pub build_snapshot : TestState F → TestSnapshot F
  unfolding absorb_all
  build_snapshot t =
      let merged = absorb_all t.sub_jobs (unmerged t) in
      let (p50, p95, p99) = combined_percentiles t.sub_jobs in
      record merged {
        sub_jobs = sort_by_id merged.sub_jobs;
        p50_ms = p50;
        p95_ms = p95;
        p99_ms = p99;
      }
