-- ===== src/Dashboard/Performance.antt =====
-- The life of a load test in dashboard/src/app.py: `start_performance_test`,
-- `run_performance_test` and `get_performance_test`, over the dict of tests in memory and the table
-- of runs. The numbers of a scenario come parsed, and each call of the database has a flag.
pub mod Runs
mod Tests
use highthroughputingestion.Base.{
  ℕ, Bool, true, false, ◌&&◌, Option, none, some, String, str_eq, List, [], ◌∷◌, find, or_default,
  is_some, if◌then◌else◌,
}
use highthroughputingestion.Base.Dict
use highthroughputingestion.Base.Dict.{Dict}
use highthroughputingestion.Float.{Float, of_ℕ}
use highthroughputingestion.Dashboard.LoadTest.{
  BurstResult, Verdict, fail, determine_test_result, clamp,
}

pub data TestStatus : Type 0 where
  preparing running completed failed : TestStatus

module _ (F : Float) where
  -- An entry of `performance_tests`; a verdict that is `none` is PENDING.
  pub record Test : Type 0 where
    pub status : TestStatus
    pub target_documents : ℕ
    pub target_duration_seconds : ℕ
    pub test_result : Option (Verdict F)
    pub result : Option (BurstResult F)

  -- A row of `load_test_runs`.
  pub record TestRun : Type 0 where
    pub test_run_id : String
    pub status : TestStatus
    pub target_documents : ℕ
    pub target_duration_seconds : ℕ
    pub test_result : Option (Verdict F)
    pub result : Option (BurstResult F)
    -- the column of that name; `none` is NULL
    pub p95_latency_ms : Option F.Carrier

  pub record LoadTests : Type 0 where
    pub tests : Dict Test
    pub db_pool : Bool
    pub runs : List TestRun

  abbrev pub is_run : String → TestRun → Bool
  is_run id r = str_eq r.test_run_id id

  -- `p95_latency_ms FLOAT NOT NULL`
  abbrev pub admits_run : TestRun → Bool
  admits_run r = is_some r.p95_latency_ms

  abbrev pub with_row : TestRun → Option (List TestRun) → Option (List TestRun)
  with_row r none = none
  with_row r (some rows) = some (r ∷ rows)

  -- `UPDATE load_test_runs SET ... WHERE test_run_id=$1`: if one of the new rows violates the
  -- constraint of the table, `none`.
  unfoldable pub update_runs : String → (TestRun → TestRun) → List TestRun → Option (List TestRun)
  update_runs id f [] = some []
  update_runs id f (r ∷ rows) =
      let rest = update_runs id f rows in
      if is_run id r
      then (if admits_run (f r) then with_row (f r) rest else none)
      else with_row r rest

  -- The same in a `try` block that logs.
  abbrev pub update_run : String → Bool → (TestRun → TestRun) → LoadTests → LoadTests
  update_run id ok f s = record s {
    runs = if s.db_pool && ok then or_default (update_runs id f s.runs) s.runs else s.runs;
  }

  -- `test.update(...)`
  abbrev pub update_test : String → (Test → Test) → LoadTests → LoadTests
  update_test id f s = elim (Dict.lookup id s.tests) [
    | none ↦ s
    | some t ↦ record s { tests = Dict.insert id (f t) s.tests }
  ]

  -- `id` is the fresh `uuid4().hex`.
  unfoldable pub start_performance_test : String → ℕ → ℕ → Bool → LoadTests → LoadTests
  start_performance_test id documents duration ok s =
      let target_documents = clamp 10 10000 documents in
      let target_duration = clamp 5 300 duration in
      record s {
        tests =
            Dict.insert id
              (record {
                status = preparing;
                target_documents = target_documents;
                target_duration_seconds = target_duration;
                test_result = none;
                result = none;
              })
              s.tests;
        runs =
            if s.db_pool && ok
            then record {
              test_run_id = id;
              status = preparing;
              target_documents = target_documents;
              target_duration_seconds = target_duration;
              test_result = none;
              result = none;
              p95_latency_ms = some (of_ℕ F 0);
            }
              ∷ s.runs
            else s.runs;
      }

  -- `run_performance_test` up to the burst.
  unfoldable pub begin_test : String → Bool → LoadTests → LoadTests
  begin_test id ok s =
      update_run id ok (λ r. record r { status = running })
        (update_test id (λ t. record t { status = running }) s)

  -- Its rest, with the result of the burst, or none if that raised.
  unfoldable pub conclude_test : String → ℕ → Option (BurstResult F) → Bool → LoadTests → LoadTests
  conclude_test id target (some r) ok s =
      let verdict = determine_test_result F r target in
      update_run id ok
        (λ row. record row {
          status = completed;
          test_result = some verdict;
          result = some r;
          p95_latency_ms = r.p95_latency_ms;
        })
        (update_test id
          (λ t. record t { status = completed; test_result = some verdict; result = some r }) s)
  conclude_test id target none ok s =
      update_run id ok (λ row. record row { status = failed; test_result = some fail })
        (update_test id (λ t. record t { status = failed; test_result = some fail }) s)

  unfoldable pub run_performance_test :
      String → ℕ → Option (BurstResult F) → Bool → Bool → LoadTests → LoadTests
  run_performance_test id target burst begun_ok concluded_ok s =
      conclude_test id target burst concluded_ok (begin_test id begun_ok s)

  pub data FoundTest : Type 0 where
    in_memory : Test → FoundTest
    stored_run : TestRun → FoundTest

  -- `none` is the answer 404.
  unfoldable pub get_performance_test : String → Bool → LoadTests → Option FoundTest
  get_performance_test id ok s = elim (Dict.lookup id s.tests) [
    | some t ↦ some (in_memory t)
    | none ↦
        if s.db_pool && ok
        then elim (find (is_run id) s.runs) [ none ↦ none | some r ↦ some (stored_run r) ]
        else none
  ]
