-- ===== src/Dashboard/Performance/Runs.antt =====
-- A load test among others that run at the same time.
use highthroughputingestion.Base.{
  ℕ, ◌≡◌, ◌≢◌, refl, ◌∙◌, sym, ap, Bool, true, false, Option, none, some, String, eq_iff, List, [],
  ◌∷◌, find, arith, All, Option-cases, inl, inr,
}
use highthroughputingestion.Base.Dict
use highthroughputingestion.Float.{Float}
use highthroughputingestion.Dashboard.LoadTest.{BurstResult, Verdict, fail, determine_test_result}
use highthroughputingestion.Dashboard.Performance.{
  Test, TestRun, LoadTests, TestStatus, completed, failed, running, start_performance_test,
  begin_test, conclude_test, get_performance_test, is_run, admits_run, update_runs, update_run,
  update_test, in_memory,
}

module _ (F : Float) where
  -- What happens to a test, with the answer of the database.
  pub data TestEvent : Type 0 where
    started : String → ℕ → ℕ → Bool → TestEvent
    begun : String → Bool → TestEvent
    concluded : String → ℕ → Option (BurstResult F) → Bool → TestEvent

  abbrev pub about : TestEvent → String
  about (started id n t ok) = id
  about (begun id ok) = id
  about (concluded id n burst ok) = id

  unfoldable pub happen : TestEvent → LoadTests F → LoadTests F
  happen (started id n t ok) s = start_performance_test F id n t ok s
  happen (begun id ok) s = begin_test F id ok s
  happen (concluded id n burst ok) s = conclude_test F id n burst ok s

  unfoldable pub happen_all : List TestEvent → LoadTests F → LoadTests F
  happen_all [] s = s
  happen_all (e ∷ es) s = happen_all es (happen e s)

  -- The test and the row of an identifier.
  abbrev Entries : Type 0
  Entries = Option (Test F) × Option (TestRun F)

  abbrev entries : String → LoadTests F → Entries
  entries id s = (Dict.lookup id s.tests, find (is_run F id) s.runs)

  lookup-update_test :
      (j id : String) (f : Test F → Test F) (s : LoadTests F)
      → j ≢ id
      → Dict.lookup id (update_test F j f s).tests ≡ Dict.lookup id s.tests
  lookup-update_test j id f s other = elim (Option-cases (Dict.lookup j s.tests)) [
    | inl missing ↦ ground arith
    | inr (t, found) ↦ ground (arith, Dict.lookup-insert_ne id j (f t) s.tests (λ e. other (sym e)))
  ]

  -- An update of one run leaves the row of another.
  find-update_runs :
      (j id : String) (f : TestRun F → TestRun F) (rows rows' : List (TestRun F))
      → ((r : TestRun F) → (f r).test_run_id ≡ r.test_run_id)
      → j ≢ id
      → update_runs F j f rows ≡ some rows'
      → find (is_run F id) rows' ≡ find (is_run F id) rows
  unfolding update_runs
  find-update_runs j id f [] rows' named other e = cc
  find-update_runs j id f (r ∷ rows) rows' named other e =
      elim (Option-cases (update_runs F j f rows)) [
        | inl refused ↦ ground (arith, e)
        | inr (rest, done) ↦ ground (
          arith,
          e,
          named r,
          eq_iff r.test_run_id j,
          eq_iff r.test_run_id id,
          find-update_runs j id f rows rest named other done,
        )
      ]

  -- An update that would violate the constraint in every row does not touch a row of its run.
  update_runs-refused :
      (id : String) (f : TestRun F → TestRun F) (rows rows' : List (TestRun F))
      → ((r : TestRun F) → admits_run F (f r) ≡ false)
      → update_runs F id f rows ≡ some rows'
      → rows' ≡ rows
  unfolding update_runs
  update_runs-refused id f [] rows' bad e = cc
  update_runs-refused id f (r ∷ rows) rows' bad e = elim (Option-cases (update_runs F id f rows)) [
    | inl refused ↦ ground (arith, e, bad r)
    | inr (rest, done) ↦ ground (arith, e, bad r, update_runs-refused id f rows rest bad done)
  ]

  find-update_run :
      (j id : String) (ok : Bool) (f : TestRun F → TestRun F) (s : LoadTests F)
      → ((r : TestRun F) → (f r).test_run_id ≡ r.test_run_id)
      → j ≢ id
      → find (is_run F id) (update_run F j ok f s).runs ≡ find (is_run F id) s.runs
  find-update_run j id ok f s named other = elim (Option-cases (update_runs F j f s.runs)) [
    | inl refused ↦ ground (arith, refused)
    | inr (rows, done) ↦ ground (arith, done, find-update_runs j id f s.runs rows named other done)
  ]

  lookup-update_test_self :
      (id : String) (f : Test F → Test F) (s : LoadTests F) {t : Test F}
      → Dict.lookup id s.tests ≡ some t
      → Dict.lookup id (update_test F id f s).tests ≡ some (f t)
  lookup-update_test_self id f s {t} found =
      ground (arith, Dict.lookup-insert_self id (f t) s.tests)

  update_test-rest :
      (id : String) (f : Test F → Test F) (s : LoadTests F)
      → ((update_test F id f s).runs ≡ s.runs) × ((update_test F id f s).db_pool ≡ s.db_pool)
  update_test-rest id f s = ground arith

  -- What happens to one test leaves another, its row and the connection alone.
  record IsUntouched (id : String) (s s' : LoadTests F) : Type 0 where
    test : Dict.lookup id s'.tests ≡ Dict.lookup id s.tests
    run : find (is_run F id) s'.runs ≡ find (is_run F id) s.runs
    pool : s'.db_pool ≡ s.db_pool

  updates-IsUntouched :
      (j id : String) (ok : Bool) (f : TestRun F → TestRun F) (g : Test F → Test F)
      (s : LoadTests F)
      → ((r : TestRun F) → (f r).test_run_id ≡ r.test_run_id)
      → j ≢ id
      → IsUntouched id s (update_run F j ok f (update_test F j g s))
  updates-IsUntouched j id ok f g s named other =
      let rest = update_test-rest j g s in
      record {
        test = lookup-update_test j id g s other;
        run =
            find-update_run j id ok f (update_test F j g s) named other
            ∙ ap (find (is_run F id)) rest.0;
        pool = rest.1;
      }

  happen-IsUntouched :
      (e : TestEvent) (id : String) (s : LoadTests F) → about e ≢ id → IsUntouched id s (happen e s)
  unfolding happen start_performance_test begin_test conclude_test
  happen-IsUntouched (started j n t ok) id s other = record {
    test = Dict.lookup-insert_ne id j _ s.tests (λ e. other (sym e));
    run = ground (arith, eq_iff j id);
    pool = refl;
  }
  happen-IsUntouched (begun j ok) id s other = updates-IsUntouched j id ok _ _ s (λ r. refl) other
  happen-IsUntouched (concluded j n (some r) ok) id s other =
      updates-IsUntouched j id _ _ _ s (λ r. refl) other
  happen-IsUntouched (concluded j n none ok) id s other =
      updates-IsUntouched j id ok _ _ s (λ r. refl) other

  happen_all-IsUntouched :
      (es : List TestEvent) (id : String) (s : LoadTests F)
      → All (λ e. about e ≢ id) es
      → IsUntouched id s (happen_all es s)
  unfolding happen_all
  happen_all-IsUntouched [] id s h = record { test = refl; run = refl; pool = refl }
  happen_all-IsUntouched (e ∷ es) id s (other, others) =
      let now = happen-IsUntouched e id s other in
      let later = happen_all-IsUntouched es id (happen e s) others in
      record {
        test = later.test ∙ now.test;
        run = later.run ∙ now.run;
        pool = later.pool ∙ now.pool;
      }

  -- How a test stands after a burst.
  abbrev pub verdict_of : ℕ → Option (BurstResult F) → Verdict F
  verdict_of target none = fail
  verdict_of target (some r) = determine_test_result F r target

  abbrev pub status_of : Option (BurstResult F) → TestStatus
  status_of none = failed
  status_of (some r) = completed

  -- A test among others: what its `begin_test` and `conclude_test` do, with what happens to other
  -- tests between them and afterwards.
  abbrev pub run_among :
      String
      → ℕ
      → Option (BurstResult F)
      → Bool
      → Bool
      → List TestEvent
      → List TestEvent
      → LoadTests F
      → LoadTests F
  run_among id target burst begun_ok concluded_ok between after s = happen_all after (
      conclude_test F id target burst concluded_ok
        (happen_all between (begin_test F id begun_ok s)))

  conclude_test-test :
      (burst : Option (BurstResult F)) (id : String) (target : ℕ) (ok : Bool) (s : LoadTests F)
      {t : Test F}
      → Dict.lookup id s.tests ≡ some t
      → (t' : Test F) × (Dict.lookup id (conclude_test F id target burst ok s).tests ≡ some t')
        × (t'.status ≡ status_of burst)
        × (t'.test_result ≡ some (verdict_of target burst))
  unfolding conclude_test
  conclude_test-test none id target ok s {t} h = (
    _,
    lookup-update_test_self id (λ t. record t { status = failed; test_result = some fail }) s h,
    refl,
    refl,
  )
  conclude_test-test (some r) id target ok s {t} h = (
    _,
    lookup-update_test_self id
        (λ t. record t {
          status = completed;
          test_result = some (determine_test_result F r target);
          result = some r;
        })
        s h,
    refl,
    refl,
  )

  -- A load test that is known in memory, and whose burst gives a result or raises, whatever happens
  -- to other tests between its start and its end and afterwards, and whether the database answers or
  -- not: its status is then COMPLETED with the verdict of `determine_test_result`, or FAILED with
  -- the verdict FAIL if the burst raised.
  pub test_concludes :
      (id : String) (target : ℕ) (burst : Option (BurstResult F)) (begun_ok concluded_ok : Bool)
      (between after : List TestEvent) (s : LoadTests F) (t : Test F)
      → Dict.lookup id s.tests ≡ some t
      → All (λ e. about e ≢ id) between
      → All (λ e. about e ≢ id) after
      → (t' : Test F) × (get_performance_test F id true
            (run_among id target burst begun_ok concluded_ok between after s)
          ≡ some (in_memory t'))
        × (t'.status ≡ status_of burst)
        × (t'.test_result ≡ some (verdict_of target burst))
  unfolding get_performance_test begin_test
  test_concludes id target burst begun_ok concluded_ok between after s t found before later =
      let begun = lookup-update_test_self id (λ t. record t { status = running }) s found in
      let s1 = begin_test F id begun_ok s in
      let s2 = happen_all between s1 in
      let (t', stands, status, verdict) =
        conclude_test-test burst id target concluded_ok s2
          ((happen_all-IsUntouched between id s1 before).test ∙ begun) in
      let s3 = conclude_test F id target burst concluded_ok s2 in
      let kept = (happen_all-IsUntouched after id s3 later).test ∙ stands in
      (t', ground (arith, kept), status, verdict)

  -- The result of a burst without a 95th percentile, as that of a burst in which no request is
  -- answered: in memory the test is concluded with FAIL, but no row of the table changes, since it
  -- refuses the update, whether the database answers or not.
  pub unanswered_run_stays :
      (id : String) (target : ℕ) (r : BurstResult F) (ok : Bool) (s : LoadTests F) (t : Test F)
      → Dict.lookup id s.tests ≡ some t
      → r.p95_latency_ms ≡ none
      → let s' = conclude_test F id target (some r) ok s in
        (s'.runs ≡ s.runs)
        × (t' : Test F) × (Dict.lookup id s'.tests ≡ some t')
        × (t'.status ≡ completed)
        × (t'.test_result ≡ some fail)
  unfolding conclude_test determine_test_result
  unanswered_run_stays id target r ok s t found none_answered =
      let (t', stands, status, verdict) = conclude_test-test (some r) id target ok s found in
      let rest =
        update_test-rest id
          (λ t. record t {
            status = completed;
            test_result = some (determine_test_result F r target);
            result = some r;
          })
          s in
      (rows_stay ok (update_test F id _ s) ∙ rest.0, t', stands, status, verdict ∙ ground arith)
    where
      rows_stay :
          (ok : Bool) (s : LoadTests F)
          → (update_run F id ok
              (λ row. record row {
                status = completed;
                test_result = some (determine_test_result F r target);
                result = some r;
                p95_latency_ms = r.p95_latency_ms;
              })
              s).runs
            ≡ s.runs
      rows_stay ok s =
          let f : TestRun F → TestRun F = λ row. record row {
            status = completed;
            test_result = some (determine_test_result F r target);
            result = some r;
            p95_latency_ms = r.p95_latency_ms;
          } in
          elim (Option-cases (update_runs F id f s.runs)) [
            | inl refused ↦ ground (arith, refused)
            | inr (rows, done) ↦ ground (
              arith,
              done,
              update_runs-refused id f s.runs rows (λ row. rw none_answered refl) done,
            )
          ]
