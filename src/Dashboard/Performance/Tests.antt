-- ===== src/Dashboard/Performance/Tests.antt =====
-- Concrete load tests.
use highthroughputingestion.Base.{
  ◌≡◌, ◌≢◌, All, String, eq_iff, refl, true, false, none, some, List, [], ◌∷◌,
}
use highthroughputingestion.Base.Dict
use highthroughputingestion.Float.Fixed.{fixed}
use highthroughputingestion.Dashboard.LoadTest.{BurstResult, fail}
use highthroughputingestion.Dashboard.Performance.{
  Test, LoadTests, conclude_test, get_performance_test, completed, preparing, running, in_memory,
}
use highthroughputingestion.Dashboard.Performance.Runs.{
  TestEvent, about, started, begun, run_among, status_of, verdict_of, test_concludes,
  unanswered_run_stays,
}

abbrev prepared : Test fixed
prepared = record {
  status = preparing;
  target_documents = 10;
  target_duration_seconds = 5;
  test_result = none;
  result = none;
}

abbrev load_tests : LoadTests fixed
load_tests = record { tests = ("a", prepared) ∷ []; db_pool = true; runs = [] }

-- No request of the burst was answered.
abbrev unanswered : BurstResult fixed
unanswered = record {
  requested_documents = 10;
  completed_requests = 10;
  accepted = 0;
  rejected_429 = 0;
  rejected_4xx = 0;
  failed_5xx = 0;
  failed_timeout = 10;
  failed_transport = 0;
  p95_latency_ms = none;
  actual_duration = 5000000;
}

abbrev others : List (TestEvent fixed)
others = started "b" 3 2 true ∷ begun "b" true ∷ []

b-ne-a : ◌≢◌ {A = String} "b" "a"
b-ne-a e = let same : false ≡ true = (eq_iff "b" "a").1 e in cc same

different : All (λ e. about fixed e ≢ "a") others
different = (b-ne-a, (b-ne-a, tt))

test_concludes_example :
    (t' : Test fixed) × (get_performance_test fixed "a" true
        (run_among fixed "a" 10 (some unanswered) true false others others load_tests)
      ≡ some (in_memory t'))
    × (t'.status ≡ status_of fixed (some unanswered))
    × (t'.test_result ≡ some (verdict_of fixed 10 (some unanswered)))
test_concludes_example =
    test_concludes fixed "a" 10 (some unanswered) true false others others load_tests prepared refl
      different different

abbrev with_run : LoadTests fixed
with_run = record load_tests {
  runs =
      record {
        test_run_id = "a";
        status = running;
        target_documents = 10;
        target_duration_seconds = 5;
        test_result = none;
        result = none;
        p95_latency_ms = some 0;
      }
      ∷ [];
}

unanswered_run_stays_example :
    let s' = conclude_test fixed "a" 10 (some unanswered) true with_run in
    (s'.runs ≡ with_run.runs)
    × (t' : Test fixed) × (Dict.lookup "a" s'.tests ≡ some t')
    × (t'.status ≡ completed)
    × (t'.test_result ≡ some fail)
unanswered_run_stays_example =
    unanswered_run_stays fixed "a" 10 unanswered true with_run prepared refl refl
