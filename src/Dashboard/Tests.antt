-- ===== src/Dashboard/Tests.antt =====
-- Concrete runs of the dashboard's logic.
use highthroughputingestion.Base.{
  ◌≡◌, ◌≤◌, ◌+◌, refl, ℕ, Option, count, String, true, none, some, List, [], ◌∷◌, All,
}
use highthroughputingestion.Float.Fixed.{fixed}
use highthroughputingestion.Database.{completed, failed}
use highthroughputingestion.Repository.{status_count}
use highthroughputingestion.Samples.{sample_database}
use highthroughputingestion.Dashboard.Lifecycle.{
  reconcile_document_lifecycle, status_rows, KeepsNames, reconcile_partition,
}
use highthroughputingestion.Dashboard.Batches.{Upload}
use highthroughputingestion.Dashboard.LoadTest.{
  Outcome, answered, timed_out, run_timed_burst, determine_test_result, pass, send_requests,
  send_single, bump, normalize_code, sum_where,
}
use highthroughputingestion.Dashboard.Classification.{burst_classified, classified}
use highthroughputingestion.Dashboard.Console.{trigger_burst, is_uncounted, trigger_burst_accounted}
use highthroughputingestion.Dashboard.LoadTest.{rejected_429, rejected_4xx}
use highthroughputingestion.Dashboard.Verdicts.{pass-All_served, is_served}

abbrev same_text : String → String
same_text k = k

names_kept : KeepsNames same_text
names_kept = record {
  queued_name = refl;
  processing_name = refl;
  retrying_name = refl;
  completed_name = refl;
  failed_name = refl;
}

reconcile_partition_example :
    let l = reconcile_document_lifecycle same_text (some (status_rows sample_database.documents)) in
    (l.submitted ≡ 1)
    × (l.processing + l.completed + l.failed ≡ 1)
    × (l.completed ≡ status_count completed sample_database.documents)
    × (l.failed ≡ status_count failed sample_database.documents)
reconcile_partition_example = reconcile_partition same_text sample_database.documents names_kept

abbrev uploads : List Upload
uploads =
    record { name = "a.pdf"; status_code = some 202 }
    ∷ record { name = "b.pdf"; status_code = some 429 }
    ∷ record { name = "c.pdf"; status_code = none }
    ∷ []

abbrev outcomes : List Outcome
outcomes = answered 202 ∷ answered 200 ∷ answered 202 ∷ answered 429 ∷ []

passes :
    determine_test_result fixed (run_timed_burst fixed outcomes (some 90000000) 1000000) 4 ≡ pass
unfolding determine_test_result run_timed_burst send_requests send_single bump normalize_code
    sum_where
passes = refl

pass-All_served_example : (4 ≤ 4) × All (λ x. is_served x ≡ true) outcomes
pass-All_served_example = pass-All_served fixed outcomes (some 90000000) 1000000 4 passes

burst_classified_example :
    let r = run_timed_burst fixed (timed_out ∷ outcomes) none 1000000 in
    (r.rejected_429 ≡ classified rejected_429 (timed_out ∷ outcomes))
    × (r.rejected_4xx ≡ classified rejected_4xx (timed_out ∷ outcomes))
burst_classified_example = burst_classified fixed (timed_out ∷ outcomes) none 1000000

-- A burst of the console in which one request is a duplicate.
abbrev responses : List (Option ℕ)
responses = some 202 ∷ some 200 ∷ some 429 ∷ none ∷ []

trigger_burst_accounted_example :
    let r = trigger_burst responses in
    (r.accepted_202 ≡ 1)
    × (r.shed_429 ≡ 1)
    × (r.accepted_202 + r.shed_429 + r.server_errors_5xx + count is_uncounted responses ≡ 4)
trigger_burst_accounted_example = trigger_burst_accounted responses
