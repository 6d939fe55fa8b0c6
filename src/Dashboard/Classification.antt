-- ===== src/Dashboard/Classification.antt =====
-- The counts of a burst against the classification of single status codes.
use highthroughputingestion.Base.{
  ℕ, ◌≡◌, refl, Bool, true, false, Option, none, some, List, [], ◌∷◌, count, arith, ◌==◌,
}
use highthroughputingestion.Float.{Float}
use highthroughputingestion.Dashboard.LoadTest.{
  Bucket, accepted_202, rejected_429, rejected_4xx, failed_5xx, failed_transport, Outcome, answered,
  timed_out, transport_error, classify_load_test_status, normalize_code, no_burst, sum_where,
  run_timed_burst, is_4xx,
}
use highthroughputingestion.Dashboard.Verdicts.{counted, sum_where-send_requests}

-- The status code that is classified, None where there is no response.
abbrev pub code_of : Outcome → Option ℕ
code_of (answered code) = some code
code_of timed_out = none
code_of transport_error = none

abbrev pub same_bucket : Bucket → Bucket → Bool
same_bucket accepted_202 accepted_202 = true
same_bucket rejected_429 rejected_429 = true
same_bucket rejected_4xx rejected_4xx = true
same_bucket failed_5xx failed_5xx = true
same_bucket failed_transport failed_transport = true
same_bucket _ _ = false

-- The number of outcomes that are classified into a bucket.
abbrev pub classified : Bucket → List Outcome → ℕ
classified b xs = count (λ x. same_bucket (classify_load_test_status (code_of x)) b) xs

count_agrees :
    (p : ℕ → Bool) (b : Bucket) (xs : List Outcome)
    → ((code : ℕ) → same_bucket (classify_load_test_status (some code)) b ≡ p (normalize_code code))
    → same_bucket failed_transport b ≡ false
    → count (counted p) xs ≡ classified b xs
unfolding classify_load_test_status
count_agrees p b [] same other = refl
count_agrees p b (answered code ∷ xs) same other =
    ground (arith, same code, count_agrees p b xs same other)
count_agrees p b (timed_out ∷ xs) same other = ground (arith, other, count_agrees p b xs same other)
count_agrees p b (transport_error ∷ xs) same other =
    ground (arith, other, count_agrees p b xs same other)

module _ (F : Float) where
  agrees_429 :
      (code : ℕ)
      → same_bucket (classify_load_test_status (some code)) rejected_429
        ≡ (normalize_code code == 429)
  unfolding classify_load_test_status normalize_code
  agrees_429 code = ground arith

  agrees_4xx :
      (code : ℕ)
      → same_bucket (classify_load_test_status (some code)) rejected_4xx
        ≡ is_4xx F (normalize_code code)
  unfolding classify_load_test_status normalize_code
  agrees_4xx code = ground arith

  -- A burst reports as many 429 rejections and as many other client errors as its outcomes have by
  -- the classification of their status codes.
  pub burst_classified :
      (xs : List Outcome) (p95 : Option F.Carrier) (duration : F.Carrier)
      → let r = run_timed_burst F xs p95 duration in
        (r.rejected_429 ≡ classified rejected_429 xs)
        × (r.rejected_4xx ≡ classified rejected_4xx xs)
  unfolding run_timed_burst sum_where
  burst_classified xs p95 duration = (
    omega (
      arith,
      sum_where-send_requests (λ k. k == 429) xs no_burst,
      count_agrees (λ k. k == 429) rejected_429 xs agrees_429 refl,
    ),
    omega (
      arith,
      sum_where-send_requests (is_4xx F) xs no_burst,
      count_agrees (is_4xx F) rejected_4xx xs agrees_4xx refl,
    ),
  )
