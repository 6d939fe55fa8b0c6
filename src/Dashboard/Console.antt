-- ===== src/Dashboard/Console.antt =====
-- The actions of the console in dashboard/src/app.py: `trigger_burst`, `generate_sample_reports`,
-- `upload_reports` and `get_batch`. The answers of the API are arguments.
use highthroughputingestion.Base.{
  ℕ, zero, suc, ◌+◌, ◌%◌, ◌≤◌, ◌<◌, ◌≡◌, subst, All, Bool-cases, refl, Bool, ◌&&◌, not, Option,
  none, some, String, List, [], ◌∷◌, ◌++◌, length, count, ◌==◌, ltb, leb, if◌then◌else◌, codes,
  Bytes, arith, inl, inr, replicate, ◌-◌,
}
use highthroughputingestion.Base.Dict
use highthroughputingestion.Base.Dict.{Dict}
use highthroughputingestion.Pdf.{create_simple_pdf, decimal}
use highthroughputingestion.Dashboard.LoadTest.{clamp}
use highthroughputingestion.Dashboard.Batches.{Batch}

-- How a request of `trigger_burst` ends: a status code, or 500 if it raises.
abbrev pub burst_code : Option ℕ → ℕ
burst_code none = 500
burst_code (some code) = code

-- `results`, without the latencies.
pub record BurstCounts : Type 0 where
  pub accepted_202 : ℕ
  pub shed_429 : ℕ
  pub server_errors_5xx : ℕ

unfoldable pub count_response : ℕ → BurstCounts → BurstCounts
count_response code c =
    if code == 202
    then record c { accepted_202 = c.accepted_202 + 1 }
    else if code == 429
    then record c { shed_429 = c.shed_429 + 1 }
    else if leb 500 code
    then record c { server_errors_5xx = c.server_errors_5xx + 1 }
    else c

unfoldable pub count_responses : List (Option ℕ) → BurstCounts → BurstCounts
count_responses [] c = c
count_responses (x ∷ rest) c = count_responses rest (count_response (burst_code x) c)

-- `responses` holds an end for each request.
unfoldable pub trigger_burst : List (Option ℕ) → BurstCounts
trigger_burst responses =
    count_responses responses (record { accepted_202 = 0; shed_429 = 0; server_errors_5xx = 0 })

-- The number of requests of a burst.
unfoldable pub burst_size : ℕ → ℕ
burst_size wanted = clamp 10 1000 wanted

-- A file that is handed to `start_batch`.
pub record Report : Type 0 where
  pub name : Bytes
  pub content_type : Bytes
  pub content : Bytes

-- An uploaded file; what is None or empty has a default.
pub record UploadFile : Type 0 where
  pub filename : Option Bytes
  pub content_type : Option Bytes
  pub content : Bytes

abbrev text_or : Option Bytes → Bytes → Bytes
text_or none default = default
text_or (some []) default = default
text_or (some (c ∷ cs)) default = c ∷ cs

unfoldable pub readable : List UploadFile → List Report
readable [] = []
readable (u ∷ rest) =
    let later = readable rest in
    if length u.content == 0
    then later
    else record {
      name = text_or u.filename (codes "uploaded-report");
      content_type = text_or u.content_type (codes "application/octet-stream");
      content = u.content;
    }
      ∷ later

abbrev or_refuse : List Report → Option (List Report)
or_refuse [] = none
or_refuse (r ∷ rs) = some (r ∷ rs)

-- The reports that `upload_reports` hands to `start_batch`; `none` is its `HTTPException` with
-- status 400.
unfoldable pub upload_reports : List UploadFile → Option (List Report)
upload_reports files =
    if length files == 0
    then none
    else if ltb 100 (length files)
    then none
    else or_refuse (readable files)

-- `frameworks[index % len(frameworks)]`
unfoldable pub framework_name : ℕ → Bytes
framework_name index =
    let k = index % 4 in
    if k == 0
    then codes "ISO 27001"
    else if k == 1
    then codes "SOC 2 Type II"
    else if k == 2
    then codes "NIST CSF"
    else codes "PCI DSS v4"

-- `f"{n:03d}"`
abbrev three_digits : ℕ → Bytes
three_digits n = replicate (3 - length (decimal n)) b'0' ++ decimal n

unfoldable pub sample_report : ℕ → Report
sample_report index =
    let number = index + 1 in
    record {
      name = codes "sample-audit-report-" ++ (three_digits number ++ codes ".pdf");
      content_type = codes "application/pdf";
      content = create_simple_pdf (codes "Sample Cybersecurity Audit Report #" ++ decimal number) (
          (codes "Framework: " ++ framework_name index)
          ∷ (codes "Organization: Example Agency " ++ three_digits number)
          ∷ codes "Reporting period: 2026"
          ∷ codes "Assessment summary: Controls were reviewed against the selected framework."
          ∷ codes "This report was generated by AegisIngest for pipeline validation."
          ∷ []);
    }

unfoldable pub sample_reports : ℕ → ℕ → List Report
sample_reports index zero = []
sample_reports index (suc n) = sample_report index ∷ sample_reports (index + 1) n

-- `wanted` is the number in the body, or none if it is no number.
unfoldable pub generate_sample_reports : Option ℕ → Option (List Report)
generate_sample_reports none = none
generate_sample_reports (some wanted) = some (sample_reports 0 (clamp 1 100 wanted))

-- `none` is the answer 404.
unfoldable pub get_batch : String → Dict Batch → Option Batch
get_batch batch_id batches = Dict.lookup batch_id batches

length-readable : (files : List UploadFile) → length (readable files) ≤ length files
unfolding readable
length-readable [] = omega arith
length-readable (u ∷ rest) = ground (arith, length-readable rest)

readable-All : (files : List UploadFile) → All (λ r. 0 < length r.content) (readable files)
unfolding readable
readable-All [] = tt
readable-All (u ∷ rest) = elim (Bool-cases (length u.content == 0)) [
  | inl empty ↦ rw empty (readable-All rest)
  | inr full ↦ rw full (ground (arith), readable-All rest)
]

length-sample_reports : (index n : ℕ) → length (sample_reports index n) ≡ n
unfolding sample_reports
length-sample_reports index zero = refl
length-sample_reports index (suc n) = omega (arith, length-sample_reports (index + 1) n)

-- A batch that `upload_reports` starts has at least one report and at most 100, and none of them is
-- empty.
pub upload_reports_bounded :
    (files : List UploadFile) (reports : List Report)
    → upload_reports files ≡ some reports
    → (1 ≤ length reports) × (length reports ≤ 100) × All (λ r. 0 < length r.content) reports
unfolding upload_reports
upload_reports_bounded files reports e =
    go (readable files) (length-readable files) (readable-All files) e
  where
    go :
        (rs : List Report)
        → length rs ≤ length files
        → All (λ r. 0 < length r.content) rs
        → (if length files == 0
            then none
            else if ltb 100 (length files)
            then none
            else or_refuse rs)
          ≡ some reports
        → (1 ≤ length reports) × (length reports ≤ 100) × All (λ r. 0 < length r.content) reports
    go [] h all e = ground arith
    go (r ∷ rs) h all e =
        let same : r ∷ rs ≡ reports = ground arith in
        subst
          (λ reports.
            (1 ≤ length reports) × (length reports ≤ 100) × All (λ r. 0 < length r.content) reports)
          same (omega arith, ground arith, all)

-- A response that is neither 202 nor 429 nor a failure of the server.
abbrev pub is_uncounted : Option ℕ → Bool
is_uncounted x = let code = burst_code x in not (code == 202) && not (code == 429) && ltb code 500

count_responses_sum :
    (responses : List (Option ℕ)) (c : BurstCounts)
    → let r = count_responses responses c in
      (r.accepted_202 ≡ c.accepted_202 + count (λ x. burst_code x == 202) responses)
      × (r.shed_429 ≡ c.shed_429 + count (λ x. burst_code x == 429) responses)
      × (r.accepted_202 + r.shed_429 + r.server_errors_5xx + count is_uncounted responses
          ≡ c.accepted_202 + c.shed_429 + c.server_errors_5xx + length responses)
unfolding count_responses count_response
count_responses_sum [] c = omega arith
count_responses_sum (x ∷ rest) c =
    ground (arith, count_responses_sum rest (count_response (burst_code x) c))

-- A burst of the console counts as accepted the answers 202 and as shed the answers 429; the counts
-- add up to the number of requests less the answers that are neither of these nor a server's
-- failure, among them the 200 of a duplicate: these are counted nowhere.
pub trigger_burst_accounted :
    (responses : List (Option ℕ))
    → let r = trigger_burst responses in
      (r.accepted_202 ≡ count (λ x. burst_code x == 202) responses)
      × (r.shed_429 ≡ count (λ x. burst_code x == 429) responses)
      × (r.accepted_202 + r.shed_429 + r.server_errors_5xx + count is_uncounted responses
          ≡ length responses)
unfolding trigger_burst
trigger_burst_accounted responses =
    let (a, s, all) =
      count_responses_sum responses
        (record { accepted_202 = 0; shed_429 = 0; server_errors_5xx = 0 }) in
    (omega (arith, a), omega (arith, s), omega (arith, all))
