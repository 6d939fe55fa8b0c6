-- ===== src/Dashboard/LoadTest.antt =====
-- The load tests of the dashboard: `_run_timed_burst`, `classify_load_test_status`,
-- `calculate_throughput_docs_per_sec`, `determine_test_result`, and the limits of
-- `start_performance_test`. The clock, the percentiles of the latencies and the database rows of
-- a test are parameters.
use highthroughputingestion.Base.{
  ℕ, ◌+◌, Bool, true, ◌&&◌, ◌||◌, not, Option, none, some, List, [], ◌∷◌, length, ◌==◌, ltb, leb,
  if◌then◌else◌,
}
use highthroughputingestion.Float.{Float, of_ℕ, lt}

pub data Bucket : Type 0 where
  accepted_202 rejected_429 rejected_4xx failed_5xx failed_transport : Bucket

-- The bucket of `classify_load_test_status`; `success` is that of `accepted_202`.
unfoldable pub classify_load_test_status : Option ℕ → Bucket
classify_load_test_status none = failed_transport
classify_load_test_status (some code) =
    if code == 200 || code == 202
    then accepted_202
    else if code == 429
    then rejected_429
    else if leb 400 code && ltb code 500
    then rejected_4xx
    else if leb 500 code && ltb code 600
    then failed_5xx
    else failed_transport

-- How a request of a burst ends.
pub data Outcome : Type 0 where
  answered : ℕ → Outcome
  timed_out : Outcome
  transport_error : Outcome

-- The code that a response is counted under.
unfoldable pub normalize_code : ℕ → ℕ
normalize_code code =
    if code == 200 || code == 202
    then 202
    else if code == 429
    then 429
    else if leb 400 code && ltb code 500
    then 400
    else if leb 500 code
    then 500
    else 202

-- `status_codes`, as the list of its items.
abbrev pub Codes : Type 0
Codes = List (ℕ × ℕ)

abbrev pub no_codes : Codes
no_codes = (202, 0) ∷ (429, 0) ∷ (400, 0) ∷ (404, 0) ∷ (500, 0) ∷ (503, 0) ∷ []

-- `status_codes[code] = status_codes.get(code, 0) + 1`
unfoldable pub bump : ℕ → Codes → Codes
bump code [] = (code, 1) ∷ []
bump code ((k, n) ∷ rest) = if k == code then (k, n + 1) ∷ rest else (k, n) ∷ bump code rest

pub record Burst : Type 0 where
  pub status_codes : Codes
  pub timeouts : ℕ
  pub transport_failures : ℕ

abbrev pub no_burst : Burst
no_burst = record { status_codes = no_codes; timeouts = 0; transport_failures = 0 }

-- The end of one request.
unfoldable pub send_single : Outcome → Burst → Burst
send_single (answered code) b = record b {
  status_codes = bump (normalize_code code) b.status_codes;
}
send_single timed_out b = record b { timeouts = b.timeouts + 1 }
send_single transport_error b = record b { transport_failures = b.transport_failures + 1 }

-- Every request, in the order of their ends.
unfoldable pub send_requests : List Outcome → Burst → Burst
send_requests [] b = b
send_requests (x ∷ xs) b = send_requests xs (send_single x b)

-- `sum(v for k, v in status_codes.items() if p(k))`
unfoldable pub sum_where : (ℕ → Bool) → Codes → ℕ
sum_where p [] = 0
sum_where p ((k, n) ∷ rest) = (if p k then n else 0) + sum_where p rest

-- The values of the result that the verdict reads; `p95` is None if no request was answered.
module _ (F : Float) where
  pub record BurstResult : Type 0 where
    pub requested_documents : ℕ
    pub completed_requests : ℕ
    pub accepted : ℕ
    pub rejected_429 : ℕ
    pub rejected_4xx : ℕ
    pub failed_5xx : ℕ
    pub failed_timeout : ℕ
    pub failed_transport : ℕ
    pub p95_latency_ms : Option F.Carrier
    pub actual_duration : F.Carrier

  abbrev pub is_4xx : ℕ → Bool
  is_4xx k = leb 400 k && ltb k 500 && not (k == 429)

  -- `outcomes` are those of all the tasks, and `p95` and `duration` are measured.
  unfoldable pub run_timed_burst : List Outcome → Option F.Carrier → F.Carrier → BurstResult
  run_timed_burst outcomes p95 duration =
      let b = send_requests outcomes no_burst in
      record {
        requested_documents = length outcomes;
        completed_requests = length outcomes;
        accepted = sum_where (λ k. k == 202) b.status_codes;
        rejected_429 = sum_where (λ k. k == 429) b.status_codes;
        rejected_4xx = sum_where is_4xx b.status_codes;
        failed_5xx = sum_where (λ k. leb 500 k) b.status_codes;
        failed_timeout = b.timeouts;
        failed_transport = b.transport_failures;
        p95_latency_ms = p95;
        actual_duration = duration;
      }

  unfoldable pub calculate_throughput_docs_per_sec : BurstResult → F.Carrier
  calculate_throughput_docs_per_sec r =
      if r.accepted == 0
      then of_ℕ F 0
      else if F.le r.actual_duration (of_ℕ F 0)
      then of_ℕ F 0
      else F.round (F.div (of_ℕ F r.accepted) r.actual_duration) 2

  pub data Verdict : Type 0 where
    pass fail : Verdict

  abbrev pub too_slow : Option F.Carrier → Bool
  too_slow none = true
  too_slow (some p95) = F.le (of_ℕ F 150) p95

  unfoldable pub determine_test_result : BurstResult → ℕ → Verdict
  determine_test_result r target =
      if r.requested_documents == 0 || r.completed_requests == 0
      then fail
      else if ltb r.completed_requests r.requested_documents
      then fail
      else if ltb r.requested_documents target
      then fail
      else if ltb 0 r.failed_5xx
      then fail
      else if ltb 0 r.failed_timeout || ltb 0 r.failed_transport
      then fail
      else if too_slow r.p95_latency_ms
      then fail
      else if lt F (F.div (of_ℕ F r.accepted) (of_ℕ F r.requested_documents)) (F.decimal 75 2)
      then fail
      else pass

-- `min(10000, max(10, n))` and `min(300, max(5, n))`
unfoldable pub clamp : ℕ → ℕ → ℕ → ℕ
clamp low high n = let m = (if ltb low n then n else low) in if ltb m high then m else high
