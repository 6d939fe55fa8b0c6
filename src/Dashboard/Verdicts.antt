-- ===== src/Dashboard/Verdicts.antt =====
-- What the counts of a burst and its verdict say of the requests.
use highthroughputingestion.Base.{
  ℕ, ◌+◌, ◌≤◌, ◌≡◌, refl, Bool, true, false, Option, List, [], ◌∷◌, length, count, All, ◌==◌, ltb,
  leb, if◌then◌else◌, arith,
}
use highthroughputingestion.Float.{Float, of_ℕ, lt}
use highthroughputingestion.Dashboard.LoadTest.{
  Outcome, answered, timed_out, transport_error, normalize_code, Codes, no_burst, bump, Burst,
  send_single, send_requests, sum_where, BurstResult, is_4xx, run_timed_burst, pass,
  determine_test_result,
}

-- A code that is counted is counted once, where the test holds of it.
sum_where-bump :
    (p : ℕ → Bool) (code : ℕ) (codes : Codes)
    → sum_where p (bump code codes) ≡ (if p code then 1 else 0) + sum_where p codes
unfolding sum_where bump
sum_where-bump p code [] = ground arith
sum_where-bump p code ((k, n) ∷ rest) = ground (arith, sum_where-bump p code rest)

-- The outcomes that are counted under a code with `p`.
abbrev pub counted : (ℕ → Bool) → Outcome → Bool
counted p (answered code) = p (normalize_code code)
counted p timed_out = false
counted p transport_error = false

abbrev is_timeout : Outcome → Bool
is_timeout (answered code) = false
is_timeout timed_out = true
is_timeout transport_error = false

abbrev is_transport : Outcome → Bool
is_transport (answered code) = false
is_transport timed_out = false
is_transport transport_error = true

pub sum_where-send_requests :
    (p : ℕ → Bool) (xs : List Outcome) (b : Burst)
    → sum_where p (send_requests xs b).status_codes
      ≡ count (counted p) xs + sum_where p b.status_codes
unfolding send_requests send_single
sum_where-send_requests p [] b = omega arith
sum_where-send_requests p (answered code ∷ xs) b = ground (
  arith,
  sum_where-send_requests p xs (send_single (answered code) b),
  sum_where-bump p (normalize_code code) b.status_codes,
)
sum_where-send_requests p (timed_out ∷ xs) b =
    sum_where-send_requests p xs (send_single timed_out b)
sum_where-send_requests p (transport_error ∷ xs) b =
    sum_where-send_requests p xs (send_single transport_error b)

failures-send_requests :
    (xs : List Outcome) (b : Burst)
    → ((send_requests xs b).timeouts ≡ count is_timeout xs + b.timeouts)
      × ((send_requests xs b).transport_failures ≡ count is_transport xs + b.transport_failures)
unfolding send_requests send_single
failures-send_requests [] b = ground arith
failures-send_requests (answered code ∷ xs) b =
    ground (arith, failures-send_requests xs (send_single (answered code) b))
failures-send_requests (timed_out ∷ xs) b =
    ground (arith, failures-send_requests xs (send_single timed_out b))
failures-send_requests (transport_error ∷ xs) b =
    ground (arith, failures-send_requests xs (send_single transport_error b))

abbrev is_202 : ℕ → Bool
is_202 k = k == 202

abbrev is_429 : ℕ → Bool
is_429 k = k == 429

abbrev is_5xx : ℕ → Bool
is_5xx k = leb 500 k

module _ (F : Float) where
  -- Each outcome has one of the six counts.
  counts_cover :
      (xs : List Outcome)
      → count (counted is_202) xs
          + count (counted is_429) xs
          + count (counted (is_4xx F)) xs
          + count (counted is_5xx) xs
          + count is_timeout xs
          + count is_transport xs
        ≡ length xs
  unfolding normalize_code
  counts_cover [] = refl
  counts_cover (answered code ∷ xs) = ground (arith, counts_cover xs)
  counts_cover (timed_out ∷ xs) = ground (arith, counts_cover xs)
  counts_cover (transport_error ∷ xs) = ground (arith, counts_cover xs)

  -- The six counts of a burst add up to the requests.
  pub burst_accounted :
      (xs : List Outcome) (p95 : Option F.Carrier) (duration : F.Carrier)
      → let r = run_timed_burst F xs p95 duration in
        r.accepted + r.rejected_429 + r.rejected_4xx + r.failed_5xx + r.failed_timeout
          + r.failed_transport
        ≡ r.requested_documents
  unfolding run_timed_burst sum_where
  burst_accounted xs p95 duration = omega (
    arith,
    counts_cover xs,
    sum_where-send_requests is_202 xs no_burst,
    sum_where-send_requests is_429 xs no_burst,
    sum_where-send_requests (is_4xx F) xs no_burst,
    sum_where-send_requests is_5xx xs no_burst,
    failures-send_requests xs no_burst,
  )

-- A request that is answered, and not with a server error.
abbrev pub is_served : Outcome → Bool
is_served (answered code) = ltb code 500
is_served timed_out = false
is_served transport_error = false

All-served :
    (xs : List Outcome)
    → count (counted is_5xx) xs ≡ 0
    → count is_timeout xs ≡ 0
    → count is_transport xs ≡ 0
    → All (λ x. is_served x ≡ true) xs
unfolding normalize_code
All-served [] a b c = tt
All-served (answered code ∷ xs) a b c = (ground arith, All-served xs (ground arith) b c)
All-served (timed_out ∷ xs) a b c = ground (arith, b)
All-served (transport_error ∷ xs) a b c = ground (arith, c)

module _ (F : Float) where
  pass_clean :
      (r : BurstResult F) (target : ℕ)
      → determine_test_result F r target ≡ pass
      → (target ≤ r.requested_documents)
        × (r.failed_5xx ≡ 0)
        × (r.failed_timeout ≡ 0)
        × (r.failed_transport ≡ 0)
        × (lt F (F.div (of_ℕ F r.accepted) (of_ℕ F r.requested_documents)) (F.decimal 75 2) ≡ false)
  unfolding determine_test_result
  pass_clean r target e = ground arith

  -- A burst that passes has sent the target number of requests, every one of which was answered,
  -- and none with a server error.
  pub pass-All_served :
      (xs : List Outcome) (p95 : Option F.Carrier) (duration : F.Carrier) (target : ℕ)
      → determine_test_result F (run_timed_burst F xs p95 duration) target ≡ pass
      → (target ≤ length xs) × All (λ x. is_served x ≡ true) xs
  unfolding run_timed_burst sum_where
  pass-All_served xs p95 duration target e =
      let (enough, no_5xx, no_timeout, no_transport, _) =
        pass_clean (run_timed_burst F xs p95 duration) target e in
      let (timeouts, transports) = failures-send_requests xs no_burst in
      (
        enough,
        All-served xs (omega (arith, no_5xx, sum_where-send_requests is_5xx xs no_burst))
            (omega (arith, no_timeout, timeouts)) (omega (arith, no_transport, transports)),
      )
