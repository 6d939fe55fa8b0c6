-- ===== src/Limiter/Tests.antt =====
-- Concrete runs of the limiters, in the fixed-point arithmetic.
use highthroughputingestion.Base.{◌≡◌, refl, true, false, [], ◌∷◌, arith}
use highthroughputingestion.Base.Dict.{insert}
use highthroughputingestion.Float.Fixed.{fixed, fixed-IsIeee}
use highthroughputingestion.Limiter.{
  Limiter, RateLimiter, new_limiter, acquire, smooth, release, new_rate_limiter, check_agency_limit,
}
use highthroughputingestion.Limiter.Bounds.{IsValid, new_limiter-IsValid, release_healthy}
use highthroughputingestion.Limiter.Pipelines.{
  Pipelines, here, next, admit, IsCounted, pipelines-IsCounted,
}
use highthroughputingestion.Limiter.Buckets.{
  IsSound, check_agency_limit-IsSound, burst, cut_off, burst_exact,
}

-- 25 to 500 pipelines, 35 ms, steps of 4 up and by 0.85 down.
abbrev fresh : Limiter fixed
fresh = new_limiter fixed 25 500 35000000 4000000 850000

fresh-IsValid : IsValid fresh
fresh-IsValid =
    new_limiter-IsValid fixed-IsIeee 25 500 35000000 4000000 850000 (omega arith) (omega arith) refl
      refl

admitted : (acquire fixed fresh).0.0 ≡ true
unfolding acquire new_limiter
admitted = refl

-- A limiter with all of its 50 slots taken.
abbrev full : Limiter fixed
full = record fresh { in_flight = 50 }

refused : (acquire fixed full).0.0 ≡ false
unfolding acquire new_limiter
refused = refl

healthy : fixed.le (smooth fixed fresh 20000000) fresh.target_rtt_ms ≡ true
unfolding smooth new_limiter
healthy = refl

release_healthy_example :
    fixed.le fresh.current_limit (release fixed 20000000 fresh).current_limit ≡ true
release_healthy_example = release_healthy fixed-IsIeee 20000000 fresh-IsValid healthy

abbrev initial : Pipelines fixed
initial = record { limiter = fresh; active = [] }

abbrev one_request : Pipelines fixed
one_request = record { limiter = (acquire fixed fresh).1; active = 7 ∷ [] }

pipelines-IsCounted_example : IsCounted 500 one_request
pipelines-IsCounted_example =
    pipelines-IsCounted fixed-IsIeee 25 500 35000000 4000000 850000 {s = one_request} (omega arith)
      (omega arith) refl refl (next here (admit initial 7 admitted))

-- Two tokens at once, one more each second.
abbrev buckets : RateLimiter fixed
buckets = new_rate_limiter fixed 2 1000000

buckets-IsSound : IsSound buckets
unfolding new_rate_limiter
buckets-IsSound = record {
  capacity_pos = omega arith;
  rate_pos = refl;
  tokens_nonneg = λ a b found. cc;
  tokens_le = λ a b found. cc;
}

check_agency_limit-IsSound_example : IsSound (check_agency_limit fixed "agency" 5000000 buckets).1
check_agency_limit-IsSound_example =
    check_agency_limit-IsSound fixed-IsIeee "agency" 5000000 buckets buckets-IsSound

burst_exact_example : (burst fixed 4 "agency" 5000000 buckets).0 ≡ cut_off 2 4
unfolding new_rate_limiter
burst_exact_example =
    burst_exact fixed-IsIeee "agency" 5000000 4 buckets (omega arith) (omega arith) refl

abbrev empty_bucket : RateLimiter fixed
empty_bucket = record {
  burst_capacity = 2;
  refill_rate = 1000000;
  local_buckets = insert "agency" (record { tokens = 0; last_refill = 5000000 }) [];
}
