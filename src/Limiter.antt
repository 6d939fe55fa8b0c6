-- ===== src/Limiter.antt =====
-- `AdaptiveConcurrencyLimiter` and `TokenBucketRateLimiter` of api/src/limiter.py. Each method runs
-- under its object's lock, so it is one step: a function from the object to its result and the
-- object afterwards.
pub mod Bounds
pub mod Admission
pub mod Pipelines
pub mod Buckets
mod Tests
use highthroughputingestion.Base.{Exec, Result, returned, raised, zero_division_error, ◌&&◌}
use highthroughputingestion.Base.{ℕ, ◌+◌, ◌-◌, ◌*◌, Bool, true, false, Option, none, some}
use highthroughputingestion.Base.{String, [], if◌then◌else◌, sub_ℕ}
use highthroughputingestion.Base.Dict
use highthroughputingestion.Base.Dict.{Dict}
use highthroughputingestion.Float.{Float, of_ℕ, min, max, lt_floor}

pub record Limiter (F : Float) : Type 0 where
  pub min_limit : ℕ
  pub max_limit : ℕ
  pub target_rtt_ms : F.Carrier
  pub alpha : F.Carrier
  pub beta : F.Carrier
  pub current_limit : F.Carrier
  pub in_flight : ℕ
  pub smoothed_rtt_ms : F.Carrier
  pub ema_weight : F.Carrier

pub record Stats (F : Float) : Type 0 where
  pub current_limit : F.Carrier
  pub in_flight : ℕ
  pub smoothed_rtt_ms : F.Carrier
  pub target_rtt_ms : F.Carrier
  pub utilization_pct : F.Carrier

-- One agency's bucket.
pub record Bucket (F : Float) : Type 0 where
  pub tokens : F.Carrier
  pub last_refill : F.Carrier

pub record RateLimiter (F : Float) : Type 0 where
  pub burst_capacity : ℕ
  pub refill_rate : F.Carrier
  pub local_buckets : Dict (Bucket F)

module _ (F : Float) where
  open F use {Carrier, decimal, le, add, sub, mul, div, floor, round}

  -- `AdaptiveConcurrencyLimiter.__init__`
  unfoldable pub new_limiter : ℕ → ℕ → Carrier → Carrier → Carrier → Limiter F
  new_limiter min_limit max_limit target_rtt_ms alpha beta = record {
    min_limit = min_limit;
    max_limit = max_limit;
    target_rtt_ms = target_rtt_ms;
    alpha = alpha;
    beta = beta;
    current_limit = of_ℕ F (min_limit * 2);
    in_flight = 0;
    smoothed_rtt_ms = mul target_rtt_ms (decimal 5 1);
    ema_weight = decimal 1 1;
  }

  -- The delay that a saturated limiter recommends.
  unfoldable pub saturated_delay : Limiter F → Carrier
  saturated_delay l =
      round (max F (decimal 5 2) (mul (div l.smoothed_rtt_ms (decimal 10000 1)) (decimal 15 1))) 2

  unfoldable pub acquire : Limiter F → (Bool × Option Carrier) × Limiter F
  acquire l =
      if lt_floor l.in_flight (floor l.current_limit)
      then ((true, none), record l { in_flight = l.in_flight + 1 })
      else ((false, some (saturated_delay l)), l)

  -- The moving average after one more measurement.
  unfoldable pub smooth : Limiter F → Carrier → Carrier
  smooth l rtt_ms =
      add (mul (sub (decimal 10 1) l.ema_weight) l.smoothed_rtt_ms) (mul l.ema_weight rtt_ms)

  -- The new ceiling, from the moving average.
  unfoldable pub adapt : Limiter F → Carrier → Carrier
  adapt l smoothed =
      if le smoothed l.target_rtt_ms
      then min F (of_ℕ F l.max_limit) (add l.current_limit l.alpha)
      else max F (of_ℕ F l.min_limit) (mul l.current_limit l.beta)

  -- `max(0, in_flight - 1)` is the subtraction of ℕ.
  unfoldable pub release : Carrier → Limiter F → Limiter F
  release rtt_ms l = record l {
    in_flight = l.in_flight - 1;
    smoothed_rtt_ms = smooth l rtt_ms;
    current_limit = adapt l (smooth l rtt_ms);
  }

  unfoldable pub get_stats : Limiter F → Stats F
  get_stats l = record {
    current_limit = round l.current_limit 2;
    in_flight = l.in_flight;
    smoothed_rtt_ms = round l.smoothed_rtt_ms 2;
    target_rtt_ms = l.target_rtt_ms;
    utilization_pct =
        round (mul (div (of_ℕ F l.in_flight) (max F (of_ℕ F 1) l.current_limit)) (of_ℕ F 100)) 1;
  }

  unfoldable pub new_rate_limiter : ℕ → Carrier → RateLimiter F
  new_rate_limiter burst_capacity refill_rate = record {
    burst_capacity = burst_capacity;
    refill_rate = refill_rate;
    local_buckets = [];
  }

  -- The tokens of a bucket at time `now`.
  unfoldable pub refilled : RateLimiter F → Bucket F → Carrier → Carrier
  refilled r b now =
      min F (of_ℕ F r.burst_capacity)
        (add b.tokens (mul (max F (decimal 0 1) (sub now b.last_refill)) r.refill_rate))

  abbrev pub is_zero : Carrier → Bool
  is_zero a = le a (of_ℕ F 0) && le (of_ℕ F 0) a

  -- The wait until one token is there; `/` raises for the divisor 0.
  unfoldable pub bucket_delay : RateLimiter F → Carrier → Result Carrier
  bucket_delay r tokens =
      if is_zero r.refill_rate
      then raised zero_division_error
      else returned (round (max F (decimal 5 2) (div (sub (decimal 10 1) tokens) r.refill_rate)) 2)

  abbrev pub refusal : Result Carrier → Result (Bool × Option Carrier)
  refusal (returned wait) = returned (false, some wait)
  refusal (raised e) = raised e

  -- The answer for a known bucket, and the bucket afterwards.
  unfoldable pub take_token :
      RateLimiter F → Bucket F → Carrier → Result (Bool × Option Carrier) × Bucket F
  take_token r b now =
      let tokens = refilled r b now in
      if le (decimal 10 1) tokens
      then (returned (true, none), record { tokens = sub tokens (decimal 10 1); last_refill = now })
      else (refusal (bucket_delay r tokens), record { tokens = tokens; last_refill = now })

  -- The bucket that a first request leaves.
  unfoldable pub first_bucket : RateLimiter F → Carrier → Bucket F
  first_bucket r now = record { tokens = F.of_ℤ (sub_ℕ r.burst_capacity 1); last_refill = now }

  -- The answer for an agency, from the bucket that it has.
  unfoldable pub answer_for :
      RateLimiter F → Option (Bucket F) → Carrier → Result (Bool × Option Carrier) × Bucket F
  answer_for r none now = (returned (true, none), first_bucket r now)
  answer_for r (some b) now = take_token r b now

  -- A bucket is a non-empty dict, so `not bucket` is `bucket is None`.
  unfoldable pub check_agency_limit :
      String → Carrier → Exec (RateLimiter F) (Bool × Option Carrier)
  check_agency_limit agency_id now r =
      let (answer, b) = answer_for r (Dict.lookup agency_id r.local_buckets) now in
      (answer, record r { local_buckets = Dict.insert agency_id b r.local_buckets })
