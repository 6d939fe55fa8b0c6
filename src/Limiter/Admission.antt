-- ===== src/Limiter/Admission.antt =====
-- `AdaptiveConcurrencyLimiter.acquire`: who is admitted, and what the others are told.
use highthroughputingestion.Base.{ℕ, ◌+◌, ◌<◌, ◌≡◌, true, false, arith}
use highthroughputingestion.Base.{ℤ, pos, negsuc, subst, none, some}
use highthroughputingestion.Float.{Float, lt_floor, max, IsIeee}
use highthroughputingestion.Limiter.{Limiter, acquire, saturated_delay}
use highthroughputingestion.Float.Order.{le-max_left}
use highthroughputingestion.Limiter.Bounds.{IsValid}

lt_floor-lt : (i n : ℕ) (z : ℤ) → lt_floor i z ≡ true → lt_floor n z ≡ false → i < n
lt_floor-lt i n (pos m) h k = ground arith
lt_floor-lt i n (negsuc m) h k = cc

module _ {F : Float} (I : IsIeee F) where
  pub round-max_min :
      (x : F.Carrier) → F.le (F.decimal 5 2) (F.round (max F (F.decimal 5 2) x) 2) ≡ true
  round-max_min x =
      subst (λ c. F.le c (F.round (max F (F.decimal 5 2) x) 2) ≡ true)
        (I.round_cents 5 (omega arith)) (I.round_mono _ _ 2 (le-max_left I (F.decimal 5 2) x))

  saturated_delay_min : (l : Limiter F) → F.le (F.decimal 5 2) (saturated_delay F l) ≡ true
  unfolding saturated_delay
  saturated_delay_min l = round-max_min _

  -- With fewer requests in flight than the lower limit, the next one is admitted and counted.
  pub acquire_admits :
      (l : Limiter F)
      → IsValid l
      → l.in_flight < l.min_limit
      → acquire F l ≡ ((true, none), record l { in_flight = l.in_flight + 1 })
  unfolding acquire
  acquire_admits l v room =
      rw (I.floor_ge l.current_limit l.in_flight l.min_limit (omega arith) room v.above)

  -- An admitted request found fewer in flight than the upper limit, and is counted.
  pub acquire_bounded :
      (l : Limiter F)
      → IsValid l
      → (acquire F l).0.0 ≡ true
      → (l.in_flight < l.max_limit) × ((acquire F l).1.in_flight ≡ l.in_flight + 1)
  unfolding acquire
  acquire_bounded l v admitted = (
    lt_floor-lt l.in_flight l.max_limit (F.floor l.current_limit) (ground arith)
        (I.floor_le l.current_limit l.max_limit v.config.small v.below),
    ground arith,
  )

  -- A refused request changes nothing, and is told to wait for at least 0.05 s.
  pub acquire_refuses :
      (l : Limiter F)
      → (acquire F l).0.0 ≡ false
      → (d : F.Carrier) × (acquire F l ≡ ((false, some d), l)) × (F.le (F.decimal 5 2) d ≡ true)
  unfolding acquire
  acquire_refuses l refused = (saturated_delay F l, ground arith, saturated_delay_min l)
