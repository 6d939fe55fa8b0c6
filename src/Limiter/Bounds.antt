-- ===== src/Limiter/Bounds.antt =====
-- `AdaptiveConcurrencyLimiter`: the ceiling stays between its configured limits.
use highthroughputingestion.Base.{ℕ, ◌*◌, ◌≤◌, ◌≡◌, true, false, inl, inr, arith, Bool-cases}
use highthroughputingestion.Float.{Float, of_ℕ, lt_floor, IsIeee, exact_limit}
use highthroughputingestion.Float.Order.{le-min, min-le_left, max-le, le-max_left}
use highthroughputingestion.Limiter.{Limiter, new_limiter, acquire, release, smooth, adapt}

-- The settings are usable: the steps go in the right direction.
pub record IsConfigured {F : Float} (l : Limiter F) : Type 0 where
  pub ordered : l.min_limit ≤ l.max_limit
  pub small : l.max_limit ≤ exact_limit
  pub alpha_pos : F.le (of_ℕ F 0) l.alpha ≡ true
  pub beta_le_one : F.le l.beta (of_ℕ F 1) ≡ true

-- The ceiling lies between the limits.
pub record IsValid {F : Float} (l : Limiter F) : Type 0 where
  pub config : IsConfigured l
  pub above : F.le (of_ℕ F l.min_limit) l.current_limit ≡ true
  pub below : F.le l.current_limit (of_ℕ F l.max_limit) ≡ true

module _ {F : Float} (I : IsIeee F) where
  ceiling_nonneg : {l : Limiter F} → IsValid l → F.le (of_ℕ F 0) l.current_limit ≡ true
  ceiling_nonneg {l} v = I.le_trans _ _ _ (I.of_ℕ_mono 0 l.min_limit (omega arith)) v.above

  pub adapt_above :
      {l : Limiter F} (rtt : F.Carrier)
      → IsValid l
      → F.le (of_ℕ F l.min_limit) (adapt F l rtt) ≡ true
  unfolding adapt
  adapt_above {l} rtt v = elim (Bool-cases (F.le rtt l.target_rtt_ms)) [
    | inl healthy ↦ rw healthy (
        le-min I _ _ _ (I.of_ℕ_mono _ _ v.config.ordered)
          (I.le_trans _ _ _ v.above (I.add_grows _ _ v.config.alpha_pos)))
    | inr slow ↦ rw slow (le-max_left I _ _)
  ]

  pub adapt_below :
      {l : Limiter F} (rtt : F.Carrier)
      → IsValid l
      → F.le (adapt F l rtt) (of_ℕ F l.max_limit) ≡ true
  unfolding adapt
  adapt_below {l} rtt v = elim (Bool-cases (F.le rtt l.target_rtt_ms)) [
    | inl healthy ↦ rw healthy (min-le_left I _ _)
    | inr slow ↦ rw slow (
        max-le I _ _ _ (I.of_ℕ_mono _ _ v.config.ordered)
          (I.le_trans _ _ _ (I.mul_shrinks _ _ (ceiling_nonneg v) v.config.beta_le_one) v.below))
  ]

  -- A release keeps the settings usable and the ceiling between the limits, whatever the round trip
  -- took.
  pub release-IsValid : {l : Limiter F} (rtt : F.Carrier) → IsValid l → IsValid (release F rtt l)
  unfolding release
  release-IsValid {l} rtt v = record {
    config = record {
      ordered = v.config.ordered;
      small = v.config.small;
      alpha_pos = v.config.alpha_pos;
      beta_le_one = v.config.beta_le_one;
    };
    above = adapt_above (smooth F l rtt) v;
    below = adapt_below (smooth F l rtt) v;
  }

  pub acquire-IsValid : {l : Limiter F} → IsValid l → IsValid (acquire F l).1
  unfolding acquire
  acquire-IsValid {l} v = elim (Bool-cases (lt_floor l.in_flight (F.floor l.current_limit))) [
    | inl room ↦ rw room (record {
      config = record {
        ordered = v.config.ordered;
        small = v.config.small;
        alpha_pos = v.config.alpha_pos;
        beta_le_one = v.config.beta_le_one;
      };
      above = v.above;
      below = v.below;
    })
    | inr full ↦ rw full v
  ]

  pub new_limiter-IsValid :
      (low high : ℕ) (target alpha beta : F.Carrier)
      → low * 2 ≤ high
      → high ≤ exact_limit
      → F.le (of_ℕ F 0) alpha ≡ true
      → F.le beta (of_ℕ F 1) ≡ true
      → IsValid (new_limiter F low high target alpha beta)
  unfolding new_limiter
  new_limiter-IsValid low high target alpha beta room small up down = record {
    config = record { ordered = omega arith; small = small; alpha_pos = up; beta_le_one = down };
    above = I.of_ℕ_mono _ _ (omega arith);
    below = I.of_ℕ_mono _ _ room;
  }

module _ {F : Float} (I : IsIeee F) where
  -- Of a limiter whose settings are usable (ordered limits of at most 2 ^ 53, alpha not negative, beta
  -- at most 1) and whose ceiling lies between its limits: while the moving average stays at or below
  -- the target, a release never lowers the ceiling.
  pub release_healthy :
      {l : Limiter F} (rtt : F.Carrier)
      → IsValid l
      → F.le (smooth F l rtt) l.target_rtt_ms ≡ true
      → F.le l.current_limit (release F rtt l).current_limit ≡ true
  unfolding release adapt
  release_healthy {l} rtt v healthy =
      rw healthy (le-min I _ _ _ v.below (I.add_grows _ _ v.config.alpha_pos))

  -- Once it is above the target, a release never raises the ceiling.
  pub release_slow :
      {l : Limiter F} (rtt : F.Carrier)
      → IsValid l
      → F.le (smooth F l rtt) l.target_rtt_ms ≡ false
      → F.le (release F rtt l).current_limit l.current_limit ≡ true
  unfolding release adapt
  release_slow {l} rtt v slow =
      rw slow (max-le I _ _ _ v.above (I.mul_shrinks _ _ (ceiling_nonneg I v) v.config.beta_le_one))
