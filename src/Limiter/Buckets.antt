-- ===== src/Limiter/Buckets.antt =====
-- `TokenBucketRateLimiter`: the tokens stay in range, agencies do not disturb one another, and a
-- burst at one instant is cut off exactly at the capacity.
use native.Mathlib.Decide.{dec_lt}
use highthroughputingestion.Base.{
  ℕ, zero, suc, ◌-◌, ◌≤◌, ◌<◌, ◌≡◌, ◌≢◌, refl, Bool, true, false, inl, inr,
}
use highthroughputingestion.Base.{arith, Bool-cases, Option-cases, String, none, some, pos, sub_ℕ}
use highthroughputingestion.Base.{Result, returned, raised, subst, sym, List, [], ◌∷◌, ap}
use highthroughputingestion.Base.Dict.{lookup, lookup-insert_self, lookup-insert_ne, insert-all}
use highthroughputingestion.Float.{Float, of_ℕ, min, max, IsIeee, exact_limit}
use highthroughputingestion.Limiter.{
  Bucket, RateLimiter, refilled, bucket_delay, refusal, take_token, first_bucket, answer_for,
  check_agency_limit,
}
use highthroughputingestion.Float.Order.{le-min, min-le_left, le-max_left}

-- The settings are usable, and every bucket holds between 0 tokens and the capacity.
pub record IsSound {F : Float} (r : RateLimiter F) : Type 0 where
  pub capacity_pos : 0 < r.burst_capacity
  pub rate_pos : F.le (of_ℕ F 0) r.refill_rate ≡ true
  pub tokens_nonneg :
      (a : String) (b : Bucket F)
      → lookup a r.local_buckets ≡ some b
      → F.le (of_ℕ F 0) b.tokens ≡ true
  pub tokens_le :
      (a : String) (b : Bucket F)
      → lookup a r.local_buckets ≡ some b
      → F.le b.tokens (of_ℕ F r.burst_capacity) ≡ true

abbrev InRange : {F : Float} → ℕ → Bucket F → Type 0
InRange {F} cap b = (F.le (of_ℕ F 0) b.tokens ≡ true) × (F.le b.tokens (of_ℕ F cap) ≡ true)

module _ {F : Float} (I : IsIeee F) where
  one : F.decimal 10 1 ≡ of_ℕ F 1
  one = I.decimal_whole 1 (omega arith)

  nought : F.decimal 0 1 ≡ of_ℕ F 0
  nought = I.decimal_whole 0 (omega arith)

  refilled_nonneg :
      (r : RateLimiter F) (b : Bucket F) (now : F.Carrier)
      → F.le (of_ℕ F 0) r.refill_rate ≡ true
      → F.le (of_ℕ F 0) b.tokens ≡ true
      → F.le (of_ℕ F 0) (refilled F r b now) ≡ true
  unfolding refilled
  refilled_nonneg r b now rate h =
      le-min I _ _ _ (I.of_ℕ_mono _ _ (omega arith)) (
        I.le_trans _ _ _ h
          (I.add_grows _ _ (I.mul_nonneg _ _ (rw nought (le-max_left I _ _)) rate)))

  refilled_le :
      (r : RateLimiter F) (b : Bucket F) (now : F.Carrier)
      → F.le (refilled F r b now) (of_ℕ F r.burst_capacity) ≡ true
  unfolding refilled
  refilled_le r b now = min-le_left I _ _

  -- Whatever the answer, the bucket is in range afterwards.
  take_token-InRange :
      (r : RateLimiter F) (b : Bucket F) (now : F.Carrier)
      → F.le (of_ℕ F 0) r.refill_rate ≡ true
      → F.le (of_ℕ F 0) b.tokens ≡ true
      → InRange {F = F} r.burst_capacity (take_token F r b now).1
  unfolding take_token
  take_token-InRange r b now rate h =
      elim (Bool-cases (F.le (F.decimal 10 1) (refilled F r b now))) [
        | inl enough ↦ rw enough (
          subst (λ z. F.le z (F.sub (refilled F r b now) (F.decimal 10 1)) ≡ true) (I.sub_self _)
              (I.sub_mono _ _ _ enough),
          I.le_trans _ _ _ (I.sub_shrinks _ _ (rw one (I.of_ℕ_mono _ _ (omega arith))))
              (refilled_le r b now),
        )
        | inr short ↦ rw short (refilled_nonneg r b now rate h, refilled_le r b now)
      ]

  first_bucket-InRange :
      (r : RateLimiter F) (now : F.Carrier)
      → 0 < r.burst_capacity
      → InRange {F = F} r.burst_capacity (first_bucket F r now)
  unfolding first_bucket
  first_bucket-InRange r now h =
      let e : sub_ℕ r.burst_capacity 1 ≡ pos (r.burst_capacity - 1) = ground arith in
      rw e (I.of_ℕ_mono _ _ (omega arith), I.of_ℕ_mono _ _ (omega arith))

  -- A check of one agency leaves the bucket of every other agency as it was.
  pub check_agency_limit_others :
      (a b : String) (now : F.Carrier) (r : RateLimiter F)
      → b ≢ a
      → lookup b (check_agency_limit F a now r).1.local_buckets ≡ lookup b r.local_buckets
  unfolding check_agency_limit
  check_agency_limit_others a b now r other = lookup-insert_ne b a _ r.local_buckets other

  answer_for-InRange :
      (r : RateLimiter F) (a : String) (now : F.Carrier)
      → IsSound r
      → InRange {F = F} r.burst_capacity (answer_for F r (lookup a r.local_buckets) now).1
  unfolding answer_for
  answer_for-InRange r a now s = elim (Option-cases (lookup a r.local_buckets)) [
    | inl new ↦ rw (new, answer_for) (first_bucket-InRange r now s.capacity_pos)
    | inr (c, known) ↦
        rw (known, answer_for) (take_token-InRange r c now s.rate_pos (s.tokens_nonneg a c known))
  ]

  -- If all buckets hold between 0 tokens and the positive capacity, and the refill rate is not
  -- negative, a check keeps them there.
  pub check_agency_limit-IsSound :
      (a : String) (now : F.Carrier) (r : RateLimiter F)
      → IsSound r
      → IsSound (check_agency_limit F a now r).1
  unfolding check_agency_limit
  check_agency_limit-IsSound a now r s = record {
    capacity_pos = s.capacity_pos;
    rate_pos = s.rate_pos;
    tokens_nonneg = λ b c found.
        insert-all (λ (c : Bucket F). F.le (of_ℕ F 0) c.tokens ≡ true) a _ r.local_buckets
          (answer_for-InRange r a now s).0 s.tokens_nonneg b c found;
    tokens_le = λ b c found.
        insert-all (λ (c : Bucket F). F.le c.tokens (of_ℕ F r.burst_capacity) ≡ true) a _
          r.local_buckets (answer_for-InRange r a now s).1 s.tokens_le b c found;
  }

-- An answer that lets the request in.
abbrev pub allows : {A : Type 0} → Result (Bool × A) → Bool
allows (returned (allowed, wait)) = allowed
allows (raised e) = false

-- Which of `n` checks of one agency at one instant let it in, and the limiter after them.
unfoldable pub burst :
    (F : Float) → ℕ → String → F.Carrier → RateLimiter F → List Bool × RateLimiter F
burst F zero a now r = ([], r)
burst F (suc n) a now r =
    let (answer, r') = check_agency_limit F a now r in
    let (rest, r'') = burst F n a now r' in (allows answer ∷ rest, r'')

-- `min m n` times `true`, and `false` for the rest of the `n`.
abbrev pub cut_off : ℕ → ℕ → List Bool
cut_off m zero = []
cut_off zero (suc n) = false ∷ cut_off zero n
cut_off (suc m) (suc n) = true ∷ cut_off m n

refusal-closed : (F : Float) (d : Result F.Carrier) → allows (refusal F d) ≡ false
refusal-closed F (returned wait) = refl
refusal-closed F (raised e) = refl

module _ {F : Float} (I : IsIeee F) (a : String) (now : F.Carrier) where
  abbrev holding : ℕ → Bucket F
  holding k = record { tokens = of_ℕ F k; last_refill = now }

  min_capacity :
      (k cap : ℕ) → k ≤ cap → cap < exact_limit → min F (of_ℕ F cap) (of_ℕ F k) ≡ of_ℕ F k
  min_capacity k cap h small = elim (dec_lt k cap) [
    | yes less ↦ rw (I.of_ℕ_strict k cap (omega arith) less)
    | no full ↦ let e : k ≡ cap = omega arith in rw e (rw (I.le_refl (of_ℕ F cap)))
  ]

  max_self : (x : F.Carrier) → max F x x ≡ x
  max_self x = rw (I.le_refl x)

  refilled_at_once :
      (r : RateLimiter F) (k : ℕ)
      → k ≤ r.burst_capacity
      → r.burst_capacity < exact_limit
      → refilled F r (holding k) now ≡ of_ℕ F k
  unfolding refilled
  refilled_at_once r k h small =
      rw
        (
          I.sub_self now,
          nought I,
          max_self (of_ℕ F 0),
          I.zero_mul r.refill_rate,
          I.add_zero (of_ℕ F k),
        )
        (min_capacity k r.burst_capacity h small)

  take_token_at_once :
      (r : RateLimiter F) (k : ℕ)
      → suc k ≤ r.burst_capacity
      → r.burst_capacity < exact_limit
      → take_token F r (holding (suc k)) now ≡ (returned (true, none), holding k)
  unfolding take_token
  take_token_at_once r k h small =
      rw (refilled_at_once r (suc k) h small, one I, I.of_ℕ_mono 1 (suc k) (omega arith))
        (rw (I.sub_one k (omega arith)))

  take_token_empty :
      (r : RateLimiter F)
      → r.burst_capacity < exact_limit
      → take_token F r (holding 0) now ≡ (refusal F (bucket_delay F r (of_ℕ F 0)), holding 0)
  unfolding take_token
  take_token_empty r small = rw (
    refilled_at_once r 0 (omega arith) small,
    one I,
    I.of_ℕ_strict 0 1 (omega arith) (omega arith),
  )

  burst_from :
      (n k : ℕ) (r : RateLimiter F)
      → k ≤ r.burst_capacity
      → r.burst_capacity < exact_limit
      → lookup a r.local_buckets ≡ some (holding k)
      → (burst F n a now r).0 ≡ cut_off k n
  unfolding burst check_agency_limit answer_for
  burst_from zero k r h small held = refl
  burst_from (suc n) zero r h small held =
      rw
        (held, answer_for, take_token_empty r small, refusal-closed F (bucket_delay F r (of_ℕ F 0)))
        (ap (λ (l : List Bool). false ∷ l)
          (burst_from n zero _ h small (lookup-insert_self a _ r.local_buckets)))
  burst_from (suc n) (suc k) r h small held =
      rw (held, answer_for, take_token_at_once r k h small)
        (ap (λ (l : List Bool). true ∷ l)
          (burst_from n k _ (omega arith) small (lookup-insert_self a _ r.local_buckets)))

  -- Of `n` requests of a new agency at one instant, exactly the first ones up to the capacity are
  -- allowed, if the capacity is positive and below 2 ^ 53.
  pub burst_exact :
      (n : ℕ) (r : RateLimiter F)
      → 0 < r.burst_capacity
      → r.burst_capacity < exact_limit
      → lookup a r.local_buckets ≡ none
      → (burst F n a now r).0 ≡ cut_off r.burst_capacity n
  unfolding burst check_agency_limit answer_for first_bucket
  burst_exact zero r some_room small new = refl
  burst_exact (suc n) r some_room small new =
      let e : sub_ℕ r.burst_capacity 1 ≡ pos (r.burst_capacity - 1) = ground arith in
      let e' : r.burst_capacity ≡ suc (r.burst_capacity - 1) = omega arith in
      subst (λ m. (burst F (suc n) a now r).0 ≡ cut_off m (suc n)) (sym e')
        (rw (new, answer_for, e)
          (ap (λ (l : List Bool). true ∷ l)
            (burst_from n (r.burst_capacity - 1) _ (omega arith) small
              (lookup-insert_self a _ r.local_buckets))))
