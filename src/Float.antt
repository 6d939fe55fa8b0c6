-- ===== src/Float.antt =====
-- Python's `float`: the operations that the program applies to it, and what IEEE 754 double
-- arithmetic promises of them. Values are never NaN here: where the program divides by something
-- that can be 0, the model raises the exception first, and it reads clocks.
pub mod Fixed
pub mod Order
use highthroughputingestion.Base.{
  ℕ, suc, ◌*◌, ◌^◌, ◌≤◌, ◌<◌, ◌≡◌, Bool, true, false, not, ltb, if◌then◌else◌,
}
use highthroughputingestion.Base.{ℤ, pos, negsuc}

pub record Float : Type 1 where
  pub Carrier : Type 0
  -- an `int` as a `float`
  pub of_ℤ : ℤ → Carrier
  -- `decimal m k` is the literal m / 10 ^ k
  pub decimal : ℕ → ℕ → Carrier
  pub le : Carrier → Carrier → Bool
  pub add : Carrier → Carrier → Carrier
  pub sub : Carrier → Carrier → Carrier
  pub mul : Carrier → Carrier → Carrier
  pub div : Carrier → Carrier → Carrier
  -- `math.floor`
  pub floor : Carrier → ℤ
  -- `round(x, digits)`
  pub round : Carrier → ℕ → Carrier

-- `n < z` for a number that is not negative
abbrev pub lt_floor : ℕ → ℤ → Bool
lt_floor n (pos m) = ltb n m
lt_floor n (negsuc _) = false

module _ (F : Float) where
  abbrev pub of_ℕ : ℕ → F.Carrier
  of_ℕ n = F.of_ℤ (pos n)

  abbrev pub lt : F.Carrier → F.Carrier → Bool
  lt a b = not (F.le b a)

  -- `min` and `max` keep the first argument unless the second is strictly better.
  abbrev pub min : F.Carrier → F.Carrier → F.Carrier
  min a b = if lt b a then b else a

  abbrev pub max : F.Carrier → F.Carrier → F.Carrier
  max a b = if lt a b then b else a

-- Integers up to this one are floats exactly.
abbrev pub exact_limit : ℕ
exact_limit = 2 ^ 53

-- Round-to-nearest arithmetic is monotone, and exact on small integers.
pub record IsIeee (F : Float) : Type 0 where
  pub le_refl : (a : F.Carrier) → F.le a a ≡ true
  pub le_trans : (a b c : F.Carrier) → F.le a b ≡ true → F.le b c ≡ true → F.le a c ≡ true
  pub le_total : (a b : F.Carrier) → F.le a b ≡ false → F.le b a ≡ true
  pub of_ℕ_mono : (m n : ℕ) → m ≤ n → F.le (of_ℕ F m) (of_ℕ F n) ≡ true
  pub add_grows : (a b : F.Carrier) → F.le (of_ℕ F 0) b ≡ true → F.le a (F.add a b) ≡ true
  pub mul_shrinks :
      (a b : F.Carrier)
      → F.le (of_ℕ F 0) a ≡ true
      → F.le b (of_ℕ F 1) ≡ true
      → F.le (F.mul a b) a ≡ true
  pub floor_le :
      (a : F.Carrier) (n : ℕ)
      → n ≤ exact_limit
      → F.le a (of_ℕ F n) ≡ true
      → lt_floor n (F.floor a) ≡ false
  pub floor_ge :
      (a : F.Carrier) (i n : ℕ)
      → n ≤ exact_limit
      → i < n
      → F.le (of_ℕ F n) a ≡ true
      → lt_floor i (F.floor a) ≡ true
  pub round_mono :
      (a b : F.Carrier) (k : ℕ) → F.le a b ≡ true → F.le (F.round a k) (F.round b k) ≡ true
  pub round_cents : (m : ℕ) → m ≤ exact_limit → F.round (F.decimal m 2) 2 ≡ F.decimal m 2
  pub round_whole : (n k : ℕ) → k ≤ 2 → n ≤ exact_limit → F.round (of_ℕ F n) k ≡ of_ℕ F n
  pub div_nonneg :
      (a b : F.Carrier)
      → F.le (of_ℕ F 0) a ≡ true
      → F.le (of_ℕ F 1) b ≡ true
      → F.le (of_ℕ F 0) (F.div a b) ≡ true
  -- a literal with the fraction .0
  pub decimal_whole : (n : ℕ) → n ≤ exact_limit → F.decimal (n * 10) 1 ≡ of_ℕ F n
  -- whole numbers below the limit are counted exactly
  pub sub_one : (n : ℕ) → n < exact_limit → F.sub (of_ℕ F (suc n)) (of_ℕ F 1) ≡ of_ℕ F n
  pub sub_self : (a : F.Carrier) → F.sub a a ≡ of_ℕ F 0
  pub zero_mul : (a : F.Carrier) → F.mul (of_ℕ F 0) a ≡ of_ℕ F 0
  pub add_zero : (a : F.Carrier) → F.add a (of_ℕ F 0) ≡ a
  pub of_ℕ_strict : (m n : ℕ) → n ≤ exact_limit → m < n → F.le (of_ℕ F n) (of_ℕ F m) ≡ false
  pub sub_mono : (a b c : F.Carrier) → F.le a b ≡ true → F.le (F.sub a c) (F.sub b c) ≡ true
  pub sub_shrinks : (a b : F.Carrier) → F.le (of_ℕ F 0) b ≡ true → F.le (F.sub a b) a ≡ true
  pub mul_nonneg :
      (a b : F.Carrier)
      → F.le (of_ℕ F 0) a ≡ true
      → F.le (of_ℕ F 0) b ≡ true
      → F.le (of_ℕ F 0) (F.mul a b) ≡ true
