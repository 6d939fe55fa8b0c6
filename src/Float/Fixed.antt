-- ===== src/Float/Fixed.antt =====
-- Numbers in millionths, cut off at 0 and rounded down: an arithmetic that keeps the promises.
use native.Mathlib.Nat.{
  mul-le-mul_left, mul-le-mul_right, mul-zero, le_refl, le_trans, le-div_iff_mul-le,
  div-mul-le_self,
}
use highthroughputingestion.Base.{ℕ, zero, suc, ◌+◌, ◌-◌, ◌*◌, ◌/◌, ◌^◌, ◌≤◌, ◌≡◌, leb}
use highthroughputingestion.Base.{ℤ, pos, negsuc, arith, le→leb, leb→le}
use highthroughputingestion.Float.{Float, IsIeee, exact_limit}

abbrev pub unit : ℕ
unit = 1000000

abbrev pub of_integer : ℤ → ℕ
of_integer (pos n) = n * unit
of_integer (negsuc _) = 0

-- To the nearest multiple of a step, halves up.
abbrev pub round_to : ℕ → ℕ → ℕ
round_to a k = (a + unit / 10 ^ k / 2) / (unit / 10 ^ k) * (unit / 10 ^ k)

abbrev pub fixed : Float
fixed = record {
  Carrier = ℕ;
  of_ℤ = of_integer;
  decimal = λ m k. m * (unit / 10 ^ k);
  le = leb;
  add = λ a b. a + b;
  sub = λ a b. a - b;
  mul = λ a b. a * b / unit;
  div = λ a b. a * unit / b;
  floor = λ a. pos (a / unit);
  round = round_to;
}

mul_below : (a b : ℕ) → b ≤ unit → a * b / unit ≤ a
mul_below a b h = grind (arith, mul-le-mul_left {m = b} {n = unit} a h)

steps_mono : (a b s : ℕ) → a ≤ b → a / s * s ≤ b / s * s
steps_mono a b zero h = rw (mul-zero (a / 0), mul-zero (b / 0)) (le_refl 0)
steps_mono a b (suc s) h =
    mul-le-mul_right (suc s)
      ((le-div_iff_mul-le (omega arith)).1 (le_trans (div-mul-le_self a (suc s)) h))

round_of_whole : (n k : ℕ) → k ≤ 2 → n ≤ exact_limit → round_to (n * unit) k ≡ n * unit
round_of_whole n zero h l = omega arith
round_of_whole n (suc zero) h l = omega arith
round_of_whole n (suc (suc zero)) h l = omega arith
round_of_whole n (suc (suc (suc k))) h l = ground arith

pub fixed-IsIeee : IsIeee fixed
fixed-IsIeee = record {
  le_refl = λ a. le→leb a a (omega arith);
  le_trans = λ a b c h k. ground arith;
  le_total = λ a b h. ground arith;
  of_ℕ_mono = λ m n h. le→leb _ _ (omega arith);
  add_grows = λ a b h. ground arith;
  mul_shrinks = λ a b h k. le→leb _ _ (mul_below a b (leb→le _ _ k));
  floor_le = λ a n h k. ground arith;
  floor_ge = λ a i n h l k. ground arith;
  round_mono = λ a b k h. le→leb _ _ (steps_mono _ _ (unit / 10 ^ k) (omega (arith, leb→le _ _ h)));
  round_cents = λ m h. omega arith;
  round_whole = round_of_whole;
  div_nonneg = λ a b h k. le→leb _ _ (omega arith);
  decimal_whole = λ n h. omega arith;
  sub_one = λ n h. omega arith;
  sub_self = λ a. omega arith;
  zero_mul = λ a. omega arith;
  add_zero = λ a. omega arith;
  of_ℕ_strict = λ m n h l. ground arith;
  sub_mono = λ a b c h. ground arith;
  sub_shrinks = λ a b h. ground arith;
  mul_nonneg = λ a b h k. le→leb _ _ (omega arith);
}
