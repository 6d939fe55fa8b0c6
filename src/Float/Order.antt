-- ===== src/Float/Order.antt =====
-- The order of floats, and the smaller and the larger of two.
use highthroughputingestion.Base.{◌≡◌, true, arith}
use highthroughputingestion.Float.{Float, min, max, IsIeee}

module _ {F : Float} (I : IsIeee F) where
  pub le-min : (a b c : F.Carrier) → F.le c a ≡ true → F.le c b ≡ true → F.le c (min F a b) ≡ true
  le-min a b c h k = ground arith

  pub min-le_left : (a b : F.Carrier) → F.le (min F a b) a ≡ true
  min-le_left a b = ground (arith, I.le_refl a, I.le_total a b)

  pub max-le : (a b c : F.Carrier) → F.le a c ≡ true → F.le b c ≡ true → F.le (max F a b) c ≡ true
  max-le a b c h k = ground arith

  pub le-max_left : (a b : F.Carrier) → F.le a (max F a b) ≡ true
  le-max_left a b = ground (arith, I.le_refl a, I.le_total b a)
