-- ===== src/Worker/Analyzer/Scores.antt =====
-- The two scores of a report, rounded and cut off, lie in their ranges.
use highthroughputingestion.Base.{ℕ, ◌≤◌, ◌≡◌, subst, sym, true, arith}
use highthroughputingestion.Float.{Float, of_ℕ, IsIeee, exact_limit}
use highthroughputingestion.Float.Order.{le-min, min-le_left, max-le, le-max_left}
use highthroughputingestion.Worker.Analyzer.{compliance_score}
use highthroughputingestion.Worker.Analyzer.Report.{evidence_sufficiency}

module _ (F : Float) (I : IsIeee F) where
  -- `lo ≤ x ≤ hi`, for whole numbers
  abbrev pub Within : ℕ → ℕ → F.Carrier → Type 0
  Within lo hi x = (F.le (of_ℕ F lo) x ≡ true) × (F.le x (of_ℕ F hi) ≡ true)

  whole_le : (m n : ℕ) → m ≤ n → F.le (of_ℕ F m) (of_ℕ F n) ≡ true
  whole_le = I.of_ℕ_mono

  round_below :
      (hi k : ℕ) (x : F.Carrier)
      → k ≤ 2
      → hi ≤ exact_limit
      → F.le x (of_ℕ F hi) ≡ true
      → F.le (F.round x k) (of_ℕ F hi) ≡ true
  round_below hi k x hk hh h =
      subst (λ y. F.le (F.round x k) y ≡ true) (I.round_whole hi k hk hh) (I.round_mono _ _ k h)

  round_above :
      (lo k : ℕ) (x : F.Carrier)
      → k ≤ 2
      → lo ≤ exact_limit
      → F.le (of_ℕ F lo) x ≡ true
      → F.le (of_ℕ F lo) (F.round x k) ≡ true
  round_above lo k x hk hl h =
      subst (λ y. F.le y (F.round x k) ≡ true) (I.round_whole lo k hk hl) (I.round_mono _ _ k h)

  hundred : F.decimal 1000 1 ≡ of_ℕ F 100
  hundred = I.decimal_whole 100 (omega arith)

  pub evidence_sufficiency-Within : (n m : ℕ) → Within 20 100 (evidence_sufficiency F n m)
  unfolding evidence_sufficiency
  evidence_sufficiency-Within n m =
      let twenty : F.decimal 200 1 ≡ of_ℕ F 20 = I.decimal_whole 20 (omega arith) in
      rw (evidence_sufficiency, hundred, twenty)
        (
          round_above 20 1 _ (omega arith) (omega arith)
              (le-min I _ _ _ (whole_le 20 100 (omega arith)) (le-max_left I _ _)),
          round_below 100 1 _ (omega arith) (omega arith) (min-le_left I _ _),
        )

  nonneg_penalty : (n : ℕ) → F.le (of_ℕ F 0) (F.div (of_ℕ F n) (F.decimal 1500 1)) ≡ true
  nonneg_penalty n = I.div_nonneg _ _ (whole_le 0 n (omega arith)) (
      subst (λ x. F.le (of_ℕ F 1) x ≡ true) (sym (I.decimal_whole 150 (omega arith)))
        (whole_le 1 150 (omega arith)))

  pub compliance_score-Within : (n : ℕ) → Within 5 100 (compliance_score F n)
  unfolding compliance_score
  compliance_score-Within n =
      let five : F.decimal 50 1 ≡ of_ℕ F 5 = I.decimal_whole 5 (omega arith) in
      rw (hundred, five)
        (
          le-max_left I _ _,
          max-le I _ _ _ (whole_le 5 100 (omega arith)) (
              round_below 100 2 _ (omega arith) (omega arith) (
                I.sub_shrinks _ _ (
                  le-min I _ _ _ (whole_le 0 100 (omega arith))
                    (I.mul_nonneg _ _ (nonneg_penalty n) (whole_le 0 100 (omega arith)))))),
        )
