-- ===== src/Prioritize/Float/Percent.antt =====
-- pkg/algorithm/prioritize/hostpathpv_diskuse.go: a percentage, as `mapScoringNode` computes it.
use extender_scheduler.Prelude.{ℕ, ◌*◌, ◌^◌, ◌≤◌, ◌<◌, ◌≡◌, subst, ap, ◌∙◌, arith}
use extender_scheduler.Prelude.Int.{pos, ◌≤ℤ◌}
use extender_scheduler.Prioritize.Float.{Float, IsExact, IsRounding}

-- Hundred times n, divided by m.
abbrev pub percent : (X : Float) → ℕ → ℕ → X.F
percent X n m = X.div (X.mul (X.of_int (pos 100)) (X.of_int (pos n))) (X.of_int (pos m))

module _ (X : Float) (R : IsRounding X) (m : ℕ) (positive : 0 < m) (exact : IsExact (100 * m)) where
  percent_none : percent X 0 m ≡ X.of_int (pos 0)
  percent_none =
      ap (λ x. X.div x (X.of_int (pos m))) (R.mul_exact 100 0 (omega arith))
      ∙ ap (λ n. X.div (X.of_int (pos n)) (X.of_int (pos m))) (omega arith)
      ∙ R.div_exact 0 m positive (omega arith)

  percent_all : percent X m m ≡ X.of_int (pos 100)
  percent_all =
      ap (λ x. X.div x (X.of_int (pos m))) (R.mul_exact 100 m exact)
      ∙ R.div_exact 100 m positive exact

  percent_mono : (n k : ℕ) → n ≤ k → R.le (percent X n m) (percent X k m)
  percent_mono n k h = R.div_mono _ _ m positive (R.mul_mono 100 _ _ (R.of_int_mono n k h))

  -- A part of m is between 0 and 100 percent of it.
  pub percent_bounds :
      (n : ℕ) → n ≤ m → (pos 0 ≤ℤ X.to_int (percent X n m)) × (X.to_int (percent X n m) ≤ℤ pos 100)
  percent_bounds n h =
      let low = subst (λ z. R.le z (percent X n m)) percent_none (percent_mono 0 n (omega arith)) in
      let high = subst (R.le (percent X n m)) percent_all (percent_mono n m h) in
      let top = R.of_int_mono 100 (2 ^ 53) (omega arith) in
      (
        subst (λ z. z ≤ℤ X.to_int (percent X n m)) (R.to_int_exact 0 (omega arith))
            (R.to_int_mono _ _ (R.of_int_mono 0 0 (omega arith)) low (R.le_trans _ _ _ high top)),
        subst (λ z. X.to_int (percent X n m) ≤ℤ z) (R.to_int_exact 100 (omega arith))
            (R.to_int_mono _ _ low high top),
      )
