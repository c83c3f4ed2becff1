-- ===== src/Prioritize/Float/Share.antt =====
-- pkg/algorithm/prioritize/hostpathpv_spread.go and hostpathpv_diskuse.go: ten times the quotient of
-- two counts, as both `reduceScoringNode` compute it.
use extender_scheduler.Prelude.{ℕ, ◌^◌, ◌≤◌, ◌<◌, ◌≡◌, subst, ap, ◌∙◌, arith}
use extender_scheduler.Prelude.Int.{pos, ◌≤ℤ◌}
use extender_scheduler.Prioritize.Float.{Float, IsExact, IsRounding}

-- Ten times n / m.
abbrev pub tenths : (X : Float) → ℕ → ℕ → X.F
tenths X n m = X.mul (X.of_int (pos 10)) (X.div (X.of_int (pos n)) (X.of_int (pos m)))

module _ (X : Float) (R : IsRounding X) (m : ℕ) (positive : 0 < m) (exact : IsExact m) where
  tenths_none : tenths X 0 m ≡ X.of_int (pos 0)
  tenths_none =
      ap (λ n. X.mul (X.of_int (pos 10)) (X.div (X.of_int (pos n)) (X.of_int (pos m))))
        (omega arith)
      ∙ ap (X.mul (X.of_int (pos 10))) (R.div_exact 0 m positive (omega arith))
      ∙ R.mul_exact 10 0 (omega arith)

  tenths_all : tenths X m m ≡ X.of_int (pos 10)
  tenths_all =
      ap (λ n. X.mul (X.of_int (pos 10)) (X.div (X.of_int (pos n)) (X.of_int (pos m))))
        (omega arith)
      ∙ ap (X.mul (X.of_int (pos 10))) (R.div_exact 1 m positive (omega arith))
      ∙ R.mul_exact 10 1 (omega arith)

  tenths_mono : (n k : ℕ) → n ≤ k → R.le (tenths X n m) (tenths X k m)
  tenths_mono n k h = R.mul_mono 10 _ _ (R.div_mono _ _ m positive (R.of_int_mono n k h))

  tenths_positive : (n : ℕ) → R.le (X.of_int (pos 0)) (tenths X n m)
  tenths_positive n = subst (λ z. R.le z (tenths X n m)) tenths_none (tenths_mono 0 n (omega arith))

  tenths_small : (n : ℕ) → n ≤ m → R.le (tenths X n m) (X.of_int (pos (2 ^ 53)))
  tenths_small n h =
      R.le_trans _ _ _ (subst (R.le (tenths X n m)) tenths_all (tenths_mono n m h))
        (R.of_int_mono 10 (2 ^ 53) (omega arith))

  -- A larger count has no smaller score.
  pub share_mono : (n k : ℕ) → n ≤ k → k ≤ m → X.to_int (tenths X n m) ≤ℤ X.to_int (tenths X k m)
  share_mono n k h l = R.to_int_mono _ _ (tenths_positive n) (tenths_mono n k h) (tenths_small k l)

  pub share_none : X.to_int (tenths X 0 m) ≡ pos 0
  share_none = ap X.to_int tenths_none ∙ R.to_int_exact 0 (omega arith)

  pub share_all : X.to_int (tenths X m m) ≡ pos 10
  share_all = ap X.to_int tenths_all ∙ R.to_int_exact 10 (omega arith)

  -- The score of a count that is at most m is one of 0 to 10.
  pub share_bounds :
      (n : ℕ) → n ≤ m → (pos 0 ≤ℤ X.to_int (tenths X n m)) × (X.to_int (tenths X n m) ≤ℤ pos 10)
  share_bounds n h = (
    subst (λ z. z ≤ℤ X.to_int (tenths X n m)) share_none (share_mono 0 n (omega arith) h),
    subst (λ z. X.to_int (tenths X n m) ≤ℤ z) share_all (share_mono n m h (omega arith)),
  )
