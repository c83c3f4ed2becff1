-- ===== src/Prioritize/DiskUse/Percentages.antt =====
-- pkg/algorithm/prioritize/hostpathpv_diskuse.go: the percentage that `mapScoringNode` gives a node.
use extender_scheduler.Prelude.{
  ℕ, ◌-◌, ◌*◌, ◌≡◌, ap, ◌∙◌, Bool, Bool-cases, true, false, inl, inr, arith, if◌then◌else◌, ◌||◌,
}
use extender_scheduler.Prelude.Int.{
  ℤ, pos, negsuc, pos_part, neg_part, ◌≤ℤ◌, leb_ℤ, sub64, sub64-pos,
}
use extender_scheduler.Prioritize.Float.{Float, IsExact, IsRounding}
use extender_scheduler.Prioritize.Float.Percent.{percent, percent_bounds}
use extender_scheduler.Prioritize.DiskUse.{free_percent}

-- A quota that is not negative, and a size of which hundred times is an exact `float64`.
abbrev pub IsModest : ℤ → ℤ → Type 0
IsModest allocable quota = IsExact (100 * pos_part allocable) × (neg_part quota ≡ 0)

-- The test that leaves no percentage.
abbrev is_full : ℤ → ℤ → Bool
is_full a q = leb_ℤ a (pos 0) || leb_ℤ a q

abbrev computed : (X : Float) → ℤ → ℤ → ℤ
computed X d a = X.to_int (X.div (X.mul (X.of_int (pos 100)) (X.of_int d)) (X.of_int a))

module _ (X : Float) (R : IsRounding X) where
  free_percent-full : (a q : ℤ) → is_full a q ≡ true → free_percent X a q ≡ pos 0
  unfolding free_percent
  free_percent-full a q e = ap (λ b. if b then pos 0 else computed X (sub64 a q) a) e

  free_percent-left :
      (a q : ℕ)
      → IsExact (100 * a)
      → is_full (pos a) (pos q) ≡ false
      → free_percent X (pos a) (pos q) ≡ X.to_int (percent X (a - q) a)
  unfolding free_percent
  free_percent-left a q x e =
      ap (λ b. if b then pos 0 else computed X (sub64 (pos a) (pos q)) (pos a)) e
      ∙ ap (λ d. computed X d (pos a)) (sub64-pos a q (omega arith) (ground arith))

  left_bounds :
      (a q : ℤ)
      → IsModest a q
      → is_full a q ≡ false
      → (pos 0 ≤ℤ free_percent X a q) × (free_percent X a q ≤ℤ pos 100)
  left_bounds (pos a) (pos q) m e =
      rw (free_percent-left a q m.0 e)
        (percent_bounds X R a (ground arith) m.0 (a - q) (omega arith))
  left_bounds (pos a) (negsuc q) m e = absurd (omega (arith, m.1))
  left_bounds (negsuc a) q m e = ground arith

  -- For a quota that is not negative and a size of which hundred times is an exact `float64`, the
  -- percentage is between 0 and 100.
  pub free_percent_bounds :
      (a q : ℤ) → IsModest a q → (pos 0 ≤ℤ free_percent X a q) × (free_percent X a q ≤ℤ pos 100)
  free_percent_bounds a q m = elim (Bool-cases (is_full a q)) [
    | inl full ↦ rw (free_percent-full a q full) (omega arith, omega arith)
    | inr left ↦ left_bounds a q m left
  ]
