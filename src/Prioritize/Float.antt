-- ===== src/Prioritize/Float.antt =====
-- Go's `float64`, as far as the scores use it: a parameter, with the documented behaviour of IEEE 754
-- arithmetic that the theorems rest on.
pub mod Share
pub mod Percent
pub mod Whole
use extender_scheduler.Prelude.{ℕ, ◌-◌, ◌*◌, ◌^◌, ◌≤◌, ◌<◌, ◌≡◌}
use extender_scheduler.Prelude.Int.{ℤ, pos, ◌≤ℤ◌}

pub record Float : Type 1 where
  pub F : Type 0
  -- `float64(n)`
  pub of_int : ℤ → F
  pub sub : F → F → F
  pub mul : F → F → F
  pub div : F → F → F
  -- `int(x)`
  pub to_int : F → ℤ

-- The integers that a `float64` holds exactly.
abbrev pub IsExact : ℕ → Type 0
IsExact n = n ≤ 2 ^ 53

-- Whole numbers up to 2^53 are exact, and so are the results of operations that are such numbers.
-- Rounding is monotone.
pub record IsRounding (X : Float) : Type 1 where
  pub le : X.F → X.F → Type 0
  pub of_int_mono : (a b : ℕ) → a ≤ b → le (X.of_int (pos a)) (X.of_int (pos b))
  pub sub_exact :
      (a b : ℕ)
      → IsExact a
      → b ≤ a
      → X.sub (X.of_int (pos a)) (X.of_int (pos b)) ≡ X.of_int (pos (a - b))
  pub div_mono :
      (x y : X.F) (m : ℕ)
      → 0 < m
      → le x y
      → le (X.div x (X.of_int (pos m))) (X.div y (X.of_int (pos m)))
  pub div_exact :
      (n m : ℕ)
      → 0 < m
      → IsExact (n * m)
      → X.div (X.of_int (pos (n * m))) (X.of_int (pos m)) ≡ X.of_int (pos n)
  pub mul_mono :
      (m : ℕ) (x y : X.F) → le x y → le (X.mul (X.of_int (pos m)) x) (X.mul (X.of_int (pos m)) y)
  pub mul_exact :
      (m n : ℕ)
      → IsExact (m * n)
      → X.mul (X.of_int (pos m)) (X.of_int (pos n)) ≡ X.of_int (pos (m * n))
  -- Truncation, where the values lie in the range of an `int64`.
  pub to_int_mono :
      (x y : X.F)
      → le (X.of_int (pos 0)) x
      → le x y
      → le y (X.of_int (pos (2 ^ 53)))
      → X.to_int x ≤ℤ X.to_int y
  pub to_int_exact : (n : ℕ) → IsExact n → X.to_int (X.of_int (pos n)) ≡ pos n
  pub le_trans : (x y z : X.F) → le x y → le y z → le x z
