-- ===== src/Prioritize/Float/Whole.antt =====
-- Whole numbers with truncating division in place of `float64`.
use native.Mathlib.Nat.{mul-div_cancel, le-div_iff_mul-le, div-mul-le_self, le_trans}
use extender_scheduler.Prelude.{ℕ, ◌-◌, ◌*◌, ◌/◌, ◌≤◌, ◌<◌, refl, arith}
use extender_scheduler.Prelude.Int.{pos, pos_part}
use extender_scheduler.Prioritize.Float.{Float, IsRounding}

abbrev pub whole : Float
whole = record {
  F = ℕ;
  of_int = pos_part;
  sub = λ a b. a - b;
  mul = λ a b. a * b;
  div = λ a b. a / b;
  to_int = pos;
}

div_mono : (x y m : ℕ) → 0 < m → x ≤ y → x / m ≤ y / m
div_mono x y m h l = (le-div_iff_mul-le h).1 (le_trans (div-mul-le_self x m) l)

pub whole-IsRounding : IsRounding whole
whole-IsRounding = record {
  le = ◌≤◌;
  of_int_mono = λ a b h. h;
  sub_exact = λ a b e h. refl;
  div_mono = div_mono;
  div_exact = λ n m h e. mul-div_cancel n h;
  mul_mono = λ m x y h. grind arith;
  mul_exact = λ m n e. refl;
  to_int_mono = λ x y l h u. omega arith;
  to_int_exact = λ n e. refl;
  le_trans = λ x y z. le_trans;
}
