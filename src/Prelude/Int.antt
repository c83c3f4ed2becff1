-- ===== src/Prelude/Int.antt =====
-- Signed integers over the native numbers, under the library's names, and Go's `int64`: an integer
-- whose sums and differences wrap around at 64 bits.
use extender_scheduler.Prelude.{
  ℕ, suc, ◌+◌, ◌-◌, ◌*◌, ◌%◌, ◌^◌, ◌≤◌, ◌<◌, ◌≡◌, refl, Bool, arith, ltb, leb, if◌then◌else◌,
}

-- `negsuc n` is -(n + 1).
pub data ℤ : Type 0 where
  pos : ℕ → ℤ
  negsuc : ℕ → ℤ

abbrev pub pos_part : ℤ → ℕ
pos_part (pos n) = n
pos_part (negsuc n) = 0

abbrev pub neg_part : ℤ → ℕ
neg_part (pos n) = 0
neg_part (negsuc n) = suc n

-- a - b, as an integer.
abbrev pub sub_ℕ : ℕ → ℕ → ℤ
sub_ℕ a b = if leb b a then pos (a - b) else negsuc (b - a - 1)

infixl 65 ◌+ℤ◌ ◌-ℤ◌
infix 50 ◌≤ℤ◌ ◌<ℤ◌
unfoldable pub ◌+ℤ◌ : ℤ → ℤ → ℤ
a +ℤ b = sub_ℕ (pos_part a + pos_part b) (neg_part a + neg_part b)

unfoldable pub ◌-ℤ◌ : ℤ → ℤ → ℤ
a -ℤ b = sub_ℕ (pos_part a + neg_part b) (neg_part a + pos_part b)

abbrev pub ◌≤ℤ◌ : ℤ → ℤ → Type 0
a ≤ℤ b = pos_part a + neg_part b ≤ pos_part b + neg_part a

abbrev pub ◌<ℤ◌ : ℤ → ℤ → Type 0
a <ℤ b = pos_part a + neg_part b < pos_part b + neg_part a

abbrev pub leb_ℤ : ℤ → ℤ → Bool
leb_ℤ a b = leb (pos_part a + neg_part b) (pos_part b + neg_part a)

abbrev pub ltb_ℤ : ℤ → ℤ → Bool
ltb_ℤ a b = ltb (pos_part a + neg_part b) (pos_part b + neg_part a)

-- One lemma for each operation lets `omega` work with the operations shut, at any depth.
pub +ℤ_parts :
    (a b : ℤ)
    → pos_part (a +ℤ b) + neg_part a + neg_part b ≡ neg_part (a +ℤ b) + pos_part a + pos_part b
unfolding ◌+ℤ◌
+ℤ_parts a b = ground arith

pub -ℤ_parts :
    (a b : ℤ)
    → pos_part (a -ℤ b) + neg_part a + pos_part b ≡ neg_part (a -ℤ b) + pos_part a + neg_part b
unfolding ◌-ℤ◌
-ℤ_parts a b = ground arith

pub eq_of_parts : (a b : ℤ) → pos_part a + neg_part b ≡ pos_part b + neg_part a → a ≡ b
eq_of_parts a b h = ground arith

pub ruleset int_laws = (arith, +ℤ_parts, -ℤ_parts, eq_of_parts)

-- The values of an `int64`.
abbrev pub IsInt64 : ℤ → Type 0
IsInt64 a = (pos_part a < 2 ^ 63) × (neg_part a ≤ 2 ^ 63)

-- The low 64 bits of an integer in two's complement.
abbrev pub bits64 : ℤ → ℕ
bits64 (pos n) = n % 2 ^ 64
bits64 (negsuc n) = 2 ^ 64 - 1 - n % 2 ^ 64

-- The `int64` that 64 bits stand for.
abbrev pub of_bits64 : ℕ → ℤ
of_bits64 w = if ltb w (2 ^ 63) then pos w else negsuc (2 ^ 64 - 1 - w)

unfoldable pub wrap64 : ℤ → ℤ
wrap64 a = of_bits64 (bits64 a)

unfoldable pub add64 : ℤ → ℤ → ℤ
add64 a b = wrap64 (a +ℤ b)

unfoldable pub sub64 : ℤ → ℤ → ℤ
sub64 a b = wrap64 (a -ℤ b)

pub wrap64-IsInt64 : (a : ℤ) → IsInt64 (wrap64 a)
unfolding wrap64
wrap64-IsInt64 (pos n) = ground arith
wrap64-IsInt64 (negsuc n) = ground arith

pub wrap64-eq_of_IsInt64 : (a : ℤ) → IsInt64 a → wrap64 a ≡ a
unfolding wrap64
wrap64-eq_of_IsInt64 (pos n) h = ground arith
wrap64-eq_of_IsInt64 (negsuc n) h = ground arith

pub add64-IsInt64 : (a b : ℤ) → IsInt64 (add64 a b)
unfolding add64
add64-IsInt64 a b = wrap64-IsInt64 (a +ℤ b)

pub sub64-IsInt64 : (a b : ℤ) → IsInt64 (sub64 a b)
unfolding sub64
sub64-IsInt64 a b = wrap64-IsInt64 (a -ℤ b)

pub add64-eq : (a b : ℤ) → IsInt64 (a +ℤ b) → add64 a b ≡ a +ℤ b
unfolding add64
add64-eq a b h = wrap64-eq_of_IsInt64 (a +ℤ b) h

pub sub64-eq : (a b : ℤ) → IsInt64 (a -ℤ b) → sub64 a b ≡ a -ℤ b
unfolding sub64
sub64-eq a b h = wrap64-eq_of_IsInt64 (a -ℤ b) h

pos-add : (n m : ℕ) → pos n +ℤ pos m ≡ pos (n + m)
unfolding ◌+ℤ◌
pos-add n m = ground arith

pub add64_not_negative :
    (n : ℕ) (a : ℤ)
    → neg_part a ≡ 0
    → n + pos_part a < 2 ^ 63
    → add64 (pos n) a ≡ pos (n + pos_part a)
unfolding add64
add64_not_negative n (pos m) e h = rw pos-add (wrap64-eq_of_IsInt64 (pos (n + m)) (h, omega arith))
add64_not_negative n (negsuc m) e h = absurd (omega arith)

pos-sub : (n m : ℕ) → m ≤ n → pos n -ℤ pos m ≡ pos (n - m)
unfolding ◌-ℤ◌
pos-sub n m h = ground arith

pub sub64-pos : (n m : ℕ) → n < 2 ^ 63 → m ≤ n → sub64 (pos n) (pos m) ≡ pos (n - m)
unfolding sub64
sub64-pos n m b h =
    rw (pos-sub n m h) (wrap64-eq_of_IsInt64 (pos (n - m)) (omega arith, omega arith))

-- A smaller number from a larger one, none of them negative.
pub sub64_not_negative :
    (a b : ℤ)
    → neg_part a ≡ 0
    → neg_part b ≡ 0
    → IsInt64 a
    → pos_part b ≤ pos_part a
    → (neg_part (sub64 a b) ≡ 0)
      × IsInt64 (sub64 a b)
      × (pos_part b + pos_part (sub64 a b) ≡ pos_part a)
sub64_not_negative (pos n) (pos m) ea eb i h =
    rw (sub64-pos n m i.0 h) (refl, (omega arith, omega arith), omega arith)
sub64_not_negative (pos n) (negsuc m) ea eb i h = absurd (omega arith)
sub64_not_negative (negsuc n) b ea eb i h = absurd (omega arith)
