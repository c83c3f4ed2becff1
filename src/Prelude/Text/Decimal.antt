-- ===== src/Prelude/Text/Decimal.antt =====
-- `strconv.ParseInt(s, 10, 64)` and `fmt.Sprintf("%d", n)`, with the round trip.
use Prim.Native.Char.{code}
use Prim.Native.Nat.{compare, Ordering}
use text.Mathlib.TextLemmas.{nil-append, cons-append}
use extender_scheduler.Prelude.{
  ℕ, zero, suc, ◌+◌, ◌-◌, ◌*◌, ◌/◌, ◌%◌, ◌^◌, ◌<◌, ◌≡◌, refl, ◌∙◌, ap, String, ◌<>◌, Bool, true,
  false, ◌&&◌, List, [], ◌∷◌, ◌++◌, Option, none, some, arith, ltb, leb, if◌then◌else◌, Bool-cases,
  inl, inr,
}
use extender_scheduler.Prelude.Int.{ℤ, pos, negsuc}

abbrev pub eqb : ℕ → ℕ → Bool
eqb a b = elim (compare a b) [ Ordering.eq ↦ true | _ ↦ false ]

-- The code points of a text.
abbrev pub codes : String → List ℕ
codes String.[] = []
codes (String.◌∷◌ c s) = code c ∷ codes s

pub codes-append : (s t : String) → codes (s <> t) ≡ codes s ++ codes t
codes-append String.[] t = rw nil-append
codes-append (String.◌∷◌ c s) t = rw (cons-append, codes-append s t)

parse_digits : List ℕ → ℕ → Option ℕ
parse_digits [] acc = some acc
parse_digits (c ∷ cs) acc =
    let rest = parse_digits cs (acc * 10 + (c - b'0')) in
    if leb b'0' c && leb c b'9' then rest else none

-- At least one digit.
parse_number : List ℕ → Option ℕ
unfolding parse_digits
parse_number [] = none
parse_number (c ∷ cs) = parse_digits (c ∷ cs) 0

-- The range checks of a 64-bit result.
abbrev in_range : ℕ → Option ℤ
in_range n = if ltb n (2 ^ 63) then some (pos n) else none

abbrev negated : ℕ → Option ℤ
negated zero = some (pos 0)
negated (suc n) = if leb (suc n) (2 ^ 63) then some (negsuc n) else none

abbrev then_range : Option ℕ → (ℕ → Option ℤ) → Option ℤ
then_range none f = none
then_range (some n) f = f n

parse_signed : List ℕ → Option ℤ
unfolding parse_number
parse_signed [] = none
parse_signed (c ∷ cs) =
    if eqb c b'-'
    then then_range (parse_number cs) negated
    else if eqb c b'+'
    then then_range (parse_number cs) in_range
    else then_range (parse_number (c ∷ cs)) in_range

-- `strconv.ParseInt(s, 10, 64)`, with `none` for its error.
unfoldable pub parse_int : String → Option ℤ
unfolding parse_signed
parse_int s = parse_signed (codes s)

abbrev digit : ℕ → String
digit d =
    if eqb d 0
    then "0"
    else if eqb d 1
    then "1"
    else if eqb d 2
    then "2"
    else if eqb d 3
    then "3"
    else if eqb d 4
    then "4"
    else if eqb d 5
    then "5"
    else if eqb d 6
    then "6"
    else if eqb d 7
    then "7"
    else if eqb d 8
    then "8"
    else "9"

-- The fuel bounds the number of digits.
format_digits : ℕ → ℕ → String
format_digits zero n = ""
format_digits (suc f) n =
    let front = format_digits f (n / 10) in if ltb n 10 then digit n else front <> digit (n % 10)

-- `fmt.Sprintf("%d", n)`
unfoldable pub format_int : ℤ → String
unfolding format_digits
format_int (pos n) = format_digits (suc n) n
format_int (negsuc n) = "-" <> format_digits (suc (suc n)) (suc n)

codes-digit : (d : ℕ) → d < 10 → codes (digit d) ≡ (b'0' + d) ∷ []
codes-digit zero h = refl
codes-digit (suc zero) h = refl
codes-digit (suc (suc zero)) h = refl
codes-digit (suc (suc (suc zero))) h = refl
codes-digit (suc (suc (suc (suc zero)))) h = refl
codes-digit (suc (suc (suc (suc (suc zero))))) h = refl
codes-digit (suc (suc (suc (suc (suc (suc zero)))))) h = refl
codes-digit (suc (suc (suc (suc (suc (suc (suc zero))))))) h = refl
codes-digit (suc (suc (suc (suc (suc (suc (suc (suc zero)))))))) h = refl
codes-digit (suc (suc (suc (suc (suc (suc (suc (suc (suc zero))))))))) h = refl
codes-digit (suc (suc (suc (suc (suc (suc (suc (suc (suc (suc d)))))))))) h = absurd (omega arith)

parse_digits-snoc :
    (cs : List ℕ) (acc n d : ℕ)
    → d < 10
    → parse_digits cs acc ≡ some n
    → parse_digits (cs ++ (b'0' + d) ∷ []) acc ≡ some (n * 10 + d)
unfolding parse_digits
parse_digits-snoc [] acc n d h e = ground arith
parse_digits-snoc (c ∷ cs) acc n d h e =
    ground (arith, parse_digits-snoc cs (acc * 10 + (c - b'0')) n d h)

parse_digits-format_digits : (f n : ℕ) → n < f → parse_digits (codes (format_digits f n)) 0 ≡ some n
unfolding format_digits parse_digits
parse_digits-format_digits zero n h = elim h [ ]
parse_digits-format_digits (suc f) n h = elim (Bool-cases (ltb n 10)) [
  | inl small ↦
      rw (small, codes-digit n (ground arith))
        (parse_digits-snoc [] 0 0 n (ground arith) refl ∙ ap some (omega arith))
  | inr large ↦
      rw (large, codes-append, codes-digit (n % 10) (omega arith))
        (parse_digits-snoc (codes (format_digits f (n / 10))) 0 (n / 10) (n % 10) (omega arith)
            (parse_digits-format_digits f (n / 10) (ground arith))
          ∙ ap some (omega arith))
]

snoc-eq_cons : (xs : List ℕ) (x : ℕ) → (c : ℕ) × (cs : List ℕ) × (xs ++ x ∷ [] ≡ c ∷ cs)
snoc-eq_cons [] x = (x, [], refl)
snoc-eq_cons (y ∷ xs) x = (y, xs ++ x ∷ [], refl)

format_digits-eq_cons :
    (f n : ℕ) → (c : ℕ) × (cs : List ℕ) × (codes (format_digits (suc f) n) ≡ c ∷ cs)
unfolding format_digits
format_digits-eq_cons f n = elim (Bool-cases (ltb n 10)) [
  | inl small ↦ (b'0' + n, [], rw small (codes-digit n (ground arith)))
  | inr large ↦
      rw (large, codes-append, codes-digit (n % 10) (omega arith))
        (snoc-eq_cons (codes (format_digits f (n / 10))) (b'0' + n % 10))
]

parse_signed_of_digits :
    (cs : List ℕ) (c n : ℕ)
    → n < 2 ^ 63
    → parse_digits (c ∷ cs) 0 ≡ some n
    → parse_signed (c ∷ cs) ≡ some (pos n)
unfolding parse_signed
parse_signed_of_digits cs c n h e = ground arith

-- What `Sprintf` prints of a number that is not negative, `ParseInt` reads back.
pub parse_int-format_int : (n : ℕ) → n < 2 ^ 63 → parse_int (format_int (pos n)) ≡ some (pos n)
unfolding parse_int format_int
parse_int-format_int n h =
    let (c, cs, e) = format_digits-eq_cons n n in
    rw e (
      parse_signed_of_digits cs c n h
        (rw e at (parse_digits-format_digits (suc n) n (omega arith))))

pub parse_int_empty : parse_int "" ≡ none
unfolding parse_int
parse_int_empty = refl

parse_int_runs :
    (parse_int "-12" ≡ some (negsuc 11))
    × (parse_int "+7" ≡ some (pos 7))
    × (parse_int "1_0" ≡ none)
    × (parse_int "-" ≡ none)
    × (parse_int "9223372036854775808" ≡ none)
    × (parse_int "-9223372036854775808" ≡ some (negsuc 9223372036854775807))
unfolding parse_int
parse_int_runs = (refl, refl, refl, refl, refl, refl)

format_int_runs : (format_int (pos 1024) ≡ "1024") × (format_int (negsuc 9) ≡ "-10")
unfolding format_int
format_int_runs = (refl, refl)
