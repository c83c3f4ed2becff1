-- ===== src/Prelude/Text.antt =====
-- Text: the operations of Go's `strings`, `strconv` and `path` that the program uses.
mod Decimal
pub mod Paths
unfoldable pub use Decimal.*
pub use text.Mathlib.Text.{◌==◌, starts_with}
pub use text.Mathlib.TextEquality.{eq_iff}
pub use text.Mathlib.TextPositions.{eq_refl}
use Prim.Native.Char.{code}
use Prim.Native.String.{compare}
use text.Mathlib.Text.{is_lt}
use extender_scheduler.Prelude.{
  ℕ, ◌+◌, ◌-◌, ◌≡◌, refl, String, ◌<>◌, Bool, true, false, ◌&&◌, ◌||◌, List, [], ◌∷◌, map, arith,
  leb, if◌then◌else◌,
}
use extender_scheduler.Prelude.Text.Decimal.{codes, eqb}

-- `s < t`
abbrev pub str_ltb : String → String → Bool
str_ltb s t = is_lt (compare s t)

-- Lower case of the letters A to Z, which the ASCII texts that are looked for can tell apart.
abbrev to_lower : ℕ → ℕ
to_lower c = if leb b'A' c && leb c b'Z' then c + 32 else c

begins : List ℕ → List ℕ → Bool
begins xs [] = true
begins [] (y ∷ ys) = false
begins (x ∷ xs) (y ∷ ys) = eqb x y && begins xs ys

holds_text : List ℕ → List ℕ → Bool
unfolding begins
holds_text [] ys = begins [] ys
holds_text (x ∷ xs) ys = begins (x ∷ xs) ys || holds_text xs ys

-- `strings.Contains(strings.ToLower(s), t)`
unfoldable pub contains_lower : String → String → Bool
unfolding holds_text
contains_lower s t = holds_text (map to_lower (codes s)) (codes t)

contains_lower_runs :
    (contains_lower "xfs-HostPath.csi" "hostpath" ≡ true)
    × (contains_lower "host-path" "hostpath" ≡ false)
unfolding contains_lower
contains_lower_runs = (refl, refl)
