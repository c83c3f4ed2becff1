-- ===== src/Prelude/Text/Paths.antt =====
-- `strings.Split`, `strings.Join` and `path.Clean`.
use Prim.Native.Char.{code}
use mathlib.Core.List.{reverse}
use text.Mathlib.Text.{◌==◌, starts_with}
use extender_scheduler.Prelude.{
  ℕ, ◌≡◌, refl, String, ◌<>◌, Bool, ◌||◌, List, [], ◌∷◌, if◌then◌else◌,
}
use extender_scheduler.Prelude.Text.Decimal.{eqb}

abbrev on_first : (String → String) → List String → List String
on_first f [] = f "" ∷ []
on_first f (s ∷ ss) = f s ∷ ss

-- `strings.Split(s, sep)` for a separator of one character.
unfoldable pub split : ℕ → String → List String
split sep String.[] = "" ∷ []
split sep (String.◌∷◌ c s) =
    let rest = split sep s in
    if eqb (code c) sep then "" ∷ rest else on_first (λ t. String.◌∷◌ c t) rest

-- `strings.Join(ss, sep)`
unfoldable pub join : String → List String → String
join sep [] = ""
join sep (s ∷ []) = s
join sep (s ∷ t ∷ ss) = s <> (sep <> join sep (t ∷ ss))

-- The component `..`
abbrev parent : Bool → List String → List String
parent rooted [] = if rooted then [] else ".." ∷ []
parent rooted (top ∷ rest) = if top == ".." then ".." ∷ top ∷ rest else rest

-- One component of a path onto those before it, the last first.
clean_step : Bool → List String → String → List String
clean_step rooted stack part =
    if part == "" || part == "."
    then stack
    else if part == ".."
    then parent rooted stack
    else part ∷ stack

clean_parts : Bool → List String → List String → List String
clean_parts rooted stack [] = stack
clean_parts rooted stack (part ∷ parts) = clean_parts rooted (clean_step rooted stack part) parts

abbrev or_dot : String → String
or_dot s = if s == "" then "." else s

-- `path.Clean(s)`
unfoldable pub clean : String → String
unfolding split join clean_step clean_parts
clean s =
    let rooted = starts_with s "/" in
    or_dot
      ((if rooted then "/" else "") <> join "/" (reverse (clean_parts rooted [] (split b'/' s))))

clean_runs :
    (clean "/a//b/./c/../d/" ≡ "/a/b/d")
    × (clean "a/../../b" ≡ "../b")
    × (clean "/../a" ≡ "/a")
    × (clean "" ≡ ".")
    × (clean "//" ≡ "/")
unfolding clean
clean_runs = (refl, refl, refl, refl, refl)
