-- ===== src/Tests/Parser.antt =====
-- A parser of selectors whose requirements only ask whether a key is there, in place of
-- `labels.Parse`.
use Prim.Native.Char.{Char, code}
use mathlib.Core.Path.{ap₂}
use text.Mathlib.TextLemmas.{nil-append, cons-append}
use extender_scheduler.Prelude.{
  ℕ, ◌≡◌, ◌≢◌, refl, ap, ◌∙◌, String, ◌<>◌, Bool, true, false, not, Option, ◌&&◌, ◌||◌, List, [],
  ◌∷◌, map, All, arith, if◌then◌else◌,
}
use extender_scheduler.Prelude.Text.{eqb}
use extender_scheduler.Prelude.Text.Paths.{split, join}
use extender_scheduler.Cluster.{Result, ok}
use extender_scheduler.Predicate.NodeSelector.{Selectors, NsConfig}
use extender_scheduler.Predicate.NodeSelector.Permits.{
  Requirement, key_exists, key_absent, value_in, value_not_in, text_of, all_hold, Names, IsNamed,
  IsParsing,
}

abbrev has_code : ℕ → String → Bool
has_code sep String.[] = false
has_code sep (String.◌∷◌ c s) = eqb (code c) sep || has_code sep s

split-last : (sep : ℕ) (s : String) → has_code sep s ≡ false → split sep s ≡ s ∷ []
unfolding split
split-last sep String.[] h = refl
split-last sep (String.◌∷◌ c s) h =
    let here : eqb (code c) sep ≡ false = ground arith in
    rw (here, split-last sep s (ground arith)) refl

split-append :
    (sep : ℕ) (s : String) (c : Char) (t : String)
    → has_code sep s ≡ false
    → eqb (code c) sep ≡ true
    → split sep (s <> String.◌∷◌ c t) ≡ s ∷ split sep t
unfolding split
split-append sep String.[] c t h e = rw (nil-append, e) refl
split-append sep (String.◌∷◌ d s) c t h e =
    let here : eqb (code d) sep ≡ false = ground arith in
    rw (cons-append, here, split-append sep s c t (ground arith) e) refl

comma_append : (t : String) → "," <> t ≡ String.◌∷◌ "," t
comma_append t = cons-append "," "" t ∙ ap (String.◌∷◌ ",") (nil-append t)

split-join :
    (p : String) (ps : List String)
    → All (λ s. has_code b',' s ≡ false) (p ∷ ps)
    → split b',' (join "," (p ∷ ps)) ≡ p ∷ ps
unfolding join
split-join p [] h = split-last b',' p h.0
split-join p (q ∷ ps) h =
    rw (comma_append, split-append b',' p "," (join "," (q ∷ ps)) h.0 refl, split-join q ps h.1)
      refl

abbrev clause : String → Requirement
clause String.[] = key_exists ""
clause (String.◌∷◌ c s) = if eqb (code c) b'!' then key_absent s else key_exists (String.◌∷◌ c s)

abbrev valid_key : String → Bool
valid_key String.[] = false
valid_key (String.◌∷◌ c s) = not (eqb (code c) b'!') && not (has_code b',' (String.◌∷◌ c s))

abbrev pub names : Names
names = record { valid_key = valid_key; valid_value = λ v. false }

abbrev requirements_in : String → List Requirement
requirements_in String.[] = []
requirements_in (String.◌∷◌ c s) = map clause (split b',' (String.◌∷◌ c s))

-- The parser, with a decoder of configurations.
abbrev pub key_selectors : (String → Result (Option NsConfig)) → Selectors
key_selectors decode = record {
  Selector = List Requirement;
  everything = [];
  parse = λ text. ok (requirements_in text);
  matches = λ rs labels. all_hold labels rs;
  decode_config = decode;
}

record IsClause (r : Requirement) : Type 0 where
  reads : clause (text_of r) ≡ r
  no_comma : has_code b',' (text_of r) ≡ false
  not_empty : r ≢ key_exists ""

key_no_comma : (key : String) → valid_key key ≡ true → has_code b',' key ≡ false
key_no_comma String.[] h = refl
key_no_comma (String.◌∷◌ c s) h = ground arith

text_of-IsClause : (r : Requirement) → IsNamed names r → IsClause r
text_of-IsClause (key_exists String.[]) h = cc
text_of-IsClause (key_exists (String.◌∷◌ c s)) h = record {
  reads = ground arith;
  no_comma = ground arith;
  not_empty = λ e. cc;
}
text_of-IsClause (key_absent String.[]) h = cc
text_of-IsClause (key_absent (String.◌∷◌ c s)) h = record {
  reads = rw (cons-append, nil-append) refl;
  no_comma = rw (cons-append, nil-append) (key_no_comma (String.◌∷◌ c s) h);
  not_empty = λ e. cc;
}
text_of-IsClause (value_in key []) h = absurd (h.1 refl)
text_of-IsClause (value_in key (v ∷ vs)) h = cc
text_of-IsClause (value_not_in key []) h = absurd (h.1 refl)
text_of-IsClause (value_not_in key (v ∷ vs)) h = cc

all_no_comma :
    (rs : List Requirement)
    → All (IsNamed names) rs
    → All (λ s. has_code b',' s ≡ false) (map text_of rs)
all_no_comma [] h = tt
all_no_comma (r ∷ rs) h = ((text_of-IsClause r h.0).no_comma, all_no_comma rs h.1)

clauses_lem : (rs : List Requirement) → All (IsNamed names) rs → map clause (map text_of rs) ≡ rs
clauses_lem [] h = refl
clauses_lem (r ∷ rs) h = ap₂ ◌∷◌ (text_of-IsClause r h.0).reads (clauses_lem rs h.1)

head_eq : {x r : Requirement} {xs rs : List Requirement} → x ∷ xs ≡ r ∷ rs → r ≡ x
head_eq e = cc

requirements_in_split :
    (s : String) (r : Requirement) (rs : List Requirement)
    → map clause (split b',' s) ≡ r ∷ rs
    → r ≢ key_exists ""
    → requirements_in s ≡ r ∷ rs
unfolding split
requirements_in_split String.[] r rs e n = absurd (n (head_eq e))
requirements_in_split (String.◌∷◌ c s) r rs e n = e

requirements_in-join :
    (rs : List Requirement)
    → All (IsNamed names) rs
    → requirements_in (join "," (map text_of rs)) ≡ rs
unfolding join
requirements_in-join [] h = refl
requirements_in-join (r ∷ rs) h =
    requirements_in_split (join "," (map text_of (r ∷ rs))) r rs
      (ap (map clause) (split-join (text_of r) (map text_of rs) (all_no_comma (r ∷ rs) h))
        ∙ clauses_lem (r ∷ rs) h)
      (text_of-IsClause r h.0).not_empty

pub key_selectors-IsParsing :
    (decode : String → Result (Option NsConfig)) → IsParsing (key_selectors decode) names
key_selectors-IsParsing decode = record {
  parses = λ rs h. (rs, ap ok (requirements_in-join rs h), λ labels. refl);
  system_key = refl;
}
