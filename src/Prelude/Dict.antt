-- ===== src/Prelude/Dict.antt =====
-- Go's `map[string]V` as an association list, and `map[string]bool` or `map[string]struct{}`, whose
-- entries are only ever set, as the list of its keys. A loop over a map visits the entries in the
-- order of the list.
use extender_scheduler.Prelude.{
  ◌≡◌, refl, String, Bool, false, ◌||◌, List, [], ◌∷◌, ◌++◌, Option, none, some, arith,
  if◌then◌else◌, Bool-cases, inl, inr,
}
use extender_scheduler.Prelude.Text.{◌==◌, eq_iff}

abbrev pub Dict : Type 0 → Type 0
Dict V = List (String × V)

module _ {V : Type 0} where
  unfoldable pub lookup : String → Dict V → Option V
  lookup key [] = none
  lookup key (entry ∷ later) = if entry.0 == key then some entry.1 else lookup key later

  -- `m[key] = value`
  unfoldable pub insert : String → V → Dict V → Dict V
  insert key value [] = (key, value) ∷ []
  insert key value (entry ∷ later) =
      let rest = insert key value later in
      if entry.0 == key then (key, value) ∷ later else entry ∷ rest

  -- `delete(m, key)`
  unfoldable pub erase : String → Dict V → Dict V
  erase key [] = []
  erase key (entry ∷ later) =
      let rest = erase key later in if entry.0 == key then rest else entry ∷ rest

  -- What a map has after `delete(m, key)`.
  pub lookup-erase :
      (key asked : String) (entries : Dict V)
      → lookup asked (erase key entries) ≡ (if key == asked then none else lookup asked entries)
  unfolding lookup erase
  lookup-erase key asked [] = ground arith
  lookup-erase key asked (entry ∷ later) = ground (
    arith,
    lookup-erase key asked later,
    eq_iff entry.0 key,
    eq_iff entry.0 asked,
    eq_iff key asked,
  )

  -- What a map has after `m[key] = value`.
  pub lookup-insert :
      (key asked : String) (value : V) (entries : Dict V)
      → lookup asked (insert key value entries)
        ≡ (if key == asked then some value else lookup asked entries)
  unfolding lookup insert
  lookup-insert key asked value [] = refl
  lookup-insert key asked value (entry ∷ later) = ground (
    arith,
    lookup-insert key asked value later,
    eq_iff entry.0 key,
    eq_iff entry.0 asked,
    eq_iff key asked,
  )

-- `_, ok := m[k]`
unfoldable pub has_key : String → List String → Bool
has_key k [] = false
has_key k (j ∷ js) = j == k || has_key k js

-- `m[k] = true`
unfoldable pub add_key : String → List String → List String
add_key k js = if has_key k js then js else js ++ k ∷ []

pub has_key-append :
    (k : String) (is js : List String) → has_key k (is ++ js) ≡ (has_key k is || has_key k js)
unfolding has_key
has_key-append k [] js = refl
has_key-append k (i ∷ is) js = ground (arith, has_key-append k is js)

pub has_key-add_key :
    (k j : String) (js : List String) → has_key j (add_key k js) ≡ (has_key j js || k == j)
unfolding add_key has_key
has_key-add_key k j js = elim (Bool-cases (has_key k js)) [
  | inl old ↦ rw old (ground (arith, eq_iff k j))
  | inr new ↦ rw (new, has_key-append j js (k ∷ [])) (ground arith)
]
