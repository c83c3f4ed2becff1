-- ===== src/Predicate/NodeSelector/Permits/Requirements.antt =====
-- pkg/algorithm/predicate/namespaces_nodeselector.go: the requirements of a selector, and the labels that an
-- item of the configuration permits.
use extender_scheduler.Prelude.{
  ◌≡◌, ◌≢◌, String, ◌<>◌, Bool, true, false, not, ◌&&◌, ◌||◌, Option, none, some, List, [], ◌∷◌,
  ◌++◌, map, All, if◌then◌else◌,
}
use extender_scheduler.Prelude.Text.{◌==◌}
use extender_scheduler.Prelude.Text.Paths.{join}
use extender_scheduler.Prelude.Dict.{Dict, lookup, has_key}
use extender_scheduler.Cluster.{Result, ok, err}
use extender_scheduler.Predicate.NodeSelector.{
  NsConfigItem, NsConfig, LabelValues, system_label, with_default, Selectors, has_wildcard, or_none,
}

-- The requirements of a selector: their text, and the labels that meet them.
pub data Requirement : Type 0 where
  key_exists key_absent : String → Requirement
  value_in value_not_in : String → List String → Requirement

abbrev pub text_of : Requirement → String
text_of (key_exists key) = key
text_of (key_absent key) = "!" <> key
text_of (value_in key values) = key <> (" in (" <> (join "," values <> ")"))
text_of (value_not_in key values) = key <> (" notin (" <> (join "," values <> ")"))

abbrev pub is_there : Option String → Bool
is_there none = false
is_there (some v) = true

abbrev pub is_among : List String → Option String → Bool
is_among values none = false
is_among values (some v) = has_key v values

abbrev pub has_label : String → Dict String → Bool
has_label key labels = is_there (lookup key labels)

abbrev pub has_value : String → List String → Dict String → Bool
has_value key values labels = is_among values (lookup key labels)

abbrev pub holds : Dict String → Requirement → Bool
holds labels (key_exists key) = has_label key labels
holds labels (key_absent key) = not (has_label key labels)
holds labels (value_in key values) = has_value key values labels
holds labels (value_not_in key values) = not (has_value key values labels)

abbrev pub all_hold : Dict String → List Requirement → Bool
all_hold labels [] = true
all_hold labels (r ∷ rs) = holds labels r && all_hold labels rs

-- What the library checks of keys and of values.
pub record Names : Type 0 where
  pub valid_key : String → Bool
  pub valid_value : String → Bool

abbrev pub IsNamed : Names → Requirement → Type 0
IsNamed N (key_exists key) = N.valid_key key ≡ true
IsNamed N (key_absent key) = N.valid_key key ≡ true
IsNamed N (value_in key values) =
    (N.valid_key key ≡ true) × (values ≢ []) × All (λ v. N.valid_value v ≡ true) values
IsNamed N (value_not_in key values) =
    (N.valid_key key ≡ true) × (values ≢ []) × All (λ v. N.valid_value v ≡ true) values

-- Requirements with valid names, joined by commas, are parsed into a selector for the labels that meet
-- all of them.
pub record IsParsing (X : Selectors) (N : Names) : Type 0 where
  pub parses :
      (rs : List Requirement)
      → All (IsNamed N) rs
      → (s : X.Selector) × (X.parse (join "," (map text_of rs)) ≡ ok s)
        × ((labels : Dict String) → X.matches s labels ≡ all_hold labels rs)
  pub system_key : N.valid_key system_label ≡ true

-- A node with the labels is let through by the values that a key is to have, or is not to have. An
-- empty value and a star stand for any; an empty key asks for nothing.
abbrev pub lets : String → List String → Dict String → Bool
lets key values labels =
    if has_wildcard values then has_label key labels else has_value key values labels

abbrev pub matches_all : LabelValues → Dict String → Bool
matches_all [] labels = true
matches_all ((key, values) ∷ lvs) labels =
    (key == "" || lets key values labels) && matches_all lvs labels

abbrev pub matches_none : LabelValues → Dict String → Bool
matches_none [] labels = true
matches_none ((key, values) ∷ lvs) labels =
    (key == "" || not (lets key values labels)) && matches_none lvs labels

-- What the configuration says of a namespace: without an item, only that the node is no system node.
abbrev pub permits : Option NsConfigItem → Dict String → Bool
permits none labels = not (has_label system_label labels)
permits (some item) labels =
    matches_all (or_none item.match) labels
    && (matches_all (or_none item.must_match) labels
        && (matches_none (or_none item.not_match) labels
            && matches_none (or_none item.must_not_match) labels))

-- The item of a namespace, with its default; a configuration that does not decode has none.
abbrev pub default_item : Option NsConfigItem → Option NsConfigItem
default_item none = none
default_item (some item) = some (with_default item)

abbrev pub item_of : Result (Option NsConfig) → String → Option NsConfigItem
item_of (err e) ns = none
item_of (ok none) ns = none
item_of (ok (some config)) ns = default_item (lookup ns config)

abbrev pub match_requirement : String → List String → Requirement
match_requirement key values = if has_wildcard values then key_exists key else value_in key values

abbrev pub not_match_requirement : String → List String → Requirement
not_match_requirement key values =
    if has_wildcard values then key_absent key else value_not_in key values

abbrev pub requirements : (String → List String → Requirement) → LabelValues → List Requirement
requirements f [] = []
requirements f ((key, values) ∷ lvs) =
    let rest = requirements f lvs in if not (key == "") then f key values ∷ rest else rest

abbrev pub item_requirements : NsConfigItem → List Requirement
item_requirements item =
    requirements match_requirement (or_none item.match)
    ++ (requirements match_requirement (or_none item.must_match)
        ++ (requirements not_match_requirement (or_none item.not_match)
            ++ requirements not_match_requirement (or_none item.must_not_match)))

-- The keys and values that an item names are valid, as far as they are used.
abbrev pub HasNames : Names → Option NsConfigItem → Type 0
HasNames N none = Unit
HasNames N (some item) = All (IsNamed N) (item_requirements item)
