-- ===== src/Predicate/NodeSelector/Permits.antt =====
-- pkg/algorithm/predicate/namespaces_nodeselector.go: the nodes that `PodMatchNode` lets a pod run on, in
-- terms of the configuration and of the labels.
mod Requirements
pub use Requirements.*
use mathlib.Core.List.{map-append}
use extender_scheduler.Prelude.{
  ◌≡◌, ◌≢◌, refl, ap, ◌∙◌, String, ◌<>◌, Bool, true, false, not, ◌&&◌, ◌||◌, Bool-cases, inl, inr,
  Option, none, some, List, [], ◌∷◌, ◌++◌, map, All, arith, if◌then◌else◌,
}
use extender_scheduler.Prelude.Text.{◌==◌}
use extender_scheduler.Prelude.Text.Paths.{join}
use extender_scheduler.Prelude.Dict.{Dict, lookup, has_key}
use extender_scheduler.Cluster.{Pod, Node, Result, ok, err}
use extender_scheduler.Predicate.NodeSelector.{
  NsConfigItem, NsConfig, LabelValues, ConfigMap, system_label, with_default, with_defaults,
  config_text, get_ns_config, Selectors, has_wildcard, match_text, not_match_text, texts, or_none,
  item_texts, get_ns_label_selector, or_everything, item_selector, select, select_with, decoded,
  complete,
}
use extender_scheduler.Predicate.NodeSelector.Permits.Requirements.{
  Requirement, key_exists, key_absent, value_in, value_not_in, text_of, has_label, has_value, holds,
  all_hold, Names, IsNamed, IsParsing, lets, matches_all, matches_none, permits, default_item,
  item_of, match_requirement, not_match_requirement, requirements, item_requirements, HasNames,
}

match_text_lem :
    (key : String) (values : List String)
    → match_text key values ≡ text_of (match_requirement key values)
match_text_lem key values = elim (Bool-cases (has_wildcard values)) [
  | inl e ↦ rw e refl
  | inr e ↦ rw e refl
]

not_match_text_lem :
    (key : String) (values : List String)
    → not_match_text key values ≡ text_of (not_match_requirement key values)
not_match_text_lem key values = elim (Bool-cases (has_wildcard values)) [
  | inl e ↦ rw e refl
  | inr e ↦ rw e refl
]

module _ (text : String → List String → String) (f : String → List String → Requirement)
    (same : (key : String) (values : List String) → text key values ≡ text_of (f key values)) where
  texts_lem : (lvs : LabelValues) → texts text lvs ≡ map text_of (requirements f lvs)
  texts_lem [] = refl
  texts_lem ((key, values) ∷ lvs) = elim (Bool-cases (key == "")) [
    | inl e ↦ rw e (texts_lem lvs)
    | inr e ↦ rw (e, same key values, texts_lem lvs) refl
  ]

item_texts_lem : (item : NsConfigItem) → item_texts item ≡ map text_of (item_requirements item)
unfolding item_texts
item_texts_lem item = simp (
  texts_lem match_text match_requirement match_text_lem,
  texts_lem not_match_text not_match_requirement not_match_text_lem,
  map-append,
)

all_hold-append :
    (labels : Dict String) (rs qs : List Requirement)
    → all_hold labels (rs ++ qs) ≡ (all_hold labels rs && all_hold labels qs)
all_hold-append labels [] qs = refl
all_hold-append labels (r ∷ rs) qs = ground (arith, all_hold-append labels rs qs)

all_hold-matches_all :
    (labels : Dict String) (lvs : LabelValues)
    → all_hold labels (requirements match_requirement lvs) ≡ matches_all lvs labels
all_hold-matches_all labels [] = refl
all_hold-matches_all labels ((key, values) ∷ lvs) = elim (Bool-cases (key == "")) [
  | inl e ↦ rw e (all_hold-matches_all labels lvs)
  | inr e ↦ elim (Bool-cases (has_wildcard values)) [
    | inl w ↦ rw (e, w, all_hold-matches_all labels lvs) refl
    | inr w ↦ rw (e, w, all_hold-matches_all labels lvs) refl
  ]
]

all_hold-matches_none :
    (labels : Dict String) (lvs : LabelValues)
    → all_hold labels (requirements not_match_requirement lvs) ≡ matches_none lvs labels
all_hold-matches_none labels [] = refl
all_hold-matches_none labels ((key, values) ∷ lvs) = elim (Bool-cases (key == "")) [
  | inl e ↦ rw e (all_hold-matches_none labels lvs)
  | inr e ↦ elim (Bool-cases (has_wildcard values)) [
    | inl w ↦ rw (e, w, all_hold-matches_none labels lvs) refl
    | inr w ↦ rw (e, w, all_hold-matches_none labels lvs) refl
  ]
]

all_hold-item :
    (labels : Dict String) (item : NsConfigItem)
    → all_hold labels (item_requirements item) ≡ permits (some item) labels
all_hold-item labels item = simp (all_hold-append, all_hold-matches_all, all_hold-matches_none)

module _ (X : Selectors) (N : Names) (R : IsParsing X N) where
  no_system_lem :
      (s : X.Selector) × (item_selector X none ≡ ok s)
      × ((labels : Dict String) → X.matches s labels ≡ permits none labels)
  unfolding item_selector
  no_system_lem =
      let (s, parsed, means) = R.parses (key_absent system_label ∷ []) (R.system_key, tt) in
      (s, ap (or_everything X) parsed, λ labels. means labels ∙ ground arith)

  item_selector_lem :
      (item : Option NsConfigItem)
      → HasNames N item
      → (s : X.Selector) × (item_selector X item ≡ ok s)
        × ((labels : Dict String) → X.matches s labels ≡ permits item labels)
  unfolding item_selector
  item_selector_lem none named = no_system_lem
  item_selector_lem (some item) named =
      let (s, parsed, means) = R.parses (item_requirements item) named in
      (
        s,
        ap (λ l. X.parse (join "," l)) (item_texts_lem item) ∙ parsed,
        λ labels. means labels ∙ all_hold-item labels item,
      )

lookup-with_defaults :
    (ns : String) (config : NsConfig)
    → lookup ns (with_defaults config) ≡ default_item (lookup ns config)
unfolding lookup
lookup-with_defaults ns [] = refl
lookup-with_defaults ns ((n, item) ∷ config) = elim (Bool-cases (n == ns)) [
  | inl e ↦ rw e refl
  | inr e ↦ rw e (lookup-with_defaults ns config)
]

-- The selector is the one for the namespace's item.
selector_of :
    (X : Selectors) (r : Result (Option NsConfig)) (ns : String)
    → get_ns_label_selector X (decoded (complete none r)) ns ≡ item_selector X (item_of r ns)
unfolding get_ns_label_selector complete item_selector
selector_of X (err e) ns = refl
selector_of X (ok none) ns = refl
selector_of X (ok (some config)) ns = ap (item_selector X) (lookup-with_defaults ns config)

-- With valid names, the selector of a namespace is parsed, and it matches the labels that the item permits.
pub selector_lem :
    (X : Selectors) (N : Names) (R : IsParsing X N) (cm : ConfigMap) (ns : String)
    → HasNames N (item_of (X.decode_config (config_text (some cm))) ns)
    → (s : X.Selector) × (get_ns_label_selector X
          (decoded (get_ns_config X.decode_config (some cm) none))
          ns
        ≡ ok s)
      × ((labels : Dict String)
          → X.matches s labels
            ≡ permits (item_of (X.decode_config (config_text (some cm))) ns) labels)
unfolding get_ns_config
selector_lem X N R cm ns named =
    let r = X.decode_config (config_text (some cm)) in
    let (s, made, means) = item_selector_lem X N R (item_of r ns) named in
    (s, selector_of X r ns ∙ made, means)

-- If the keys and values that the item of the pod's namespace uses are valid names, `PodMatchNode` on a
-- config map says without an error whether the item permits the node's labels. A namespace with no item,
-- and every one if the configuration does not decode, permits all but the system nodes.
pub select_with-permits :
    (X : Selectors) (N : Names) (R : IsParsing X N) (cm : ConfigMap) (pod : Pod) (node : Node)
    → HasNames N (item_of (X.decode_config (config_text (some cm))) pod.namespace)
    → select_with X cm pod node
      ≡ ok (permits (item_of (X.decode_config (config_text (some cm))) pod.namespace) node.labels)
unfolding select_with select
select_with-permits X N R cm pod node named =
    let (s, made, means) = selector_lem X N R cm pod.namespace named in
    rw made (ap ok (means node.labels))
