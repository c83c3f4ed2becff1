-- ===== src/Predicate/NodeSelector/ConfigLaws.antt =====
-- pkg/algorithm/predicate/namespaces_nodeselector.go: what `InsertValue` adds, and the items that
-- `GetNsConfigByConfigMap` gives.
use extender_scheduler.Prelude.{
  ◌≡◌, refl, subst, sym, ap, ◌∙◌, String, true, false, ◌&&◌, ◌||◌, Bool-cases, inl, inr, Option,
  none, some, List, [], ◌∷◌, arith, if◌then◌else◌,
}
use extender_scheduler.Prelude.Text.{◌==◌, eq_iff}
use extender_scheduler.Prelude.Dict.{lookup, lookup-insert, has_key, add_key, has_key-add_key}
use extender_scheduler.Cluster.{Result, ok}
use extender_scheduler.Predicate.NodeSelector.{
  NsConfigItem, NsConfig, LabelValues, ConfigMap, add_keys, listed, insert_value, values_at,
  empty_item, set_missing, add_namespace, add_namespaces, with_default, with_defaults, value_of,
  config_text, complete, get_ns_config,
}

has_key-add_keys :
    (x : String) (strs values : List String)
    → has_key x (add_keys strs values) ≡ (has_key x values || has_key x strs)
unfolding add_keys has_key
has_key-add_keys x [] values = ground arith
has_key-add_keys x (str ∷ strs) values =
    has_key-add_keys x strs (add_key str values) ∙ ground (arith, has_key-add_key str x values)

values_at-insert_value :
    (k v : String) (lvs : LabelValues) (j : String)
    → values_at j (insert_value k v lvs)
      ≡ (if k == j then add_keys (listed v) (values_at k lvs) else values_at j lvs)
unfolding insert_value values_at
values_at-insert_value k v lvs j =
    ap value_of (lookup-insert k j (add_keys (listed v) (value_of (lookup k lvs))) lvs)
    ∙ ground arith

-- After `InsertValue` a key has the values that it had and, if it is the key given, those of the text;
-- all other keys are as before.
pub insert_value_lem :
    (k v : String) (lvs : LabelValues) (j x : String)
    → has_key x (values_at j (insert_value k v lvs))
      ≡ (has_key x (values_at j lvs) || (k == j && has_key x (listed v)))
insert_value_lem k v lvs j x = elim (Bool-cases (k == j)) [
  | inl e ↦
      let same = (eq_iff k j).0 e in
      rw (values_at-insert_value, e, sym same) (has_key-add_keys x (listed v) (values_at k lvs))
  | inr e ↦ rw (values_at-insert_value, e) (ground arith)
]

-- The item that a namespace is to have, from the one it has.
abbrev item_for : List String → String → Option NsConfigItem → Option NsConfigItem
item_for namespaces ns (some item) = some (with_default item)
item_for namespaces ns none = if has_key ns namespaces then some (with_default empty_item) else none

abbrev plain_item : List String → String → Option NsConfigItem → Option NsConfigItem
plain_item namespaces ns (some item) = some item
plain_item namespaces ns none = if has_key ns namespaces then some empty_item else none

abbrev mapped : Option NsConfigItem → Option NsConfigItem
mapped none = none
mapped (some item) = some (with_default item)

mapped-plain_item :
    (namespaces : List String) (ns : String) (o : Option NsConfigItem)
    → mapped (plain_item namespaces ns o) ≡ item_for namespaces ns o
mapped-plain_item namespaces ns (some item) = refl
mapped-plain_item namespaces ns none = ground arith

lookup-with_defaults :
    (ns : String) (config : NsConfig) → lookup ns (with_defaults config) ≡ mapped (lookup ns config)
unfolding lookup
lookup-with_defaults ns [] = refl
lookup-with_defaults ns ((n, item) ∷ config) = elim (Bool-cases (n == ns)) [
  | inl e ↦ rw e refl
  | inr e ↦ rw e (lookup-with_defaults ns config)
]

plain_item_step :
    (n : String) (namespaces : List String) (ns : String) (o : Option NsConfigItem)
    → plain_item namespaces ns (plain_item (n ∷ []) ns o) ≡ plain_item (n ∷ namespaces) ns o
unfolding has_key
plain_item_step n namespaces ns (some item) = refl
plain_item_step n namespaces ns none = elim (Bool-cases (n == ns)) [
  | inl e ↦ rw e refl
  | inr e ↦ rw e refl
]

unchanged :
    (n ns : String) (o : Option NsConfigItem) → (n == ns) ≡ false → o ≡ plain_item (n ∷ []) ns o
unfolding has_key
unchanged n ns none e = rw e refl
unchanged n ns (some item) e = refl

is_added : (n ns : String) → (n == ns) ≡ true → some empty_item ≡ plain_item (n ∷ []) ns none
unfolding has_key
is_added n ns e = rw e refl

lookup-set_missing :
    (n : String) (o : Option NsConfigItem) (config : NsConfig) (ns : String)
    → lookup n config ≡ o
    → lookup ns (set_missing n o config) ≡ plain_item (n ∷ []) ns (lookup ns config)
unfolding set_missing has_key
lookup-set_missing n none config ns h =
    lookup-insert n ns empty_item config ∙ elim (Bool-cases (n == ns)) [
      | inl e ↦ rw (e, subst (λ m. lookup m config ≡ none) ((eq_iff n ns).0 e) h) (is_added n ns e)
      | inr e ↦ rw e (unchanged n ns (lookup ns config) e)
    ]
lookup-set_missing n (some item) config ns h = elim (Bool-cases (n == ns)) [
  | inl e ↦ rw (subst (λ m. lookup m config ≡ some item) ((eq_iff n ns).0 e) h) refl
  | inr e ↦ unchanged n ns (lookup ns config) e
]

lookup-add_namespaces :
    (namespaces : List String) (config : NsConfig) (ns : String)
    → lookup ns (add_namespaces namespaces config) ≡ plain_item namespaces ns (lookup ns config)
unfolding add_namespaces add_namespace has_key
lookup-add_namespaces [] config ns = plain_item_empty (lookup ns config)
  where
    plain_item_empty : (o : Option NsConfigItem) → o ≡ plain_item [] ns o
    plain_item_empty none = refl
    plain_item_empty (some item) = refl
lookup-add_namespaces (n ∷ namespaces) config ns =
    lookup-add_namespaces namespaces (add_namespace n config) ns
    ∙ ap (plain_item namespaces ns) (lookup-set_missing n (lookup n config) config ns refl)
    ∙ plain_item_step n namespaces ns (lookup ns config)

lookup-with_defaults_added :
    (namespaces : List String) (config : NsConfig) (ns : String)
    → lookup ns (with_defaults (add_namespaces namespaces config))
      ≡ item_for namespaces ns (lookup ns config)
lookup-with_defaults_added namespaces config ns =
    lookup-with_defaults ns (add_namespaces namespaces config)
    ∙ ap mapped (lookup-add_namespaces namespaces config ns)
    ∙ mapped-plain_item namespaces ns (lookup ns config)

lookup-get_ns_config :
    (decode : String → Result (Option NsConfig)) (cm : Option ConfigMap)
    (namespaces : Option (List String)) (config : NsConfig)
    → decode (config_text cm) ≡ ok (some config)
    → (made : NsConfig) × (get_ns_config decode cm namespaces ≡ some (some made))
      × ((ns : String) → lookup ns made ≡ item_for (value_of namespaces) ns (lookup ns config))
unfolding get_ns_config complete add_namespaces
lookup-get_ns_config decode cm none config e =
    (with_defaults config, rw e refl, lookup-with_defaults_added [] config)
lookup-get_ns_config decode cm (some []) config e =
    (with_defaults config, rw e refl, lookup-with_defaults_added [] config)
lookup-get_ns_config decode cm (some (n ∷ namespaces)) config e = (
  with_defaults (add_namespaces (n ∷ namespaces) config),
  rw e refl,
  lookup-with_defaults_added (n ∷ namespaces) config,
)

-- The second item is the first with the default for the labels not to match (`NotMatch`): where the first
-- has no such labels, the system label with any value, and otherwise its own.
pub record IsDefaulted (before after : NsConfigItem) : Type 0 where
  pub same_match : after.match ≡ before.match
  pub same_must_match : after.must_match ≡ before.must_match
  pub same_must_not_match : after.must_not_match ≡ before.must_not_match
  pub absent :
      before.not_match ≡ none → after.not_match ≡ some (("enndata.cn/systemnode", "*" ∷ []) ∷ [])
  pub present : (lvs : LabelValues) → before.not_match ≡ some lvs → after.not_match ≡ some lvs

not_match-IsDefaulted :
    (item : NsConfigItem) (o : Option LabelValues)
    → item.not_match ≡ o
    → IsDefaulted item (with_default item)
not_match-IsDefaulted item none e = record {
  same_match = rw e refl;
  same_must_match = rw e refl;
  same_must_not_match = rw e refl;
  absent = λ h. rw e refl;
  present = λ lvs h. cc;
}
not_match-IsDefaulted item (some x) e = record {
  same_match = rw e refl;
  same_must_match = rw e refl;
  same_must_not_match = rw e refl;
  absent = λ h. cc;
  present = λ lvs h. rw e (sym e ∙ h);
}

with_default-IsDefaulted : (item : NsConfigItem) → IsDefaulted item (with_default item)
with_default-IsDefaulted item = not_match-IsDefaulted item item.not_match refl

-- The namespace has this item with the default.
abbrev pub HasDefaulted : NsConfigItem → String → NsConfig → Type 0
HasDefaulted item ns made =
    (after : NsConfigItem) × (lookup ns made ≡ some after) × IsDefaulted item after

-- If the text decodes into a configuration, `GetNsConfigByConfigMap` returns one in which a namespace that
-- was decoded has its item, a namespace of the given list that was not has an empty item, and any other
-- has none; a nil list has no namespace. In both cases an item that says nothing of the labels not to match
-- (`NotMatch`) gets the system label with any value there, and all else of the item is as it was.
pub get_ns_config_lem :
    (decode : String → Result (Option NsConfig)) (cm : Option ConfigMap)
    (namespaces : Option (List String)) (config : NsConfig)
    → decode (config_text cm) ≡ ok (some config)
    → (made : NsConfig) × (get_ns_config decode cm namespaces ≡ some (some made))
      × ((ns : String) (item : NsConfigItem)
          → lookup ns config ≡ some item
          → HasDefaulted item ns made)
      × ((ns : String)
          → lookup ns config ≡ none
          → has_key ns (value_of namespaces) ≡ true
          → HasDefaulted
              (record { match = none; must_match = none; not_match = none; must_not_match = none })
              ns
              made)
      × ((ns : String)
          → lookup ns config ≡ none
          → has_key ns (value_of namespaces) ≡ false
          → lookup ns made ≡ none)
get_ns_config_lem decode cm namespaces config e =
    let (made, made_by, items) = lookup-get_ns_config decode cm namespaces config e in
    (
      made,
      made_by,
      λ ns item found. (with_default item, items ns ∙ rw found refl, with_default-IsDefaulted item),
      λ ns missing listed. (
        with_default empty_item,
        items ns ∙ rw (missing, listed) refl,
        with_default-IsDefaulted empty_item,
      ),
      λ ns missing unlisted. items ns ∙ rw (missing, unlisted) refl,
    )
