-- ===== src/Predicate/NodeSelector/Config.antt =====
-- pkg/algorithm/predicate/namespaces_nodeselector.go: the configuration, what `InsertValue` adds to it,
-- and how `GetNsConfigByConfigMap` reads it. A map that may be nil is an option; the order of a list
-- stands for the order in which Go's map is iterated, which is any.
use extender_scheduler.Prelude.{String, not, Option, none, some, List, [], ◌∷◌, if◌then◌else◌}
use extender_scheduler.Prelude.Text.{◌==◌}
use extender_scheduler.Prelude.Text.Paths.{split}
use extender_scheduler.Prelude.Dict.{Dict, lookup, insert, add_key}
use extender_scheduler.Cluster.{Result, ok, err}

abbrev pub item_name : String
item_name = "nsnodeselector.json"

abbrev pub system_label : String
system_label = "enndata.cn/systemnode"

-- `LabelValues`: for each key a set of values.
abbrev pub LabelValues : Type 0
LabelValues = Dict (List String)

-- `NsConfigItem`
pub record NsConfigItem : Type 0 where
  pub match : Option LabelValues
  pub must_match : Option LabelValues
  pub not_match : Option LabelValues
  pub must_not_match : Option LabelValues

abbrev pub NsConfig : Type 0
NsConfig = Dict NsConfigItem

-- A config map, with its `Data`.
pub record ConfigMap : Type 0 where
  pub items : Option (Dict String)

abbrev pub value_of : Option (List String) → List String
value_of none = []
value_of (some values) = values

unfoldable pub add_keys : List String → List String → List String
unfolding add_key
add_keys [] values = values
add_keys (str ∷ strs) values = add_keys strs (add_key str values)

-- The values that a text lists.
unfoldable pub listed : String → List String
unfolding split
listed v = if not (v == "") then split b',' v else "" ∷ []

-- `InsertValue`, on a map that is not nil and has no nil set.
unfoldable pub insert_value : String → String → LabelValues → LabelValues
unfolding lookup insert listed add_keys
insert_value k v lvs = insert k (add_keys (listed v) (value_of (lookup k lvs))) lvs

-- The values of a key, none for a missing one.
unfoldable pub values_at : String → LabelValues → List String
unfolding lookup
values_at k lvs = value_of (lookup k lvs)

abbrev pub empty_item : NsConfigItem
empty_item = record { match = none; must_match = none; not_match = none; must_not_match = none }

-- The items of the namespaces that have none.
unfoldable pub set_missing : String → Option NsConfigItem → NsConfig → NsConfig
unfolding insert
set_missing ns none config = insert ns empty_item config
set_missing ns (some item) config = config

unfoldable pub add_namespace : String → NsConfig → NsConfig
unfolding lookup set_missing
add_namespace ns config = set_missing ns (lookup ns config) config

unfoldable pub add_namespaces : List String → NsConfig → NsConfig
unfolding add_namespace
add_namespaces [] config = config
add_namespaces (ns ∷ namespaces) config = add_namespaces namespaces (add_namespace ns config)

-- Nodes with the system label are not matched unless the item says otherwise.
abbrev pub with_default : NsConfigItem → NsConfigItem
with_default item = elim item.not_match [
  | none ↦ record item { not_match = some ((system_label, "*" ∷ []) ∷ []) }
  | some m ↦ item
]

-- The loop that sets each item again.
abbrev pub with_defaults : NsConfig → NsConfig
with_defaults [] = []
with_defaults ((ns, item) ∷ config) = (ns, with_default item) ∷ with_defaults config

abbrev text_in : Option (Dict String) → Option String
text_in none = none
text_in (some items) = lookup item_name items

-- The text that is decoded: an empty or missing one counts as an empty object.
unfoldable pub config_text : Option ConfigMap → String
config_text none = "{}"
config_text (some cm) = elim (text_in cm.items) [
  | none ↦ "{}"
  | some text ↦ if text == "" then "{}" else text
]

-- What is made of the decoder's result, for the namespaces that are to have an item. The text `null`
-- decodes into a nil map; there is a panic when an item is set in it, and `none` is that panic.
unfoldable pub complete : Option (List String) → Result (Option NsConfig) → Option (Option NsConfig)
unfolding add_namespaces
complete namespaces (err e) = some none
complete none (ok none) = some none
complete none (ok (some config)) = some (some (with_defaults config))
complete (some []) (ok none) = some none
complete (some (ns ∷ rest)) (ok none) = none
complete (some namespaces) (ok (some config)) =
    some (some (with_defaults (add_namespaces namespaces config)))

-- `GetNsConfigByConfigMap`, with the decoder.
unfoldable pub get_ns_config :
    (String → Result (Option NsConfig))
    → Option ConfigMap
    → Option (List String)
    → Option (Option NsConfig)
unfolding config_text complete
get_ns_config decode cm namespaces = complete namespaces (decode (config_text cm))
