-- ===== src/Predicate/ConfigServer/Change.antt =====
-- pkg/algorithm/predicate/namespaces_nodeselector_httpserver.go: the change of the configuration in
-- `NsNodeSelectorAddUpdateOrDelete`. The configuration is decoded anew for each request, so a refused
-- change leaves nothing behind.
use extender_scheduler.Prelude.{ℕ, String, ◌<>◌, Option, none, some, List, if◌then◌else◌}
use extender_scheduler.Prelude.Text.{◌==◌}
use extender_scheduler.Prelude.Dict.{lookup, insert, erase}
use extender_scheduler.Predicate.NodeSelector.{
  NsConfigItem, LabelValues, NsConfig, empty_item, insert_value, or_none,
}

pub record ReturnMsg : Type 0 where
  pub code : ℕ
  pub msg : String
  pub data_text : String

-- What a step of the handler gives, or the message that it answers with.
pub data Edit {ℓ} (A : Type ℓ) : Type ℓ where
  changed : A → Edit A
  refused : ReturnMsg → Edit A

abbrev pub failure : String → ReturnMsg
failure msg = record { code = 1; msg = msg; data_text = "" }

abbrev pub not_exist : String → ReturnMsg
not_exist key = failure ("key [" <> (key <> "] not exist"))

abbrev pub is_exist : String → ReturnMsg
is_exist key = failure ("key [" <> (key <> "] is existed"))

-- The three operations, from the path of the request.
pub data Operation : Type 0 where
  add delete update : Operation

unfoldable pub operation_of : String → Option Operation
operation_of text =
    if text == "delete"
    then some delete
    else if text == "add"
    then some add
    else if text == "update"
    then some update
    else none

module _ (key value : String) where
  -- `tmpFun`, with the entry of the key.
  abbrev pub edit_entry : Operation → Option (List String) → LabelValues → Edit LabelValues
  edit_entry add none lvs = changed (insert_value key value lvs)
  edit_entry add (some values) lvs = refused (is_exist key)
  edit_entry delete none lvs = refused (not_exist key)
  edit_entry delete (some values) lvs = changed (erase key lvs)
  edit_entry update none lvs = refused (not_exist key)
  edit_entry update (some values) lvs = changed (insert_value key value (erase key lvs))

  unfoldable pub edit_values : Operation → LabelValues → Edit LabelValues
  unfolding lookup insert_value erase
  edit_values operation lvs = edit_entry operation (lookup key lvs) lvs

-- The four kinds of labels of an item.
pub data MatchType : Type 0 where
  match must_match not_match must_not_match : MatchType

unfoldable pub match_type_of : String → Option MatchType
match_type_of text =
    if text == "match"
    then some match
    else if text == "mustmatch"
    then some must_match
    else if text == "notmatch"
    then some not_match
    else if text == "mustnotmatch"
    then some must_not_match
    else none

abbrev pub labels_of : MatchType → NsConfigItem → LabelValues
labels_of match item = or_none item.match
labels_of must_match item = or_none item.must_match
labels_of not_match item = or_none item.not_match
labels_of must_not_match item = or_none item.must_not_match

abbrev pub set_labels : MatchType → LabelValues → NsConfigItem → NsConfigItem
set_labels match lvs item = record item { match = some lvs }
set_labels must_match lvs item = record item { must_match = some lvs }
set_labels not_match lvs item = record item { not_match = some lvs }
set_labels must_not_match lvs item = record item { must_not_match = some lvs }

abbrev pub map_edit : {A B : Type 0} → (A → B) → Edit A → Edit B
map_edit f (changed a) = changed (f a)
map_edit f (refused m) = refused m

-- `nsConfig[namespace]`, which is empty for a missing namespace.
abbrev pub item_or_empty : Option NsConfigItem → NsConfigItem
item_or_empty none = empty_item
item_or_empty (some item) = item

-- The switch over the type, and the item that is set.
abbrev pub edit_typed :
    Operation
    → Option MatchType
    → (type_text namespace key value : String) → NsConfig
    → Edit NsConfig
edit_typed operation none type_text namespace key value config =
    refused (failure ("unknow matchtype " <> type_text))
edit_typed operation (some kind) type_text namespace key value config =
    let item = item_or_empty (lookup namespace config) in
    map_edit (λ lvs. insert namespace (set_labels kind lvs item) config)
      (edit_values key value operation (labels_of kind item))

unfoldable pub edit_config :
    Operation → (type_text namespace key value : String) → NsConfig → Edit NsConfig
unfolding lookup insert match_type_of edit_values
edit_config operation type_text = edit_typed operation (match_type_of type_text) type_text
