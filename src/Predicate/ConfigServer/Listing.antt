-- ===== src/Predicate/ConfigServer/Listing.antt =====
-- pkg/algorithm/predicate/namespaces_nodeselector_httpserver.go: `NsNodeSelectorNodeLabels`, which lists the
-- labels of all nodes, `NsNodeSelectorGet`, which lists the configuration, and `WithAuthentication`.
use extender_scheduler.Prelude.{
  String, Bool, true, false, not, ◌||◌, ◌<>◌, Option, none, some, List, [], ◌∷◌, if◌then◌else◌,
}
use extender_scheduler.Prelude.Text.{◌==◌}
use extender_scheduler.Prelude.Text.Paths.{join}
use extender_scheduler.Prelude.Dict.{Dict, insert, add_key}
use extender_scheduler.Cluster.{Node}
use extender_scheduler.Predicate.NodeSelector.{
  LabelValues, NsConfigItem, NsConfig, ConfigMap, Selectors, system_label, values_at, get_ns_config,
}
use extender_scheduler.Predicate.ConfigServer.Change.{ReturnMsg, failure}
use extender_scheduler.Predicate.ConfigServer.Refresh.{Answer, answered, failed}
use extender_scheduler.Predicate.ConfigServer.Update.{namespaces_of}

pub record KeyValue : Type 0 where
  pub key : String
  pub value : String

-- One label of a node; a key that is new gets a new set.
unfoldable pub add_label : String → String → LabelValues → LabelValues
unfolding values_at insert add_key
add_label k v lvs = insert k (add_key v (values_at k lvs)) lvs

unfoldable pub add_labels : Dict String → LabelValues → LabelValues
unfolding add_label
add_labels [] lvs = lvs
add_labels ((k, v) ∷ labels) lvs = add_labels labels (add_label k v lvs)

unfoldable pub add_nodes : List Node → LabelValues → LabelValues
unfolding add_labels
add_nodes [] lvs = lvs
add_nodes (node ∷ nodes) lvs = add_nodes nodes (add_labels node.labels lvs)

abbrev pub system_labels : LabelValues
system_labels = (system_label, "*" ∷ []) ∷ []

-- The loop over a map of labels; the values come in the order in which Go's map is iterated, which is any.
unfoldable pub key_values : LabelValues → List KeyValue
unfolding join
key_values [] = []
key_values ((k, values) ∷ lvs) =
    let rest = key_values lvs in
    if not (k == "") then record { key = k; value = join "," values } ∷ rest else rest

-- `NsNodeSelectorNodeLabels`, with the encoder. The code of the answer is 1 in all cases.
unfoldable pub node_labels : (List KeyValue → String) → Answer (List Node) → ReturnMsg
unfolding key_values add_nodes
node_labels encode (failed e) = failure ("get nodes error:" <> e)
node_labels encode (answered nodes) = record {
  code = 1;
  msg = "OK";
  data_text = encode (key_values (add_nodes nodes system_labels));
}

-- `NsNodeSelectorConfigRet`: a list is nil if the map is.
pub record NsNodeSelectorConfigRet : Type 0 where
  pub match : Option (List KeyValue)
  pub must_match : Option (List KeyValue)
  pub not_match : Option (List KeyValue)
  pub must_not_match : Option (List KeyValue)

abbrev listed_values : Option LabelValues → Option (List KeyValue)
listed_values none = none
listed_values (some lvs) = some (key_values lvs)

abbrev pub item_ret : NsConfigItem → NsNodeSelectorConfigRet
item_ret item = record {
  match = listed_values item.match;
  must_match = listed_values item.must_match;
  not_match = listed_values item.not_match;
  must_not_match = listed_values item.must_not_match;
}

abbrev pub config_ret : NsConfig → Dict NsNodeSelectorConfigRet
config_ret [] = []
config_ret ((ns, item) ∷ config) = (ns, item_ret item) ∷ config_ret config

abbrev ret_of : Option (Option NsConfig) → Option (Dict NsNodeSelectorConfigRet)
ret_of none = none
ret_of (some none) = some []
ret_of (some (some config)) = some (config_ret config)

-- `NsNodeSelectorGet`, on the config map that the server has; `none` is the panic of a nil map.
unfoldable pub node_selector_get :
    Selectors → ConfigMap → Answer (List String) → Option (Dict NsNodeSelectorConfigRet)
unfolding get_ns_config
node_selector_get X cm namespaces =
    ret_of (get_ns_config X.decode_config (some cm) (some (namespaces_of namespaces)))

-- What the authenticator says of a request.
pub record Authenticated : Type 0 where
  pub accepted : Bool
  pub failure_text : Option String

abbrev is_none : Option String → Bool
is_none none = true
is_none (some e) = false

-- `WithAuthentication`: the handler's answer, or `none` for the status 401.
unfoldable pub with_authentication :
    {Request Response : Type 0}
    → (Request → Response)
    → (Request → Authenticated)
    → Request
    → Option Response
with_authentication handle auth request =
    let a = auth request in
    if not a.accepted || not (is_none a.failure_text) then none else some (handle request)
