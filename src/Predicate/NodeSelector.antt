-- ===== src/Predicate/NodeSelector.antt =====
-- pkg/algorithm/predicate/namespaces_nodeselector.go: whether the configuration of a pod's namespace lets
-- it run on a node with certain labels. The selectors of `apimachinery` are a parameter.
mod Config
mod Cache
pub mod Permits
pub mod ConfigLaws
pub mod Cached
unfoldable pub use Config.*
unfoldable pub use Cache.*
use extender_scheduler.Prelude.{
  String, ◌<>◌, Bool, true, false, not, ◌||◌, Option, none, some, List, [], ◌∷◌, ◌++◌,
  if◌then◌else◌,
}
use extender_scheduler.Prelude.Text.{◌==◌}
use extender_scheduler.Prelude.Text.Paths.{join}
use extender_scheduler.Prelude.Dict.{Dict, lookup, has_key}
use extender_scheduler.Cluster.{
  Pod, Node, Error, predicate_selector, Result, ok, err, ◌>>=◌, or_error,
}

-- `labels`, and the decoder of the configuration.
pub record Selectors : Type 1 where
  pub Selector : Type 0
  pub everything : Selector
  pub parse : String → Result Selector
  pub matches : Selector → Dict String → Bool
  pub decode_config : String → Result (Option NsConfig)

abbrev pub selector_name : String
selector_name = "namespacenodeselector"

-- `MapHasString(m, "", "*")`
unfoldable pub has_wildcard : List String → Bool
unfolding has_key
has_wildcard values = has_key "" values || has_key "*" values

abbrev pub match_text : String → List String → String
match_text key values =
    if has_wildcard values then key else key <> (" in (" <> (join "," values <> ")"))

abbrev pub not_match_text : String → List String → String
not_match_text key values =
    if has_wildcard values then "!" <> key else key <> (" notin (" <> (join "," values <> ")"))

-- The loop over one of the four maps.
abbrev pub texts : (String → List String → String) → LabelValues → List String
texts text [] = []
texts text ((key, values) ∷ lvs) =
    let rest = texts text lvs in if not (key == "") then text key values ∷ rest else rest

abbrev pub or_none : Option LabelValues → LabelValues
or_none none = []
or_none (some lvs) = lvs

unfoldable pub item_texts : NsConfigItem → List String
unfolding has_wildcard
item_texts item =
    texts match_text (or_none item.match)
    ++ (texts match_text (or_none item.must_match)
        ++ (texts not_match_text (or_none item.not_match)
            ++ texts not_match_text (or_none item.must_not_match)))

abbrev pub decoded : Option (Option NsConfig) → Option NsConfig
decoded none = none
decoded (some config) = config

module _ (X : Selectors) where
  abbrev pub or_everything : Result X.Selector → Result X.Selector
  or_everything (err e) = ok X.everything
  or_everything (ok s) = ok s

  abbrev no_system : Result X.Selector
  no_system = or_everything (X.parse ("!" <> system_label))

  unfoldable pub item_selector : Option NsConfigItem → Result X.Selector
  unfolding join item_texts
  item_selector none = no_system
  item_selector (some item) = X.parse (join "," (item_texts item))

  -- `GetNsLabelSelector`
  unfoldable pub get_ns_label_selector : Option NsConfig → String → Result X.Selector
  unfolding item_selector lookup
  get_ns_label_selector none ns = no_system
  get_ns_label_selector (some config) ns = item_selector (lookup ns config)

  unfoldable pub select : Option NsConfig → Pod → Node → Result Bool
  unfolding get_ns_label_selector
  select config pod node =
      or_error (predicate_selector selector_name node.name)
        (get_ns_label_selector config pod.namespace)
      >>= λ selector. ok (X.matches selector node.labels)

  -- `PodMatchNode`, on the config map that `getConfigCM` gives. With no list of namespaces there is no
  -- panic.
  unfoldable pub select_with : ConfigMap → Pod → Node → Result Bool
  unfolding select get_ns_config
  select_with cm pod node = select (decoded (get_ns_config X.decode_config (some cm) none)) pod node

  unfoldable pub node_selector_match : Call → Pod → Node → ConfigCache → Result Bool × ConfigCache
  unfolding select_with get_config_cm
  node_selector_match call pod node s =
      let (cm, s') = get_config_cm call s in (select_with cm pod node, s')
