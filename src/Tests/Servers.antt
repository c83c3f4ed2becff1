-- ===== src/Tests/Servers.antt =====
-- Runs of the configuration server, and its theorems at concrete data.
use mathlib.Core.Option.{some-injective}
use extender_scheduler.Prelude.{
  ◌<◌, ◌≡◌, refl, subst, String, Option, none, some, List, [], ◌∷◌, arith,
}
use extender_scheduler.Prelude.Text.Paths.{join, split}
use extender_scheduler.Prelude.Dict.{lookup, insert, erase, has_key, add_key}
use extender_scheduler.Cluster.{Pod, Node, Error, external, err}
use extender_scheduler.Predicate.NodeSelector.{
  NsConfig, Call, Selectors, item_name, with_default, insert_value, config_text, get_ns_config,
}
use extender_scheduler.Predicate.NodeSelector.Permits.{item_of}
use extender_scheduler.Predicate.ConfigServer.{
  add, update, operation_of, must_match, match_type_of, edit_config, edit_values, answered, failed,
  refresh, check_namespace, Server, found, ConfigMaps, create_or_update, Form,
  get_ns_node_selector_config_map, add_update_or_delete, edit_with,
}
use extender_scheduler.Predicate.ConfigServer.RefreshLaws.{misplaced, refresh_lem}
use extender_scheduler.Predicate.ConfigServer.Pointers.{IsValid}
use extender_scheduler.Predicate.ConfigServer.UpdateLaws.{IsStored, add_update_or_delete_lem}
use extender_scheduler.Predicate.ConfigServer.{
  node_labels, node_selector_get, key_values, add_nodes, system_labels,
}
use extender_scheduler.Predicate.ConfigServer.ListingLaws.{some_node_has, add_nodes_lem}
use extender_scheduler.Predicate.NodeSelector.{values_at, system_label}
use extender_scheduler.Prelude.{◌||◌, ◌&&◌}
use extender_scheduler.Prelude.Text.{◌==◌}
use extender_scheduler.Tests.Samples.{user, node}
use extender_scheduler.Tests.Parser.{names, key_selectors, key_selectors-IsParsing}
use extender_scheduler.Tests.Selectors.{shop, shop_map, decode}

abbrev pub selectors : Selectors
selectors = key_selectors decode

abbrev pub error_text : Error → String
error_text e = "no selector"

abbrev fast_node : Node
fast_node = record (node "n1") { labels = ("fast", "") ∷ [] }

abbrev pub two_nodes : List Node
two_nodes = fast_node ∷ node "n2" ∷ []

abbrev pub two_pods : List Pod
two_pods = user "one" "n1" ∷ user "two" "n2" ∷ user "waiting" "" ∷ []

abbrev pub deletes : Pod → Option String
deletes pod = none

-- The definitions that the runs evaluate.
unfoldable pub serving : Unit {0}
unfolding add_key has_key lookup insert erase insert_value join split config_text get_ns_config
    edit_config edit_values match_type_of operation_of refresh check_namespace create_or_update
    get_ns_node_selector_config_map add_update_or_delete edit_with
serving = tt

refresh_run :
    refresh selectors error_text deletes (answered two_nodes) shop_map "shop" (answered two_pods)
    ≡ (record { code = 0; msg = "OK"; data_text = "[shop:two]:n2" }, user "two" "n2" ∷ [])
unfolding serving
refresh_run = refl

check_run :
    check_namespace selectors error_text (answered two_nodes) shop_map "shop"
    ≡ record { code = 0; msg = "OK"; data_text = "[n1]" }
unfolding serving
check_run = refl

refresh_lem_example :
    (refresh selectors error_text deletes
      (answered two_nodes)
      shop_map
      "shop"
      (answered two_pods)).1
    ≡ misplaced
        (item_of (selectors.decode_config (config_text (some shop_map))) "shop")
        two_nodes
        two_pods
unfolding serving
refresh_lem_example =
    ((refresh_lem selectors names (key_selectors-IsParsing decode) error_text deletes shop_map
        "shop" two_nodes).0
      (refl, (refl, tt)) two_pods).0

-- The package has the config map, and the server has none yet.
abbrev pub before : Server
before = record { heap = shop_map ∷ []; cached = some 0; updated = 12; own = none; own_updated = 0 }

pub before-IsValid : IsValid before
before-IsValid = record {
  cached_valid = λ p e. subst (λ n. n < 1) (some-injective 0 p e) (omega arith);
  own_valid = λ p e. cc;
}

abbrev pub after : Server
after = record before { own = some 0; own_updated = 30 }

abbrev pub call : Call
call = record { start = 20; reply = err (external "not asked"); arrival = 25 }

abbrev pub form : Form
form = record { namespace = "shop"; match_type = "mustmatch"; key = "zone"; value = "a,b" }

abbrev pub conflict : ConfigMaps
conflict = record {
  get = found shop_map;
  create = λ cm. answered cm;
  update = λ cm. failed "conflict";
}

abbrev pub encode : NsConfig → String
encode config = "edited"

abbrev pub made : NsConfig
made =
    ("shop", record (with_default shop) { must_match = some (("zone", "a" ∷ "b" ∷ []) ∷ []) }) ∷ []

-- The update fails, and the shared config map is changed all the same.
add_update_or_delete_lem_example :
    IsStored
      (failed "conflict")
      (record { items = some ((item_name, "edited") ∷ []) })
      0
      (some 0)
      (add_update_or_delete selectors encode conflict "add" form call 30 (answered []) before)
unfolding serving
add_update_or_delete_lem_example =
    add_update_or_delete_lem selectors encode conflict "add" form call 30 (answered []) before add 0
      after (some (("shop", with_default shop) ∷ [])) made ((item_name, "shop text") ∷ [])
      before-IsValid refl refl refl refl refl

node_labels_run :
    node_labels (λ kvs. "encoded") (answered two_nodes)
    ≡ record { code = 1; msg = "OK"; data_text = "encoded" }
unfolding node_labels
node_labels_run = refl

add_nodes_run :
    key_values (add_nodes two_nodes system_labels)
    ≡ record { key = system_label; value = "*" } ∷ record { key = "fast"; value = "" } ∷ []
unfolding serving add_nodes key_values
add_nodes_run = refl

add_nodes_lem_example :
    has_key "" (values_at "fast" (add_nodes two_nodes system_labels))
    ≡ ((system_label == "fast" && "*" == "") || some_node_has "fast" "" two_nodes)
add_nodes_lem_example = add_nodes_lem two_nodes "fast" ""

get_run :
    node_selector_get selectors shop_map (failed "down")
    ≡ some (
        (
          "shop",
          record {
            match = some (record { key = "fast"; value = "*" } ∷ []);
            must_match = none;
            not_match = some (record { key = system_label; value = "*" } ∷ []);
            must_not_match = none;
          },
        )
        ∷ [])
unfolding serving node_selector_get key_values
get_run = refl
