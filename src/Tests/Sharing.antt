-- ===== src/Tests/Sharing.antt =====
-- Runs of the server beside the predicate, and their theorems at concrete data.
use extender_scheduler.Prelude.{◌≡◌, refl, ◌⊎◌, Bool, some, List, [], ◌∷◌, keep}
use extender_scheduler.Cluster.{Node, Error, ok, err, predicate_selector}
use extender_scheduler.Predicate.NodeSelector.{
  Call, item_name, selector_name, with_default, select_with, node_selector_match,
}
use extender_scheduler.Predicate.ConfigServer.{
  add, answered, failure, Reading, check_namespace, match_request, add_update_or_delete,
}
use extender_scheduler.Predicate.ConfigServer.Pointers.{IsValid}
use extender_scheduler.Predicate.ConfigServer.Runs.{
  Event, check, change, match_pod, initial_server, run_events, EventGives, run_events-sources,
}
use extender_scheduler.Predicate.ConfigServer.Known.{Known, AllKnown, Gives}
use extender_scheduler.Predicate.ConfigServer.Reads.{Read, OwnRead}
use extender_scheduler.Predicate.ConfigServer.Shared.{cache_of, match_request-refines}
use extender_scheduler.Predicate.ConfigServer.CheckLaws.{listing, accepts, check_namespace-accepts}
use extender_scheduler.Predicate.ConfigServer.UpdateLaws.{written}
use extender_scheduler.Predicate.ConfigServer.Visible.{add_update_or_delete-match_request}
use extender_scheduler.Prelude.{String, All}
use extender_scheduler.Cluster.{Pod}
use extender_scheduler.Predicate.NodeSelector.{ConfigMap}
use extender_scheduler.Predicate.ConfigServer.{
  ConfigMaps, failed, Answer, get_request, node_selector_get,
}
use extender_scheduler.Prelude.Dict.{lookup}
use extender_scheduler.Informers.{World}
use extender_scheduler.Main.Serving.{initial_world}
use extender_scheduler.Predicate.Handler.{FilterResult, filtered, predicate_route}
use extender_scheduler.Predicate.Handler.Results.{asked_for, last_error}
use extender_scheduler.Predicate.Plugins.{node_selector_plugin}
use extender_scheduler.Predicate.Routes.{says_yes, each_result}
use extender_scheduler.Predicate.SelectorRoute.{called, selector_filter_lem}
use extender_scheduler.Tests.Samples.{web, node, cluster}
use extender_scheduler.Tests.Selectors.{shop, shop_map}
use extender_scheduler.Tests.Servers.{
  selectors, error_text, two_nodes, before, before-IsValid, after, call, form, conflict, encode,
  made, serving,
}

abbrev first : Call
first = record { start = 10; reply = ok (some shop_map); arrival = 12 }

abbrev reading : Reading
reading = record { asked = 19; call = call; now = 30 }

abbrev refusing : ConfigMaps
refusing = record conflict { create = λ cm. failed "conflict" }

-- The predicate gets the config map, the server lists the nodes by it, and a change is refused by the
-- API server.
abbrev events : List Event
events =
    match_pod web (node "n1") first
    ∷ check (answered two_nodes) "shop" reading
    ∷ change refusing "add" form call 30 (answered [])
    ∷ []

initial_server-IsValid : IsValid initial_server
initial_server-IsValid = record { cached_valid = λ p e. cc; own_valid = λ p e. cc }

-- The API server gives this config map only.
abbrev IsShop : ConfigMap → Type 0
IsShop cm = cm ≡ shop_map

call-Gives : Gives selectors encode IsShop call
call-Gives cm e = cc

events-EventGives : All (EventGives selectors error_text encode IsShop) events
events-EventGives = (λ cm e. cc, (call-Gives, ((call-Gives, (λ cm c e. cc, λ cm c e. cc)), tt)))

run_events-sources_example :
    IsValid (run_events selectors error_text encode events initial_server)
    × AllKnown selectors encode IsShop
        (run_events selectors error_text encode events initial_server)
    × ((pod : Pod) (n : Node) (c : Call)
        → Gives selectors encode IsShop c
        → (cm : ConfigMap) × Known selectors encode IsShop cm
          × Read c (run_events selectors error_text encode events initial_server) cm
          × ((match_request selectors pod n c
                (run_events selectors error_text encode events initial_server)).0
              ≡ select_with selectors cm pod n))
    × ((namespaces : Answer (List String)) (r : Reading)
        → Gives selectors encode IsShop r.call
        → (cm : ConfigMap) × Known selectors encode IsShop cm
          × OwnRead r (run_events selectors error_text encode events initial_server) cm
          × ((get_request selectors namespaces r
                (run_events selectors error_text encode events initial_server)).0
              ≡ node_selector_get selectors cm namespaces))
run_events-sources_example =
    run_events-sources selectors error_text encode IsShop events initial_server
      initial_server-IsValid tt events-EventGives

match_request-refines_example :
    node_selector_match selectors call web (node "n1") (cache_of before) ≡ (
      (match_request selectors web (node "n1") call before).0,
      cache_of (match_request selectors web (node "n1") call before).1,
    )
match_request-refines_example =
    match_request-refines selectors web (node "n1") call before before-IsValid

check_run :
    check_namespace selectors error_text (answered two_nodes) shop_map "shop"
    ≡ record { code = 0; msg = "OK"; data_text = "[n1]" }
unfolding serving check_namespace
check_run = refl

check_namespace-accepts_example :
    ((check_namespace selectors error_text (answered two_nodes) shop_map "shop"
        ≡ listing (keep (accepts selectors shop_map web) two_nodes))
      × ((n : Node) → (b : Bool) × (select_with selectors shop_map web n ≡ ok b)))
    ⊎ ((e : Error) × (check_namespace selectors error_text (answered two_nodes) shop_map "shop"
          ≡ failure (error_text e))
        × ((n : Node)
            → select_with selectors shop_map web n
              ≡ err (predicate_selector selector_name n.name e)))
check_namespace-accepts_example =
    check_namespace-accepts selectors error_text shop_map web two_nodes

-- The API server fails, and the predicate decides by the changed configuration.
add_update_or_delete-match_request_example :
    match_request selectors web
      (node "n1")
      call
      (add_update_or_delete selectors encode conflict "add" form call 30 (answered []) before).1
    ≡ (
      select_with selectors (written encode made ((item_name, "shop text") ∷ [])) web (node "n1"),
      (add_update_or_delete selectors encode conflict "add" form call 30 (answered []) before).1,
    )
unfolding serving
add_update_or_delete-match_request_example =
    add_update_or_delete-match_request selectors encode conflict "add" form call 30 (answered [])
      before add 0 after (some (("shop", with_default shop) ∷ [])) made
      ((item_name, "shop text") ∷ []) web (node "n1") call before-IsValid refl refl refl refl refl
      refl refl

-- The package has had the config map since 12, and each call starts at 20.
abbrev recent_world : World
recent_world = record (initial_world cluster) {
  config = record { config_map = some shop_map; updated = 12 };
}

selector_filter_lem_example :
    (r : FilterResult) × (predicate_route
        (node_selector_plugin selectors (λ n. call))
        (some (ok (asked_for web two_nodes)))
        recent_world
      ≡ (filtered r, called 2 recent_world))
    × (r.nodes ≡ keep (λ n. says_yes (select_with selectors shop_map web n)) two_nodes)
    × ((k : String)
        → lookup k r.failed_nodes
          ≡ last_error k (each_result (select_with selectors shop_map web) two_nodes))
selector_filter_lem_example =
    selector_filter_lem selectors (λ n. call) shop_map web two_nodes recent_world refl (λ k h. refl)
