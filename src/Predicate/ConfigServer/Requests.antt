-- ===== src/Predicate/ConfigServer/Requests.antt =====
-- pkg/algorithm/predicate/namespaces_nodeselector_httpserver.go: the handlers of the server, over the
-- variables that the server and the package have, and the calls by which the predicate of the
-- same process reads these variables.
use extender_scheduler.Prelude.{ℕ, String, ◌<>◌, Bool, Option, List, []}
use extender_scheduler.Prelude.Dict.{Dict}
use extender_scheduler.Cluster.{Pod, Node, Error, Result}
use extender_scheduler.Predicate.NodeSelector.{Selectors, Call, select_with}
use extender_scheduler.Predicate.ConfigServer.Change.{ReturnMsg, failure}
use extender_scheduler.Predicate.ConfigServer.Refresh.{
  Answer, answered, failed, check_namespace, refresh,
}
use extender_scheduler.Predicate.ConfigServer.Update.{
  Server, read_at, notcache, cached_at, get_selector_config_map, get_ns_node_selector_config_map,
}
use extender_scheduler.Predicate.ConfigServer.Listing.{NsNodeSelectorConfigRet, node_selector_get}

-- What a call of `getNsNodeSelectorConfigMap` meets: the time at which the server's own time-out is
-- looked at, the call of `getSelectorConfigMap`, and the time after it.
pub record Reading : Type 0 where
  pub asked : ℕ
  pub call : Call
  pub now : ℕ

module _ (X : Selectors) where
  -- `NsNodeSelectorGet`. The config map that the server has is never nil.
  unfoldable pub get_request :
      Answer (List String) → Reading → Server → Option (Dict NsNodeSelectorConfigRet) × Server
  unfolding get_ns_node_selector_config_map node_selector_get
  get_request namespaces r s =
      let (p, s') = get_ns_node_selector_config_map (cached_at r.asked) r.call r.now s in
      (node_selector_get X (read_at s'.heap p) namespaces, s')

  module _ (error_text : Error → String) where
    -- `CheckNamespaceSchedulerNodes`: the nodes are asked for first.
    unfoldable pub check_request :
        Answer (List Node) → String → Reading → Server → ReturnMsg × Server
    unfolding get_ns_node_selector_config_map check_namespace
    check_request (failed e) namespace r s = (failure ("get nodes error:" <> e), s)
    check_request (answered nodes) namespace r s =
        let (p, s') = get_ns_node_selector_config_map (cached_at r.asked) r.call r.now s in
        (check_namespace X error_text (answered nodes) (read_at s'.heap p) namespace, s')

    -- `NsNodeSelectorRefresh`, with the pods that it deletes.
    unfoldable pub refresh_request :
        (Pod → Option String)
        → Answer (List Node)
        → String
        → Answer (List Pod)
        → Reading
        → Server
        → (ReturnMsg × List Pod) × Server
    unfolding get_ns_node_selector_config_map refresh
    refresh_request delete_pod (failed e) namespace pods r s =
        ((failure ("get nodes error:" <> e), []), s)
    refresh_request delete_pod (answered nodes) namespace pods r s =
        let (p, s') = get_ns_node_selector_config_map notcache r.call r.now s in
        (refresh X error_text delete_pod (answered nodes) (read_at s'.heap p) namespace pods, s')

  -- `PodMatchNode` of the node selector in the process of the server. It calls `getConfigCM`, whose body is
  -- that of `getSelectorConfigMap`.
  unfoldable pub match_request : Pod → Node → Call → Server → Result Bool × Server
  unfolding get_selector_config_map select_with
  match_request pod node call s =
      let (p, s') = get_selector_config_map call s in
      (select_with X (read_at s'.heap p) pod node, s')
