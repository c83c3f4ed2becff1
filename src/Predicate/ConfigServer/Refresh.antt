-- ===== src/Predicate/ConfigServer/Refresh.antt =====
-- pkg/algorithm/predicate/namespaces_nodeselector_httpserver.go: `CheckNamespaceSchedulerNodes`, the nodes
-- that a namespace may use, and `NsNodeSelectorRefresh`, which deletes its pods on all other nodes. The
-- answers of the API server are arguments; a failure is its text.
use extender_scheduler.Prelude.{
  String, ◌<>◌, Bool, true, false, not, ◌&&◌, Option, none, some, List, [], ◌∷◌, ◌++◌, map, keep,
}
use extender_scheduler.Prelude.Text.{◌==◌}
use extender_scheduler.Prelude.Text.Paths.{join}
use extender_scheduler.Prelude.Dict.{has_key}
use extender_scheduler.Cluster.{Pod, Node, Result, ok, err, Error}
use extender_scheduler.Predicate.NodeSelector.{
  Selectors, ConfigMap, get_ns_config, decoded, get_ns_label_selector,
}
use extender_scheduler.Predicate.ConfigServer.Change.{ReturnMsg, failure}

-- What the API server answers.
pub data Answer {ℓ} (A : Type ℓ) : Type ℓ where
  answered : A → Answer A
  failed : String → Answer A

-- The loop's variables: the pods that `DeletePod` was called for, and the two lists of messages.
pub record Refreshed : Type 0 where
  pub deletions : List Pod
  pub err_msg : List String
  pub ok_msg : List String

abbrev pub pod_text : Pod → String
pod_text pod = "[" <> (pod.namespace <> (":" <> (pod.name <> "]")))

module _ (X : Selectors) where
  unfoldable pub ok_nodes : X.Selector → List Node → List Node
  ok_nodes selector nodes = keep (λ node. X.matches selector node.labels) nodes

abbrev pub node_names : List Node → List String
node_names = map (λ node. node.name)

-- The test of a pod: it runs on a node, and on none of the given ones.
unfoldable pub is_misplaced : List String → Pod → Bool
unfolding has_key
is_misplaced names pod = not (pod.node_name == "") && not (has_key pod.node_name names)

module _ (delete_pod : Pod → Option String) where
  abbrev pub add_deletion : Pod → Option String → Refreshed → Refreshed
  add_deletion pod none r = record r {
    deletions = r.deletions ++ pod ∷ [];
    ok_msg = r.ok_msg ++ (pod_text pod <> (":" <> pod.node_name)) ∷ [];
  }
  add_deletion pod (some e) r = record r {
    deletions = r.deletions ++ pod ∷ [];
    err_msg = r.err_msg ++ ("delete pod" <> (pod_text pod <> (" err:" <> e))) ∷ [];
  }

  abbrev pub delete_if : Bool → Pod → Refreshed → Refreshed
  delete_if true pod r = add_deletion pod (delete_pod pod) r
  delete_if false pod r = r

  unfoldable pub refresh_loop : List String → List Pod → Refreshed → Refreshed
  unfolding is_misplaced
  refresh_loop names [] r = r
  refresh_loop names (pod ∷ pods) r =
      refresh_loop names pods (delete_if (is_misplaced names pod) pod r)

abbrev pub nothing_refreshed : Refreshed
nothing_refreshed = record { deletions = []; err_msg = []; ok_msg = [] }

unfoldable pub final_msg : Refreshed → ReturnMsg
unfolding join
final_msg r = elim r.err_msg [
  | [] ↦ record { code = 0; msg = "OK"; data_text = join "," r.ok_msg }
  | e ∷ es ↦ record { code = 0; msg = join "|" (e ∷ es); data_text = join "," r.ok_msg }
]

-- What an error of `labels.Parse` prints.
module _ (X : Selectors) (error_text : Error → String) where
  abbrev pub selector_for : ConfigMap → String → Result X.Selector
  selector_for cm namespace =
      get_ns_label_selector X (decoded (get_ns_config X.decode_config (some cm) none)) namespace

  unfoldable pub check_nodes : Result X.Selector → List Node → ReturnMsg
  unfolding ok_nodes join
  check_nodes (err e) nodes = failure (error_text e)
  check_nodes (ok selector) nodes = record {
    code = 0;
    msg = "OK";
    data_text = "[" <> (join "," (node_names (ok_nodes X selector nodes)) <> "]");
  }

  -- `CheckNamespaceSchedulerNodes`, on the config map that the server has.
  unfoldable pub check_namespace : Answer (List Node) → ConfigMap → String → ReturnMsg
  unfolding get_ns_config get_ns_label_selector check_nodes
  check_namespace (failed e) cm namespace = failure ("get nodes error:" <> e)
  check_namespace (answered nodes) cm namespace = check_nodes (selector_for cm namespace) nodes

  module _ (delete_pod : Pod → Option String) where
    abbrev pub refreshed : X.Selector → List Node → List Pod → Refreshed
    refreshed selector nodes pods =
        refresh_loop delete_pod (node_names (ok_nodes X selector nodes)) pods nothing_refreshed

    -- The pods are asked for when the selector is known; the second result is the pods deleted.
    unfoldable pub refresh_pods :
        Result X.Selector → List Node → Answer (List Pod) → ReturnMsg × List Pod
    unfolding ok_nodes refresh_loop final_msg
    refresh_pods (err e) nodes pods = (failure ("GetNsLabelSelector err:" <> error_text e), [])
    refresh_pods (ok selector) nodes (failed e) = (failure ("get pods err:" <> e), [])
    refresh_pods (ok selector) nodes (answered pods) =
        let r = refreshed selector nodes pods in (final_msg r, r.deletions)

    -- `NsNodeSelectorRefresh`
    unfoldable pub refresh :
        Answer (List Node) → ConfigMap → String → Answer (List Pod) → ReturnMsg × List Pod
    unfolding get_ns_config get_ns_label_selector refresh_pods
    refresh (failed e) cm namespace pods = (failure ("get nodes error:" <> e), [])
    refresh (answered nodes) cm namespace pods = refresh_pods (selector_for cm namespace) nodes pods
