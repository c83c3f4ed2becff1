-- ===== src/Algorithm/PodInfo.antt =====
-- pkg/algorithm/common.go: `CachedPodInfo`, the queries over the pods of the lister.
pub mod Selected
use extender_scheduler.Prelude.{
  String, Bool, true, false, not, ◌&&◌, ◌||◌, Option, none, some, List, [], ◌∷◌, keep,
  if◌then◌else◌,
}
use extender_scheduler.Prelude.Text.{◌==◌}
use extender_scheduler.Cluster.{Cluster, Pod, Phase, succeeded, failed, Volume, Result, ok, err}

-- `v1.PodSucceeded != phase && v1.PodFailed != phase`
abbrev not_ended : Phase → Bool
not_ended succeeded = false
not_ended failed = false
not_ended _ = true

unfoldable pub is_pod_ready : Pod → Bool
is_pod_ready p = not_ended p.phase && not p.deleting

-- The test of one volume in the loop of `isPodUsePVC`.
abbrev pub is_claim : String → Option String → Bool
is_claim pvc_name none = false
is_claim pvc_name (some claim_name) = claim_name == pvc_name

unfoldable pub has_claim : String → List Volume → Bool
has_claim pvc_name [] = false
has_claim pvc_name (v ∷ vs) = is_claim pvc_name v.claim_name || has_claim pvc_name vs

unfoldable pub is_pod_use_pvc : Pod → String → String → Bool
unfolding has_claim
is_pod_use_pvc p pvc_namespace pvc_name =
    if p.namespace == pvc_namespace then has_claim pvc_name p.volumes else false

-- The filter of `FilterByNodeAndPVC`
unfoldable pub on_node_with_pvc : String → String → String → Bool → Pod → Bool
on_node_with_pvc node_name pvc_namespace pvc_name all p =
    if (node_name == "" || p.node_name == node_name) && is_pod_use_pvc p pvc_namespace pvc_name
    then (if all then true else is_pod_ready p)
    else false

-- The filter of `FilterByNode`
unfoldable pub on_node : String → Bool → Pod → Bool
on_node node_name all p =
    if p.node_name == node_name then (if all then true else is_pod_ready p) else false

-- `list`; a nil filter keeps every pod.
abbrev kept_by : Option (Pod → Bool) → Pod → Bool
kept_by none p = true
kept_by (some filter) p = filter p

module _ (c : Cluster) where
  unfoldable pub list_filtered : Option (Pod → Bool) → Result (List Pod)
  list_filtered filter = elim c.list_pods [
    | ok pods ↦ ok (keep (kept_by filter) pods)
    | err e ↦ err e
  ]

  unfoldable pub filter_by_node_and_pvc : String → String → String → Bool → Result (List Pod)
  unfolding list_filtered
  filter_by_node_and_pvc node_name pvc_namespace pvc_name all =
      list_filtered (some (on_node_with_pvc node_name pvc_namespace pvc_name all))

  unfoldable pub filter_by_node : String → Bool → Result (List Pod)
  unfolding list_filtered
  filter_by_node node_name all = list_filtered (some (on_node node_name all))

  unfoldable pub list : Bool → Result (List Pod)
  unfolding list_filtered
  list all = if all then list_filtered none else list_filtered (some is_pod_ready)
