-- ===== src/Algorithm/HostPath/Usage.antt =====
-- pkg/algorithm/hostpathpv.go: the nodes and the pods that use a volume, and the volume that a
-- pod's volume stands for.
use extender_scheduler.Prelude.{
  String, ◌<>◌, Bool, true, false, not, ◌&&◌, ◌||◌, Option, none, some, List, [], ◌∷◌, ltb, length,
  if◌then◌else◌,
}
use extender_scheduler.Prelude.Text.{◌==◌}
use extender_scheduler.Prelude.Dict.{add_key}
use extender_scheduler.Cluster.{
  Cluster, Pod, Volume, ClaimRef, Pv, Pvc, claim_bound, ClaimPhase, NodeMounts, Result, ok, err,
  ◌>>=◌, or_error, pv_not_bound, filter_pods, get_pod, not_hostpath, get_pvc_failed, pvc_is_nil,
  pvc_not_bound, pv_not_fetched,
}
use extender_scheduler.Cluster
use extender_scheduler.Algorithm.PodInfo.{filter_by_node_and_pvc}
use extender_scheduler.Algorithm.HostPath.Kinds.{
  is_common_host_path_pv, is_shared_host_path_pv, is_keep_host_path_pv, mount_info_list, find_node,
  is_mount_on_node,
}

abbrev is_bound : ClaimPhase → Bool
is_bound claim_bound = true
is_bound _ = false

module _ (c : Cluster) where
  -- The pods that are ready and use the claim of the volume, on a node or, for "", on any.
  unfoldable pub users : Pv → String → Result (List Pod)
  unfolding filter_by_node_and_pvc
  users pv node_name = elim pv.claim_ref [
    | none ↦ err (pv_not_bound pv.name)
    | some ref ↦
        or_error (filter_pods ref.namespace ref.name)
          (filter_by_node_and_pvc c node_name ref.namespace ref.name false)
  ]

  -- The node of a pod: the lister's, or that of the pod as the API server has it now.
  node_of : Pod → Result String
  node_of pod =
      if pod.node_name == ""
      then (or_error (get_pod pod.namespace pod.name) (c.live_pod pod.namespace pod.name) >>= λ cur.
          ok cur.node_name)
      else ok pod.node_name

  used_nodes_loop : List Pod → List String → Result (List String)
  unfolding node_of add_key
  used_nodes_loop [] nodes = ok nodes
  used_nodes_loop (pod ∷ pods) nodes =
      node_of pod >>= λ n. used_nodes_loop pods (if n == "" then nodes else add_key n nodes)

  -- `GetHostPathPVUsedNodeMap`
  unfoldable pub used_node_map : Pv → Result (List String)
  unfolding users used_nodes_loop
  used_node_map pv = users pv "" >>= λ pods. used_nodes_loop pods []

  unfoldable pub pod_key : Pod → String
  pod_key pod = pod.namespace <> (":" <> pod.name)

  unfoldable pub used_pods_loop : List Pod → List String → List String
  unfolding pod_key add_key
  used_pods_loop [] keys = keys
  used_pods_loop (pod ∷ pods) keys = used_pods_loop pods (add_key (pod_key pod) keys)

  -- `GetHostPathPVUsedPodMap`; at an error the map is empty.
  unfoldable pub used_pod_map : Pv → String → Result (List String)
  unfolding users used_pods_loop
  used_pod_map pv node_name = users pv node_name >>= λ pods. ok (used_pods_loop pods [])

  -- A directory of the volume on the node that no pod uses.
  unfoldable pub free_item : Pv → ClaimRef → String → Option NodeMounts → Result Bool
  unfolding filter_by_node_and_pvc
  free_item pv ref node_name none = ok false
  free_item pv ref node_name (some info) =
      or_error Cluster.filter_failed
        (filter_by_node_and_pvc c node_name ref.namespace ref.name false)
      >>= λ pods.
          ok (ltb 0 (length info.mount_infos) && ltb (length pods) (length info.mount_infos))

  unfoldable pub has_empty_item : Pv → String → List NodeMounts → Result Bool
  unfolding free_item
  has_empty_item pv node_name [] = ok false
  has_empty_item pv node_name (info ∷ infos) = elim pv.claim_ref [
    | none ↦ err (pv_not_bound pv.name)
    | some ref ↦ free_item pv ref node_name (find_node node_name (info ∷ infos))
  ]

  -- `IsHostPathPVHasEmptyItemForNode`
  unfoldable pub has_empty_item_for_node : Pv → String → Result Bool
  has_empty_item_for_node pv node_name =
      if is_common_host_path_pv (some pv)
      then (if is_shared_host_path_pv pv
          then ok (is_mount_on_node c pv node_name)
          else if not (is_keep_host_path_pv pv)
          then ok false
          else (mount_info_list c pv >>= has_empty_item pv node_name))
      else err (not_hostpath pv.name)

  claimed_pv : String → Pvc → Result (Option Pv)
  claimed_pv claim_name pvc =
      if not (is_bound pvc.phase) || pvc.volume_name == ""
      then err (pvc_not_bound claim_name)
      else elim (c.get_pv pvc.volume_name) [
        | err e ↦ err (pv_not_fetched pvc.volume_name)
        | ok none ↦ err (pv_not_fetched pvc.volume_name)
        | ok (some pv) ↦ ok (some pv)
      ]

  claim_pv : String → Result (Option Pvc) → Result (Option Pv)
  unfolding claimed_pv
  claim_pv claim_name (err e) = err (get_pvc_failed claim_name e)
  claim_pv claim_name (ok none) = err (pvc_is_nil claim_name)
  claim_pv claim_name (ok (some pvc)) = claimed_pv claim_name pvc

  -- `GetPodVolumePV`; no volume, and no error, if the pod's volume has no claim.
  unfoldable pub pod_volume_pv : Pod → Volume → Result (Option Pv)
  unfolding claim_pv
  pod_volume_pv pod volume = elim volume.claim_name [
    | none ↦ ok none
    | some claim_name ↦ claim_pv claim_name (c.get_pvc pod.namespace claim_name)
  ]
