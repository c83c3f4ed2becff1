-- ===== src/Predicate/Affinity.antt =====
-- pkg/algorithm/predicate/hostpathpv_affinity.go: whether the hostpath volumes of a pod let it run
-- on a node.
pub mod Policy
pub mod Volumes
use extender_scheduler.Prelude.{
  String, Bool, true, false, not, ◌&&◌, ◌||◌, Option, none, some, List, [], ◌∷◌, if◌then◌else◌,
}
use extender_scheduler.Prelude.Text.{◌==◌}
use extender_scheduler.Prelude.Dict.{has_key}
use extender_scheduler.Cluster.{
  Cluster, Pod, Node, Volume, Pv, NodeMounts, Result, ok, err, ◌>>=◌, value_or,
  predicate_pod_volume, predicate_used_nodes, predicate_empty_item, or_error,
}
use extender_scheduler.Algorithm.HostPath.{
  is_shared_host_path_pv, is_keep_host_path_pv, mount_info_list, find_node, used_node_map,
  has_empty_item_for_node, pod_volume_pv,
}

abbrev pub affinity_name : String
affinity_name = "hostpathpvaffinity"

module _ (c : Cluster) (node_name : String) where
  -- "keep false": the nodes where the volume is mounted, or those where it is used.
  unfoldable pub match_used : List String → Bool
  unfolding has_key
  match_used [] = true
  match_used (n ∷ ns) = if has_key node_name (n ∷ ns) then true else false

  abbrev pub is_listed : Option NodeMounts → Bool
  is_listed none = false
  is_listed (some info) = true

  unfoldable pub match_shared : Pv → List NodeMounts → Result Bool
  unfolding used_node_map match_used
  match_shared pv [] =
      or_error (λ e. predicate_used_nodes affinity_name node_name) (used_node_map c pv) >>= λ nodes.
      ok (match_used nodes)
  match_shared pv (info ∷ infos) = ok (is_listed (find_node node_name (info ∷ infos)))

  -- "keep true": the loop over the recorded nodes; the flag is `hasEmpytItem`.
  unfoldable pub match_items : Pv → Bool → List NodeMounts → Result Bool
  unfolding has_empty_item_for_node
  match_items pv has_empty [] = ok (if has_empty then false else true)
  match_items pv has_empty (info ∷ infos) =
      or_error (λ e. predicate_empty_item affinity_name node_name)
        (has_empty_item_for_node c pv info.node_name)
      >>= λ free.
          let rest = match_items pv (has_empty || free) infos in
          if free && node_name == info.node_name then ok true else rest

  -- The switch over the two kinds of policy.
  unfoldable pub match_policy : Pv → List NodeMounts → (is_share is_keep : Bool) → Result Bool
  unfolding match_shared match_items
  match_policy pv infos true true = match_shared pv infos
  match_policy pv infos true false = ok true
  match_policy pv infos false true = match_items pv false infos
  match_policy pv infos false false = ok true

  unfoldable pub match_pv : Option Pv → Result Bool
  unfolding mount_info_list is_shared_host_path_pv is_keep_host_path_pv match_policy
  match_pv none = ok true
  match_pv (some pv) =
      match_policy pv (value_or [] (mount_info_list c pv)) (is_shared_host_path_pv pv)
        (is_keep_host_path_pv pv)

  -- `podPVMatchNode`
  unfoldable pub pod_pv_match_node : Pod → Volume → Result Bool
  unfolding pod_volume_pv match_pv
  pod_pv_match_node pod volume =
      or_error (λ e. predicate_pod_volume affinity_name node_name) (pod_volume_pv c pod volume)
      >>= match_pv

  unfoldable pub match_volumes : Pod → List Volume → Result Bool
  unfolding pod_pv_match_node
  match_volumes pod [] = ok true
  match_volumes pod (v ∷ vs) = pod_pv_match_node pod v >>= λ matches.
      let rest = match_volumes pod vs in if not matches then ok false else rest

-- `PodMatchNode`
unfoldable pub affinity_match : Cluster → Pod → Node → Result Bool
unfolding match_volumes
affinity_match c pod node = match_volumes c node.name pod pod.volumes
