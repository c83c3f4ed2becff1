-- ===== src/Predicate/Affinity/Policy.antt =====
-- pkg/algorithm/predicate/hostpathpv_affinity.go: which nodes a volume allows, by its policy.
use extender_scheduler.Prelude.{
  ◌≡◌, refl, String, Bool, true, false, not, ◌&&◌, ◌||◌, some, List, [], ◌∷◌, arith,
}
use extender_scheduler.Prelude.Text.{◌==◌, eq_iff}
use extender_scheduler.Prelude.Dict.{has_key}
use extender_scheduler.Cluster.{Cluster, Pod, Volume, Pv, NodeMounts, ok}
use extender_scheduler.Algorithm.HostPath.{
  is_shared_host_path_pv, is_keep_host_path_pv, mount_info_list, find_node, used_node_map,
  has_empty_item_for_node, pod_volume_pv,
}
use extender_scheduler.Predicate.Affinity.{
  match_used, match_shared, match_items, match_policy, match_pv, is_listed, pod_pv_match_node,
}

-- Whether a node is among the recorded ones, and whether one of those has a free directory.
abbrev pub is_recorded : String → List NodeMounts → Bool
is_recorded node [] = false
is_recorded node (info ∷ infos) = info.node_name == node || is_recorded node infos

abbrev pub some_free : (String → Bool) → List NodeMounts → Bool
some_free free [] = false
some_free free (info ∷ infos) = free info.node_name || some_free free infos

-- The nodes that a volume allows. A volume that is not kept allows all. One that its pods share
-- allows the nodes that have it, or if none is recorded the nodes that use it, or if there is none
-- every node. One with a directory for each pod allows the recorded nodes with a free directory, or
-- if there is none every node.
abbrev pub allowed :
    (shared kept : Bool) → List NodeMounts → List String → (String → Bool) → String → Bool
allowed shared false infos used free node = true
allowed true true [] [] free node = true
allowed true true [] (n ∷ ns) free node = has_key node (n ∷ ns)
allowed true true (info ∷ infos) used free node = is_recorded node (info ∷ infos)
allowed false true infos used free node =
    is_recorded node infos && free node || not (some_free free infos)

find_node-is_recorded :
    (c : Cluster) (node : String) (infos : List NodeMounts)
    → is_listed c node (find_node node infos) ≡ is_recorded node infos
find_node-is_recorded c node [] = refl
find_node-is_recorded c node (info ∷ infos) = ground (arith, find_node-is_recorded c node infos)

module _ (c : Cluster) (node : String) (pv : Pv) (free : String → Bool)
    (asked : (n : String) → has_empty_item_for_node c pv n ≡ ok (free n)) where
  match_items_lem :
      (infos : List NodeMounts) (b : Bool)
      → match_items c node pv b infos
        ≡ ok (is_recorded node infos && free node || not (b || some_free free infos))
  unfolding match_items
  match_items_lem [] b = ground arith
  match_items_lem (info ∷ infos) b = rw (asked info.node_name) (
      ground (
        arith,
        match_items_lem infos (b || free info.node_name),
        eq_iff node info.node_name,
        eq_iff info.node_name node,
      ))

  match_policy_lem :
      (infos : List NodeMounts) (used : List String) (shared kept : Bool)
      → used_node_map c pv ≡ ok used
      → match_policy c node pv infos shared kept ≡ ok (allowed shared kept infos used free node)
  unfolding match_policy match_shared match_used
  match_policy_lem infos used true false u = refl
  match_policy_lem infos used false false u = refl
  match_policy_lem [] [] true true u = rw u
  match_policy_lem [] (n ∷ ns) true true u = rw u (ground arith)
  match_policy_lem (info ∷ infos) used true true u =
      rw (find_node-is_recorded c node (info ∷ infos))
  match_policy_lem infos used false true u = match_items_lem infos false

-- If the pod's volume stands for a hostpath volume whose annotation can be read, and the queries
-- about its pods have answers, then `podPVMatchNode` answers whether the volume allows the node.
pub pod_pv_match_node-allowed :
    (c : Cluster) (node : String) (pod : Pod) (v : Volume) (pv : Pv) (infos : List NodeMounts)
    (used : List String) (free : String → Bool)
    → pod_volume_pv c pod v ≡ ok (some pv)
    → mount_info_list c pv ≡ ok infos
    → used_node_map c pv ≡ ok used
    → ((n : String) → has_empty_item_for_node c pv n ≡ ok (free n))
    → pod_pv_match_node c node pod v
      ≡ ok (allowed (is_shared_host_path_pv pv) (is_keep_host_path_pv pv) infos used free node)
unfolding pod_pv_match_node match_pv
pod_pv_match_node-allowed c node pod v pv infos used free is_pv read u asked =
    rw (is_pv, read)
      (match_policy_lem c node pv free asked infos used (is_shared_host_path_pv pv)
        (is_keep_host_path_pv pv) u)
