-- ===== src/Algorithm/HostPath/Kinds.antt =====
-- pkg/algorithm/hostpathpv.go: the kinds of hostpath volumes, told apart by their annotations, and
-- the mounts that an annotation records.
use extender_scheduler.Prelude.{
  String, Bool, true, false, not, ◌&&◌, ◌||◌, Option, none, some, List, [], ◌∷◌, if◌then◌else◌,
}
use extender_scheduler.Prelude.Text.{◌==◌, contains_lower}
use extender_scheduler.Prelude.Dict.{Dict, lookup}
use extender_scheduler.Cluster.{
  Cluster, Pv, NodeMounts, Result, ok, err, mount_node_ann, mount_policy_ann, one_pod_ann,
}

-- The pointer to the volume may be nil.
unfoldable pub is_host_path_pv : Option Pv → Bool
is_host_path_pv none = false
is_host_path_pv (some pv) = pv.host_path

abbrev is_hostpath_driver : Option String → Bool
is_hostpath_driver none = false
is_hostpath_driver (some driver) = contains_lower driver "hostpath"

unfoldable pub is_csi_host_path_pv : Option Pv → Bool
is_csi_host_path_pv none = false
is_csi_host_path_pv (some pv) = is_hostpath_driver pv.csi_driver

unfoldable pub is_common_host_path_pv : Option Pv → Bool
unfolding is_host_path_pv is_csi_host_path_pv
is_common_host_path_pv pv = is_host_path_pv pv || is_csi_host_path_pv pv

abbrev is_value : String → Option String → Bool
is_value value none = false
is_value value (some v) = v == value

unfoldable pub has_annotation : Option (Dict String) → String → String → Bool
unfolding lookup
has_annotation none key value = false
has_annotation (some annotations) key value = is_value value (lookup key annotations)

-- `annotations[key]`, which is empty for a missing key and for a nil map.
abbrev text_or_empty : Option String → String
text_or_empty none = ""
text_or_empty (some v) = v

unfoldable pub annotation : Option (Dict String) → String → String
unfolding lookup
annotation none key = ""
annotation (some annotations) key = text_or_empty (lookup key annotations)

unfoldable pub is_shared_host_path_pv : Pv → Bool
unfolding is_common_host_path_pv has_annotation
is_shared_host_path_pv pv =
    is_common_host_path_pv (some pv) && has_annotation pv.annotations one_pod_ann "false"

unfoldable pub is_keep_host_path_pv : Pv → Bool
unfolding is_common_host_path_pv has_annotation
is_keep_host_path_pv pv =
    if is_common_host_path_pv (some pv)
    then (if has_annotation pv.annotations mount_policy_ann "none" then false else true)
    else false

-- The loops that look for the entry of a node.
abbrev pub find_node : String → List NodeMounts → Option NodeMounts
find_node node_name [] = none
find_node node_name (info ∷ infos) =
    if info.node_name == node_name then some info else find_node node_name infos

abbrev lists_node : String → Result (List NodeMounts) → Bool
lists_node node_name (err e) = false
lists_node node_name (ok infos) = elim (find_node node_name infos) [
  | none ↦ false
  | some info ↦ true
]

module _ (c : Cluster) where
  unfoldable pub mount_info_list : Pv → Result (List NodeMounts)
  unfolding is_common_host_path_pv annotation
  mount_info_list pv =
      let text = annotation pv.annotations mount_node_ann in
      if is_common_host_path_pv (some pv) && not (text == "") then c.decode_mounts text else ok []

  unfoldable pub is_mount_on_node : Pv → String → Bool
  unfolding mount_info_list
  is_mount_on_node pv node_name = lists_node node_name (mount_info_list pv)
