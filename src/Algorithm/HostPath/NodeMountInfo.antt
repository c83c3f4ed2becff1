-- ===== src/Algorithm/HostPath/NodeMountInfo.antt =====
-- pkg/algorithm/hostpathpv.go: `GetNodeHostPathPVMountInfo`, the directories of all hostpath volumes
-- on a node, with an entry with no path for each pod whose directory is not recorded yet.
use extender_scheduler.Prelude.{
  ℕ, ◌-◌, String, Bool, true, false, ◌&&◌, Option, none, some, List, [], ◌∷◌, ◌++◌, ltb, length,
  replicate, if◌then◌else◌,
}
use extender_scheduler.Prelude.Int.{ℤ, pos}
use extender_scheduler.Prelude.Text.Paths.{clean}
use extender_scheduler.Prelude.Dict.{has_key, add_key}
use extender_scheduler.Cluster.{
  Cluster, Pv, MountInfo, NodeMounts, Result, ok, ◌>>=◌, or_error, value_or, pv_mount_info,
}
use extender_scheduler.Algorithm.HostPath.Kinds.{
  is_common_host_path_pv, is_shared_host_path_pv, mount_info_list, find_node,
}
use extender_scheduler.Algorithm.HostPath.Capacity.{get_capacity}
use extender_scheduler.Algorithm.HostPath.Usage.{used_pod_map}

-- The cleaned paths met so far, and the mounts collected.
pub record Collected : Type 0 where
  pub paths : List String
  pub mounts : List MountInfo

unfoldable pub add_mount : Collected → MountInfo → Collected
add_mount s m =
    let mp = clean m.host_path in
    if has_key mp s.paths
    then s
    else record { paths = add_key mp s.paths; mounts = s.mounts ++ m ∷ [] }

unfoldable pub add_mounts : Collected → List MountInfo → Collected
unfolding add_mount
add_mounts s [] = s
add_mounts s (m ∷ ms) = add_mounts (add_mount s m) ms

-- A directory that is not recorded yet.
abbrev pub unplaced : ℤ → MountInfo
unplaced capacity = record { host_path = ""; volume_quota_size = capacity }

-- The entries for the pods that use the volume on the node beyond its recorded directories.
unfoldable pub unplaced_mounts : Bool → ℤ → (pods recorded : ℕ) → List MountInfo
unplaced_mounts true capacity pods recorded =
    if ltb recorded 1 && ltb 0 pods then unplaced capacity ∷ [] else []
unplaced_mounts false capacity pods recorded =
    if ltb recorded pods then replicate (pods - recorded) (unplaced capacity) else []

module _ (c : Cluster) (node_name : String) where
  unfoldable pub add_node_mounts : Collected → Pv → Option NodeMounts → Collected
  add_node_mounts s pv none = s
  add_node_mounts s pv (some info) =
      let pods = length (value_or [] (used_pod_map c pv node_name)) in
      let capacity = value_or (pos 0) (get_capacity pv) in
      let s' = add_mounts s info.mount_infos in
      record s' {
        mounts =
            s'.mounts
            ++ unplaced_mounts (is_shared_host_path_pv pv) capacity pods (length info.mount_infos);
      }

  unfoldable pub add_pv : Collected → Pv → Result Collected
  add_pv s pv =
      if is_common_host_path_pv (some pv)
      then (or_error (pv_mount_info pv.name) (mount_info_list c pv) >>= λ infos.
          ok (add_node_mounts s pv (find_node node_name infos)))
      else ok s

  unfoldable pub add_pvs : Collected → List Pv → Result Collected
  add_pvs s [] = ok s
  add_pvs s (pv ∷ pvs) = add_pv s pv >>= λ s'. add_pvs s' pvs

  -- `GetNodeHostPathPVMountInfo`
  unfoldable pub node_mount_info : Result NodeMounts
  node_mount_info = c.list_pvs >>= λ pvs. add_pvs (record { paths = []; mounts = [] }) pvs >>= λ s.
      ok (record { node_name = node_name; mount_infos = s.mounts })
