-- ===== src/Predicate/DiskPressure/Disks.antt =====
-- pkg/algorithm/predicate/hostpathpv_disk_pressure.go: `getNodeDiskInfos`, what is left of each
-- quota disk of a node.
use extender_scheduler.Prelude.{List, [], ◌∷◌, map, if◌then◌else◌}
use extender_scheduler.Prelude.Int.{ℤ, pos, add64, sub64, ltb_ℤ}
use extender_scheduler.Prelude.Text.{◌==◌, starts_with}
use extender_scheduler.Cluster.{Cluster, Node, NodeDisk, MountInfo, DiskInfo, Result, ok, ◌>>=◌}
use extender_scheduler.Algorithm.HostPath.{get_node_disk_info, node_mount_info}
use extender_scheduler.Predicate.DiskPressure.Sort.{sort}

abbrev pub disk_of : NodeDisk → DiskInfo
disk_of info = record { path = info.mount_path; size = info.allocable; disabled = info.disabled }

abbrev pub reduce_disk : DiskInfo → MountInfo → DiskInfo
reduce_disk d m = record d { size = sub64 d.size m.volume_quota_size }

-- The inner loop: a mount is taken from the first disk whose path it begins with, and a mount with
-- no path from each disk before that.
unfoldable pub charge : MountInfo → List DiskInfo → List DiskInfo
unfolding sub64
charge m [] = []
charge m (d ∷ ds) =
    let rest = charge m ds in
    if starts_with m.host_path d.path
    then reduce_disk d m ∷ ds
    else (if m.host_path == "" then reduce_disk d m else d) ∷ rest

unfoldable pub charge_all : List MountInfo → List DiskInfo → List DiskInfo
unfolding charge
charge_all [] ds = ds
charge_all (m ∷ ms) ds = charge_all ms (charge m ds)

abbrev pub not_negative : DiskInfo → DiskInfo
not_negative d = if ltb_ℤ d.size (pos 0) then record d { size = pos 0 } else d

-- `allocableSize` after the loop.
unfoldable pub sum_sizes : ℤ → List DiskInfo → ℤ
unfolding add64
sum_sizes acc [] = acc
sum_sizes acc (d ∷ ds) = sum_sizes (add64 acc d.size) ds

pub record NodeDisks : Type 0 where
  pub allocable : ℤ
  pub infos : List DiskInfo

unfoldable pub left_on : List NodeDisk → List MountInfo → NodeDisks
unfolding charge_all sum_sizes sort
left_on disks mounts =
    let left = map not_negative (charge_all mounts (map disk_of disks)) in
    record { allocable = sum_sizes (pos 0) left; infos = sort left }

module _ (c : Cluster) (node : Node) where
  unfoldable pub disks_left : List NodeDisk → Result NodeDisks
  unfolding node_mount_info left_on
  disks_left [] = ok (record { allocable = pos 0; infos = [] })
  disks_left (d ∷ ds) =
      node_mount_info c node.name >>= λ info. ok (left_on (d ∷ ds) info.mount_infos)

  unfoldable pub node_disks : Result NodeDisks
  unfolding get_node_disk_info disks_left
  node_disks = get_node_disk_info c node >>= disks_left
