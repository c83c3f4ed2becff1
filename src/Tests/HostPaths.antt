-- ===== src/Tests/HostPaths.antt =====
-- Runs of the queries about hostpath volumes, and their theorems at concrete data.
use extender_scheduler.Prelude.{
  ◌≡◌, ◌≢◌, ◌↔◌, refl, String, true, false, some, List, [], ◌∷◌, map, All, arith,
}
use extender_scheduler.Prelude.Int.{pos, ◌≤ℤ◌, ◌<ℤ◌}
use extender_scheduler.Prelude.Dict.{has_key}
use extender_scheduler.Prelude.Keys.{Distinct}
use extender_scheduler.Prelude.Text.Paths.{clean}
use extender_scheduler.Cluster.{
  Error, ok, err, Pod, Pv, ClaimRef, MountInfo, NodeMounts, capacity_ann, capacity_too_small,
  not_hostpath,
}
use extender_scheduler.Algorithm.PodInfo.{filter_by_node_and_pvc}
use extender_scheduler.Algorithm.PodInfo.Selected.{Among, IsUser, filter_by_node_and_pvc_lem}
use extender_scheduler.Algorithm.HostPath.{
  is_common_host_path_pv, annotation, get_capacity, set_capacity, pod_key, node_mount_info,
}
use extender_scheduler.Algorithm.HostPath.CapacityLaws.{get_capacity-set_capacity}
use extender_scheduler.Algorithm.HostPath.Users.{used_pod_map_lem}
use extender_scheduler.Algorithm.HostPath.Mounts.{IsRecorded, node_mount_info_lem}
use extender_scheduler.Algorithm.HostPath.Mounts.Sources.{HasSource, node_mount_info_sources}
use extender_scheduler.Algorithm.HostPath.Mounts.Gathered.{placed, Covers}
use extender_scheduler.Algorithm.HostPath.FreeItem.{has_empty_item_for_node_lem}
use extender_scheduler.Algorithm.HostPath.{has_empty_item_for_node}
use extender_scheduler.Prelude.{ltb}
use extender_scheduler.Tests.Samples.{
  user, data_mounts, directory, other_directory, data_pv, cluster, program,
}

abbrev on_n1 : NodeMounts
on_n1 = record { node_name = "n1"; mount_infos = directory ∷ other_directory ∷ [] }

mounts_run : node_mount_info cluster "n1" ≡ ok on_n1
unfolding program
mounts_run = refl

clean_run : clean "/mnt//disk1/./x/../a/" ≡ "/mnt/disk1/a"
unfolding program
clean_run = refl

node_mount_info_lem_example :
    (pvs : List Pv) × (cluster.list_pvs ≡ ok pvs)
    × (on_n1.node_name ≡ "n1")
    × Distinct (placed on_n1.mount_infos)
    × ((pv : Pv) (m : MountInfo)
        → Among pv pvs
        → IsRecorded cluster "n1" pv m
        → Covers (clean m.host_path) on_n1.mount_infos)
unfolding program
node_mount_info_lem_example = node_mount_info_lem cluster "n1" on_n1 refl

node_mount_info_sources_example :
    (pvs : List Pv) × (cluster.list_pvs ≡ ok pvs)
    × All (HasSource cluster "n1" pvs) on_n1.mount_infos
unfolding program
node_mount_info_sources_example = node_mount_info_sources cluster "n1" on_n1 refl

used_pod_map_lem_example :
    (ref : ClaimRef) × (data_pv.claim_ref ≡ some ref)
    × (pods : List Pod) × (filter_by_node_and_pvc cluster "n1" ref.namespace ref.name false
        ≡ ok pods)
    × Distinct ("shop:old" ∷ [])
    × ((k : String) → (has_key k ("shop:old" ∷ []) ≡ true) ↔ Among k (map (pod_key cluster) pods))
unfolding program
used_pod_map_lem_example = used_pod_map_lem cluster data_pv "n1" ("shop:old" ∷ []) refl

filter_by_node_and_pvc_lem_example :
    ((e : Error)
      → cluster.list_pods ≡ err e
      → filter_by_node_and_pvc cluster "n1" "shop" "data" false ≡ err e)
    × ((pods : List Pod)
        → cluster.list_pods ≡ ok pods
        → (found : List Pod) × (filter_by_node_and_pvc cluster "n1" "shop" "data" false ≡ ok found)
          × ((p : Pod) → Among p found ↔ (Among p pods × IsUser "n1" "shop" "data" false p)))
filter_by_node_and_pvc_lem_example = filter_by_node_and_pvc_lem cluster "n1" "shop" "data" false

get_capacity-set_capacity_example :
    (is_common_host_path_pv (some data_pv) ≡ true
      → pos 10 ≤ℤ pos 70
      → (pv' : Pv) × (set_capacity data_pv (pos 70) ≡ ok pv')
        × (get_capacity pv' ≡ ok (pos 70))
        × ((key : String)
            → key ≢ capacity_ann
            → annotation pv'.annotations key ≡ annotation data_pv.annotations key))
    × ((pv' : Pv)
        → set_capacity data_pv (pos 70) ≡ ok pv'
        → (is_common_host_path_pv (some data_pv) ≡ true) × (pos 10 ≤ℤ pos 70))
    × (pos 70 <ℤ pos 10
        → set_capacity data_pv (pos 70)
          ≡ err (capacity_too_small "set pv size should not less than 10M"))
    × (pos 10 ≤ℤ pos 70
        → is_common_host_path_pv (some data_pv) ≡ false
        → set_capacity data_pv (pos 70) ≡ err (not_hostpath data_pv.name))
get_capacity-set_capacity_example = get_capacity-set_capacity data_pv (pos 70) (omega arith)

has_empty_item_for_node_lem_example : has_empty_item_for_node cluster data_pv "n1" ≡ ok (ltb 1 2)
unfolding program
has_empty_item_for_node_lem_example =
    ((has_empty_item_for_node_lem cluster data_pv "n1" data_mounts refl).3 refl refl refl).1
      (record { namespace = "shop"; name = "data" })
      (record { node_name = "n1"; mount_infos = directory ∷ other_directory ∷ [] })
      (user "old" "n1" ∷ []) refl refl
      (record { before = []; after = []; split = refl; others = tt; named = refl })
