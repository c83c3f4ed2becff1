-- ===== src/Predicate/DiskPressure/Requests.antt =====
-- pkg/algorithm/predicate/hostpathpv_disk_pressure.go: `getPodHostpathOfNodeDiskInfos`, the sizes of
-- the volumes for which the pod needs a new directory on the node.
use extender_scheduler.Prelude.{
  ℕ, suc, String, Bool, true, false, not, Option, none, some, List, [], ◌∷◌, ◌++◌, if◌then◌else◌,
}
use extender_scheduler.Prelude.Int.{ℤ, pos, add64}
use extender_scheduler.Cluster.{
  Cluster, Pod, Volume, Pv, DiskInfo, Result, ok, ◌>>=◌, or_error, value_or, volume_pv,
}
use extender_scheduler.Algorithm.HostPath.{
  is_common_host_path_pv, get_capacity, has_empty_item_for_node, pod_volume_pv,
}
use extender_scheduler.Predicate.DiskPressure.Sort.{sort}

pub record PodDisks : Type 0 where
  pub total : ℤ
  pub infos : List DiskInfo
  pub has_hostpath : Bool

abbrev pub request_of : ℤ → DiskInfo
request_of capacity = record { path = ""; size = capacity; disabled = false }

-- A hostpath volume is requested unless the node has a free directory of it.
unfoldable pub add_request : ℤ → Bool → PodDisks → PodDisks
unfolding add64
add_request capacity true s = record s { has_hostpath = true }
add_request capacity false s = record {
  total = add64 s.total capacity;
  infos = s.infos ++ request_of capacity ∷ [];
  has_hostpath = true;
}

module _ (c : Cluster) (pod : Pod) (node_name : String) where
  unfoldable pub add_volume_pv : Option Pv → PodDisks → Result PodDisks
  add_volume_pv none s = ok s
  add_volume_pv (some pv) s =
      if not (is_common_host_path_pv (some pv))
      then ok s
      else (has_empty_item_for_node c pv node_name >>= λ free.
          ok (add_request (value_or (pos 0) (get_capacity pv)) free s))

  unfoldable pub request_loop : ℕ → List Volume → PodDisks → Result PodDisks
  request_loop i [] s = ok s
  request_loop i (v ∷ vs) s =
      or_error (volume_pv pod.namespace pod.name i) (pod_volume_pv c pod v) >>= λ pv.
      add_volume_pv pv s >>= λ s'. request_loop (suc i) vs s'

  unfoldable pub pod_disks : Result PodDisks
  pod_disks =
      request_loop 0 pod.volumes (record { total = pos 0; infos = []; has_hostpath = false })
      >>= λ s. ok (record s { infos = sort s.infos })
