-- ===== src/Predicate/DiskPressure.antt =====
-- pkg/algorithm/predicate/hostpathpv_disk_pressure.go: whether the quota disks of a node have room
-- for the hostpath volumes of a pod.
mod Sort
mod Requests
mod Disks
mod Greedy
pub mod Packing
pub mod Order
pub mod Left
pub mod Completeness
pub mod Decision
pub mod Requested
unfoldable pub use Sort.*
unfoldable pub use Requests.*
unfoldable pub use Disks.*
unfoldable pub use Greedy.*
use extender_scheduler.Prelude.{
  String, Bool, true, false, not, ◌&&◌, ◌||◌, List, [], ◌∷◌, if◌then◌else◌,
}
use extender_scheduler.Prelude.Int.{ℤ, pos, ltb_ℤ, leb_ℤ}
use extender_scheduler.Cluster.{
  Cluster, Pod, Node, DiskInfo, Result, ok, err, ◌>>=◌, or_error, predicate_pod_disks,
  predicate_node_disks, predicate_too_large, predicate_no_match,
}

abbrev pub disk_pressure_name : String
disk_pressure_name = "hostpathpvdiskpressure"

abbrev pub is_empty : List DiskInfo → Bool
is_empty [] = true
is_empty (_ ∷ _) = false

-- `podRequestSize == 0`
abbrev pub is_zero : ℤ → Bool
is_zero n = leb_ℤ n (pos 0) && leb_ℤ (pos 0) n

-- The comparisons of the request with the disks of the node.
unfoldable pub compare_disks : String → ℤ → List DiskInfo → NodeDisks → Result Bool
unfolding can_request_match
compare_disks node_name total requests disks =
    if ltb_ℤ disks.allocable total
    then (if leb_ℤ disks.allocable (pos 0)
        then ok false
        else err (predicate_too_large disk_pressure_name node_name total disks.allocable))
    else let (matched, left) = can_request_match requests disks.infos in
      if not matched
      then err (predicate_no_match disk_pressure_name node_name requests left)
      else ok true

-- `PodMatchNode`
unfoldable pub disk_pressure_match : Cluster → Pod → Node → Result Bool
unfolding pod_disks node_disks compare_disks
disk_pressure_match c pod node =
    or_error (predicate_pod_disks disk_pressure_name node.name) (pod_disks c pod node.name)
    >>= λ request.
        if not request.has_hostpath
        then ok true
        else if is_zero request.total || is_empty request.infos
        then ok true
        else (or_error (predicate_node_disks disk_pressure_name node.name) (node_disks c node)
            >>= compare_disks node.name request.total request.infos)
