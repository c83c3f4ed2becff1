-- ===== src/Prioritize/DiskUse.antt =====
-- pkg/algorithm/prioritize/hostpathpv_diskuse.go: nodes with more of their disk quota left score
-- higher.
pub mod Reduced
pub mod Percentages
use extender_scheduler.Prelude.{String, Bool, true, false, ◌||◌, List, [], ◌∷◌, map, if◌then◌else◌}
use extender_scheduler.Prelude.Int.{ℤ, pos, ltb_ℤ, leb_ℤ, add64, sub64}
use extender_scheduler.Cluster.{
  Cluster, Pod, Node, NodeDisk, MountInfo, NodeMounts, Error, Result, ok, err,
}
use extender_scheduler.Algorithm.HostPath.{get_node_disk_info, node_mount_info}
use extender_scheduler.Prioritize.Float.{Float}
use extender_scheduler.Prioritize.Scoring.{HostPriority, Scored, max_score}

unfoldable pub sum_allocable : ℤ → List NodeDisk → ℤ
sum_allocable acc [] = acc
sum_allocable acc (d ∷ ds) = sum_allocable (add64 acc d.allocable) ds

unfoldable pub sum_quota : ℤ → List MountInfo → ℤ
sum_quota acc [] = acc
sum_quota acc (m ∷ ms) = sum_quota (add64 acc m.volume_quota_size) ms

-- The sums, and the error that is added: at one both sums stay 0.
pub record DiskUse : Type 0 where
  pub allocable : ℤ
  pub quota : ℤ
  pub errors : List Error

abbrev unread : Error → DiskUse
unread e = record { allocable = pos 0; quota = pos 0; errors = e ∷ [] }

unfoldable pub disk_use : Result (List NodeDisk) → Result NodeMounts → DiskUse
unfolding sum_allocable sum_quota
disk_use (err e) mounts = unread e
disk_use (ok disks) (err e) = unread e
disk_use (ok disks) (ok info) = record {
  allocable = sum_allocable (pos 0) disks;
  quota = sum_quota (pos 0) info.mount_infos;
  errors = [];
}

module _ (X : Float) where
  -- The percentage of the allocable size that no quota takes.
  unfoldable pub free_percent : ℤ → ℤ → ℤ
  free_percent allocable quota =
      if leb_ℤ allocable (pos 0) || leb_ℤ allocable quota
      then pos 0
      else X.to_int (
          X.div (X.mul (X.of_int (pos 100)) (X.of_int (sub64 allocable quota)))
            (X.of_int allocable))

  -- `mapScoringNode`
  unfoldable pub disk_use_map : Cluster → Node → Scored
  disk_use_map c node =
      let u = disk_use (get_node_disk_info c node) (node_mount_info c node.name) in
      record {
        errors = u.errors;
        priority = record { host = node.name; score = free_percent u.allocable u.quota };
      }

  unfoldable pub disk_use_score : ℤ → ℤ → ℤ
  disk_use_score max score = X.to_int (
      if ltb_ℤ (pos 0) max
      then X.mul (X.of_int (pos 10)) (X.div (X.of_int score) (X.of_int max))
      else X.of_int (pos 0))

  -- `reduceScoringNode`
  unfoldable pub disk_use_reduce : List HostPriority → List HostPriority
  unfolding max_score
  disk_use_reduce ps =
      let max = max_score (pos 0) ps in
      map (λ (p : HostPriority). record p { score = disk_use_score max p.score }) ps
