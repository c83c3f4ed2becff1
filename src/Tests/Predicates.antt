-- ===== src/Tests/Predicates.antt =====
-- Runs of the predicates, and their theorems at concrete data.
use extender_scheduler.Prelude.{
  ℕ, ◌≡◌, ◌≢◌, ◌≤◌, refl, subst, String, Bool, true, false, some, List, [], ◌∷◌, All, arith, map,
  Bool-cases, inl, inr, ◌<◌, ◌^◌, ◌<>◌, ◌↔◌,
}
use extender_scheduler.Prelude.Int.{ℤ, pos, sub64, ◌≤ℤ◌}
use mathlib.Core.List.{Perm}
use extender_scheduler.Prelude.Text.{◌==◌, eq_iff, starts_with}
use extender_scheduler.Cluster.{Result, ok, MountInfo, DiskInfo}
use extender_scheduler.Algorithm.HostPath.{
  has_empty_item_for_node, is_shared_host_path_pv, is_keep_host_path_pv,
}
use extender_scheduler.Predicate.DiskPressure.{
  sum_sizes, PodDisks, pod_disks, NodeDisks, node_disks, can_request_match, disk_pressure_match,
  request_of, left_on, charge,
}
use extender_scheduler.Predicate.DiskPressure.Packing.{
  IsPacking, NotNegative, can_request_match-IsPacking,
}
use extender_scheduler.Predicate.DiskPressure.Decision.{disk_pressure_match-IsPacking}
use extender_scheduler.Predicate.DiskPressure.Order.{IsSorted}
use extender_scheduler.Predicate.DiskPressure.Completeness.{
  can_request_match_one_disk, can_request_match_misses-IsPacking, three_requests,
  two_disks as disks_of,
}
use extender_scheduler.Predicate.DiskPressure.Left.Owed.{expected}
use extender_scheduler.Predicate.DiskPressure.Left.{total_size, left_on_lem, charge_shared_prefix}
use extender_scheduler.Predicate.Affinity.{pod_pv_match_node, affinity_match}
use extender_scheduler.Predicate.Affinity.Policy.{allowed, pod_pv_match_node-allowed}
use extender_scheduler.Predicate.Affinity.Volumes.{IsDecidedBy, affinity_match_lem}
use extender_scheduler.Predicate.DiskPressure.Requested.{Requests, pod_disks_lem}
use extender_scheduler.Tests.Samples.{
  directory, web, data_pv, data_mounts, two_disks, node, cluster, cluster-DecodesInt64, program,
}

abbrev web_request : PodDisks
web_request = record { total = pos 50; infos = request_of (pos 50) ∷ []; has_hostpath = true }

-- The pod needs a directory of 50 on the second node.
request_run : pod_disks cluster web "n2" ≡ ok web_request
unfolding program
request_run = refl

accepted_run : disk_pressure_match cluster web (node "n2") ≡ ok true
unfolding program
accepted_run = refl

disk_pressure_match-IsPacking_example :
    (left : NodeDisks) × (node_disks cluster (node "n2") ≡ ok left)
    × (web_request.total ≤ℤ left.allocable)
    × ((ps : List ℕ) × IsPacking ps web_request.infos left.infos)
unfolding program
disk_pressure_match-IsPacking_example =
    disk_pressure_match-IsPacking cluster web (node "n2") web_request cluster-DecodesInt64 refl
      (refl, tt) refl (λ e. cc) (λ e. cc) refl

abbrev some_requests : List DiskInfo
some_requests = request_of (pos 10) ∷ request_of (pos 30) ∷ []

abbrev some_disks : List DiskInfo
some_disks = request_of (pos 15) ∷ request_of (pos 20) ∷ request_of (pos 40) ∷ []

can_request_match-IsPacking_example : (ps : List ℕ) × IsPacking ps some_requests some_disks
unfolding program
can_request_match-IsPacking_example =
    can_request_match-IsPacking some_requests some_disks (refl, (refl, tt)) (omega arith) refl

can_request_match_one_disk_example :
    ((can_request_match some_requests (request_of (pos 40) ∷ [])).0 ≡ true
      → total_size some_requests ≤ 40)
    × (total_size some_requests ≤ 40
        → (can_request_match some_requests (request_of (pos 40) ∷ [])).0 ≡ true)
can_request_match_one_disk_example =
    can_request_match_one_disk some_requests (request_of (pos 40)) (refl, (refl, tt)) refl
      (omega arith)

can_request_match_misses-IsPacking_example :
    ((can_request_match (three_requests 5) (disks_of 5)).0 ≡ false)
    × IsPacking (1 ∷ 1 ∷ 0 ∷ []) (three_requests 5) (disks_of 5)
can_request_match_misses-IsPacking_example =
    can_request_match_misses-IsPacking 5 (omega arith) (omega arith)

-- One of the two recorded directories is not in use.
data_free : (n : String) → has_empty_item_for_node cluster data_pv n ≡ ok ("n1" == n)
unfolding program
data_free n = elim (Bool-cases ("n1" == n)) [
  | inl e ↦
      subst (λ m. has_empty_item_for_node cluster data_pv m ≡ ok ("n1" == m)) ((eq_iff "n1" n).0 e)
        refl
  | inr e ↦ rw e refl
]

pod_pv_match_node-allowed_example :
    pod_pv_match_node cluster "n2" web (record { claim_name = some "data" })
    ≡ ok (
        allowed
          (is_shared_host_path_pv data_pv)
          (is_keep_host_path_pv data_pv)
          data_mounts
          ("n1" ∷ [])
          (λ n. "n1" == n)
          "n2")
unfolding program
pod_pv_match_node-allowed_example =
    pod_pv_match_node-allowed cluster "n2" web (record { claim_name = some "data" }) data_pv
      data_mounts ("n1" ∷ []) (λ n. "n1" == n) refl refl refl data_free

allowed_run :
    (affinity_match cluster web (node "n1") ≡ ok true)
    × (affinity_match cluster web (node "n2") ≡ ok false)
unfolding program
allowed_run = (refl, refl)

affinity_match_lem_example :
    ((affinity_match cluster web (node "n2") ≡ ok true)
      ↔ All (λ v. pod_pv_match_node cluster "n2" web v ≡ ok true) web.volumes)
    × ((r : Result Bool)
        → r ≢ ok true
        → affinity_match cluster web (node "n2") ≡ r
        → IsDecidedBy (pod_pv_match_node cluster "n2" web) web.volumes r)
affinity_match_lem_example = affinity_match_lem cluster web (node "n2")

left_on_lem_example :
    let r = left_on two_disks (directory ∷ []) in
    IsSorted r.infos
    × Perm r.infos (expected (directory ∷ []) [] two_disks)
    × All NotNegative r.infos
    × (total_size (expected (directory ∷ []) [] two_disks) < 2 ^ 63
        → r.allocable ≡ pos (total_size (expected (directory ∷ []) [] two_disks)))
left_on_lem_example = left_on_lem two_disks (directory ∷ []) (refl, tt) (omega arith)

abbrev disk_at : String → DiskInfo
disk_at path = record { path = path; size = pos 100; disabled = false }

charge_shared_prefix_example :
    let m : MountInfo = record {
      host_path = ("/mnt/disk1" <> "0") <> "/a";
      volume_quota_size = pos 40;
    } in
    (starts_with m.host_path "/mnt/disk10" ≡ true)
    × (charge m (disk_at "/mnt/disk1" ∷ disk_at "/mnt/disk10" ∷ [])
        ≡ record (disk_at "/mnt/disk1") { size = sub64 (pos 100) (pos 40) }
          ∷ disk_at "/mnt/disk10"
          ∷ [])
charge_shared_prefix_example =
    charge_shared_prefix "/mnt/disk1" "0" "/a" (pos 40) (disk_at "/mnt/disk1")
      (disk_at "/mnt/disk10") [] refl refl

pod_disks_lem_example :
    (sizes : List ℤ) × (has : Bool) × Requests cluster web "n2" web.volumes sizes has
    × Perm web_request.infos (map request_of sizes)
    × IsSorted web_request.infos
    × (web_request.total ≡ sum_sizes (pos 0) (map request_of sizes))
    × (web_request.has_hostpath ≡ has)
unfolding program
pod_disks_lem_example = pod_disks_lem cluster web "n2" web_request refl
