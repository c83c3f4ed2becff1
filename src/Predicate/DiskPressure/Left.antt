-- ===== src/Predicate/DiskPressure/Left.antt =====
-- pkg/algorithm/predicate/hostpathpv_disk_pressure.go: what `getNodeDiskInfos` reports of the disks.
pub mod Owed
use mathlib.Core.List.{Perm}
use native.Mathlib.Nat.{add-zero}
use text.Mathlib.TextLemmas.{append_assoc}
use text.Mathlib.TextPositions.{starts_with-append}
use extender_scheduler.Prelude.{
  ℕ, ◌+◌, ◌-◌, ◌<◌, ◌≤◌, ◌^◌, ◌≡◌, refl, sym, subst, ◌∙◌, ap, String, ◌<>◌, Bool, true, false, not,
  ◌&&◌, ◌||◌, Bool-cases, inl, inr, List, [], ◌∷◌, arith, map, All, if◌then◌else◌,
}
use extender_scheduler.Prelude.Int.{
  ℤ, pos, negsuc, pos_part, neg_part, ◌-ℤ◌, -ℤ_parts, eq_of_parts, int_laws, ltb_ℤ, IsInt64, sub64,
  sub64-eq, add64_not_negative, sub64-IsInt64,
}
use extender_scheduler.Prelude.Text.{◌==◌, starts_with}
use extender_scheduler.Cluster.{NodeDisk, MountInfo, DiskInfo}
use extender_scheduler.Predicate.DiskPressure.Order.{IsSorted, All-sort, sort_lem}
use extender_scheduler.Predicate.DiskPressure.Disks.{
  disk_of, reduce_disk, charge, charge_all, not_negative, sum_sizes, left_on,
}
use extender_scheduler.Predicate.DiskPressure.Packing.{NotNegative, HasInt64}
use extender_scheduler.Predicate.DiskPressure.Left.Owed.{
  expected, total_quota, lowered, HasRoom, charge_all-lowered, not_negative-lowered,
  disk_of-HasRoom,
}

charge-HasInt64 :
    (m : MountInfo) (ds : List DiskInfo) → All HasInt64 ds → All HasInt64 (charge m ds)
unfolding charge
charge-HasInt64 m [] h = tt
charge-HasInt64 m (d ∷ ds) h =
    ground (arith, charge-HasInt64 m ds h.1, sub64-IsInt64 d.size m.volume_quota_size)

charge_all-HasInt64 :
    (ms : List MountInfo) (ds : List DiskInfo) → All HasInt64 ds → All HasInt64 (charge_all ms ds)
unfolding charge_all
charge_all-HasInt64 [] ds h = h
charge_all-HasInt64 (m ∷ ms) ds h = charge_all-HasInt64 ms (charge m ds) (charge-HasInt64 m ds h)

disk_of-HasInt64 :
    (disks : List NodeDisk)
    → All (λ d. IsInt64 d.allocable) disks
    → All HasInt64 (map disk_of disks)
disk_of-HasInt64 [] h = tt
disk_of-HasInt64 (d ∷ ds) h = (h.0, disk_of-HasInt64 ds h.1)

not_negative-HasInt64 : (ds : List DiskInfo) → All HasInt64 ds → All HasInt64 (map not_negative ds)
not_negative-HasInt64 [] h = tt
not_negative-HasInt64 (d ∷ ds) h = ground (arith, not_negative-HasInt64 ds h.1)

not_negative-NotNegative : (ds : List DiskInfo) → All NotNegative (map not_negative ds)
not_negative-NotNegative [] = tt
not_negative-NotNegative (d ∷ ds) = ground (arith, not_negative-NotNegative ds)

pub left_on-HasInt64 :
    (disks : List NodeDisk) (ms : List MountInfo)
    → All (λ d. IsInt64 d.allocable) disks
    → All HasInt64 (left_on disks ms).infos
unfolding left_on
left_on-HasInt64 disks ms h =
    All-sort HasInt64 _
      (not_negative-HasInt64 _ (charge_all-HasInt64 ms _ (disk_of-HasInt64 disks h)))

-- What the sizes add up to, as numbers.
abbrev pub total_size : List DiskInfo → ℕ
total_size [] = 0
total_size (d ∷ ds) = pos_part d.size + total_size ds

sum_sizes_lem :
    (n : ℕ) (ds : List DiskInfo)
    → All NotNegative ds
    → n + total_size ds < 2 ^ 63
    → sum_sizes (pos n) ds ≡ pos (n + total_size ds)
unfolding sum_sizes
sum_sizes_lem n [] nn h = rw add-zero
sum_sizes_lem n (d ∷ ds) nn h =
    rw (add64_not_negative n d.size nn.0 (omega arith))
      (sum_sizes_lem (n + pos_part d.size) ds nn.1 (omega arith) ∙ ap pos (omega arith))

left_on_expected :
    (disks : List NodeDisk) (ms : List MountInfo)
    → let left = map not_negative (charge_all ms (map disk_of disks)) in
      let r = left_on disks ms in
      IsSorted r.infos
      × Perm r.infos left
      × All NotNegative r.infos
      × (total_size left < 2 ^ 63 → r.allocable ≡ pos (total_size left))
unfolding left_on
left_on_expected disks ms =
    let nn = not_negative-NotNegative (charge_all ms (map disk_of disks)) in
    let sorted = sort_lem (map not_negative (charge_all ms (map disk_of disks))) in
    (
      sorted.0,
      sorted.1,
      All-sort NotNegative _ nn,
      λ h. sum_sizes_lem 0 _ nn (omega arith) ∙ ap pos (omega arith),
    )

-- If no quota is negative, and the sum of all quotas can be taken from each disk without a wrap-around of
-- an `int64`, then the reported disks are the node's quota disks, in ascending order of size, each with
-- what is left of its allocable size when the quotas of its mounts are taken from it, and 0 if they are
-- more. The mounts of a disk are those whose path begins with the disk's path, or is empty, and does not
-- begin with the path of an earlier disk. None of the sizes is negative, and if they add up to less than
-- 2^63, the reported sum is their sum.
pub left_on_lem :
    (disks : List NodeDisk) (ms : List MountInfo)
    → All (λ m. neg_part m.volume_quota_size ≡ 0) ms
    → All (λ d. HasRoom (total_quota ms) d.allocable) disks
    → let r = left_on disks ms in
      IsSorted r.infos
      × Perm r.infos (expected ms [] disks)
      × All NotNegative r.infos
      × (total_size (expected ms [] disks) < 2 ^ 63
          → r.allocable ≡ pos (total_size (expected ms [] disks)))
left_on_lem disks ms quotas room =
    let same =
      ap (map not_negative) (
        charge_all-lowered ms (map disk_of disks) quotas
          (disk_of-HasRoom (total_quota ms) disks room))
      ∙ not_negative-lowered ms [] disks in
    subst
      (λ left.
        let r = left_on disks ms in
        IsSorted r.infos
        × Perm r.infos left
        × All NotNegative r.infos
        × (total_size left < 2 ^ 63 → r.allocable ≡ pos (total_size left)))
      same (left_on_expected disks ms)

abbrev pub paths_of : List DiskInfo → List String
paths_of = map (λ d. d.path)

charge-paths : (m : MountInfo) (ds : List DiskInfo) → paths_of (charge m ds) ≡ paths_of ds
unfolding charge
charge-paths m [] = refl
charge-paths m (d ∷ ds) = ground (arith, charge-paths m ds)

-- Directories are told apart by a text prefix with no separator. A mount that lies on the disk whose
-- path is `p <> t` is taken from an earlier disk with the path `p` (/mnt/disk1 before /mnt/disk10),
-- and its own disk is left as it was.
pub charge_shared_prefix :
    (p t u : String) (size : ℤ) (a b : DiskInfo) (ds : List DiskInfo)
    → a.path ≡ p
    → b.path ≡ p <> t
    → let m : MountInfo = record { host_path = (p <> t) <> u; volume_quota_size = size } in
      (starts_with m.host_path b.path ≡ true)
      × (charge m (a ∷ b ∷ ds) ≡ record a { size = sub64 a.size size } ∷ b ∷ ds)
unfolding charge
charge_shared_prefix p t u size a b ds pa pb =
    (rw pb (starts_with-append (p <> t) u), rw (pa, append_assoc, starts_with-append p (t <> u)))
