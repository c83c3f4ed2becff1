-- ===== src/Predicate/DiskPressure/Left/Owed.antt =====
-- pkg/algorithm/predicate/hostpathpv_disk_pressure.go: the quotas that `getNodeDiskInfos` takes from each disk,
-- as the sum over the mounts that count for it.
use extender_scheduler.Prelude.{
  ℕ, ◌+◌, ◌-◌, ◌<◌, ◌≤◌, ◌^◌, ◌≡◌, refl, sym, ◌∙◌, ap, String, Bool, true, false, not, ◌&&◌, ◌||◌,
  Bool-cases, inl, inr, List, [], ◌∷◌, arith, map, All, if◌then◌else◌,
}
use extender_scheduler.Prelude.Int.{
  ℤ, pos, negsuc, pos_part, neg_part, ◌-ℤ◌, -ℤ_parts, eq_of_parts, ltb_ℤ, sub64, sub64-eq,
}
use extender_scheduler.Prelude.Text.{◌==◌, starts_with}
use extender_scheduler.Cluster.{NodeDisk, MountInfo, DiskInfo}
use extender_scheduler.Predicate.DiskPressure.Disks.{
  disk_of, reduce_disk, charge, charge_all, not_negative,
}

-- The path of the mount begins with the path of one of these disks.
abbrev pub begins_with_one : String → List String → Bool
begins_with_one path [] = false
begins_with_one path (p ∷ ps) = starts_with path p || begins_with_one path ps

-- A mount counts for a disk if its path begins with the disk's, or is empty, and does not begin with that
-- of an earlier disk.
abbrev pub counts_for : MountInfo → List String → String → Bool
counts_for m earlier p =
    not (begins_with_one m.host_path earlier) && (starts_with m.host_path p || m.host_path == "")

-- The quotas of the mounts that count for a disk.
abbrev pub owed : List MountInfo → List String → String → ℕ
owed [] earlier p = 0
owed (m ∷ ms) earlier p =
    (if counts_for m earlier p then pos_part m.volume_quota_size else 0) + owed ms earlier p

-- The disks with what their mounts leave, but not less than 0.
abbrev pub expected : List MountInfo → List String → List NodeDisk → List DiskInfo
expected ms earlier [] = []
expected ms earlier (d ∷ ds) =
    record {
      path = d.mount_path;
      size = pos (pos_part d.allocable - owed ms earlier d.mount_path);
      disabled = d.disabled;
    }
    ∷ expected ms (d.mount_path ∷ earlier) ds

abbrev pub total_quota : List MountInfo → ℕ
total_quota [] = 0
total_quota (m ∷ ms) = pos_part m.volume_quota_size + total_quota ms

-- The same before negative sizes are replaced.
abbrev pub lowered : List MountInfo → List String → List DiskInfo → List DiskInfo
lowered ms earlier [] = []
lowered ms earlier (d ∷ ds) =
    record d { size = d.size -ℤ pos (owed ms earlier d.path) } ∷ lowered ms (d.path ∷ earlier) ds

-- A size from which quotas of this sum can be taken without a wrap-around.
abbrev pub HasRoom : ℕ → ℤ → Type 0
HasRoom n a = (pos_part a < 2 ^ 63) × (neg_part a + n ≤ 2 ^ 63)

resized : (d : DiskInfo) (a b : ℤ) → a ≡ b → record d { size = a } ≡ record d { size = b }
resized d a b e = ap (λ s. record d { size = s }) e

-ℤ-zero : (a : ℤ) → a ≡ a -ℤ pos 0
-ℤ-zero a = eq_of_parts _ _ (omega (arith, -ℤ_parts a (pos 0)))

-ℤ-add : (a : ℤ) (n m : ℕ) → (a -ℤ pos n) -ℤ pos m ≡ a -ℤ pos (n + m)
-ℤ-add a n m =
    eq_of_parts _ _
      (omega (arith, -ℤ_parts a (pos n), -ℤ_parts (a -ℤ pos n) (pos m), -ℤ_parts a (pos (n + m))))

sub64-quota :
    (a q : ℤ) → neg_part q ≡ 0 → HasRoom (pos_part q) a → sub64 a q ≡ a -ℤ pos (pos_part q)
sub64-quota a (pos n) e h = sub64-eq a (pos n) (ground (arith, -ℤ_parts a (pos n)))
sub64-quota a (negsuc n) e h = absurd (omega arith)

lowered-covered :
    (m : MountInfo) (earlier : List String) (ds : List DiskInfo)
    → begins_with_one m.host_path earlier ≡ true
    → lowered (m ∷ []) earlier ds ≡ ds
lowered-covered m earlier [] h = refl
lowered-covered m earlier (d ∷ ds) h =
    rw (h, sym (-ℤ-zero d.size))
      (ap (λ rest. d ∷ rest) (lowered-covered m (d.path ∷ earlier) ds (ground arith)))

charged :
    (m : MountInfo) (d : DiskInfo)
    → neg_part m.volume_quota_size ≡ 0
    → HasRoom (pos_part m.volume_quota_size) d.size
    → reduce_disk d m ≡ record d { size = d.size -ℤ pos (pos_part m.volume_quota_size + 0) }
charged m d e h =
    resized d _ _
      (sub64-quota d.size m.volume_quota_size e h ∙ ap (λ n. d.size -ℤ pos n) (omega arith))

lowered-charge :
    (m : MountInfo) (earlier : List String) (ds : List DiskInfo)
    → neg_part m.volume_quota_size ≡ 0
    → All (λ d. HasRoom (pos_part m.volume_quota_size) d.size) ds
    → begins_with_one m.host_path earlier ≡ false
    → charge m ds ≡ lowered (m ∷ []) earlier ds
unfolding charge
lowered-charge m earlier [] e h fresh = refl
lowered-charge m earlier (d ∷ ds) e h fresh = elim (Bool-cases (starts_with m.host_path d.path)) [
  | inl s ↦
      rw (s, fresh, lowered-covered m (d.path ∷ earlier) ds (rw s refl))
        (ap (λ x. x ∷ ds) (charged m d e h.0))
  | inr s ↦
      let rest = lowered-charge m (d.path ∷ earlier) ds e h.1 (rw (s, fresh) refl) in
      elim (Bool-cases (m.host_path == "")) [
        | inl n ↦
            rw (s, fresh, n, rest)
              (ap (λ x. x ∷ lowered (m ∷ []) (d.path ∷ earlier) ds) (charged m d e h.0))
        | inr n ↦ rw (s, fresh, n, rest, sym (-ℤ-zero d.size)) refl
      ]
]

taken_twice : (a : ℤ) (n k : ℕ) → (a -ℤ pos (n + 0)) -ℤ pos k ≡ a -ℤ pos (n + k)
taken_twice a n k = -ℤ-add a (n + 0) k ∙ ap (λ s. a -ℤ pos s) (omega arith)

lowered-lowered :
    (m : MountInfo) (ms : List MountInfo) (earlier : List String) (ds : List DiskInfo)
    → lowered ms earlier (lowered (m ∷ []) earlier ds) ≡ lowered (m ∷ ms) earlier ds
lowered-lowered m ms earlier [] = refl
lowered-lowered m ms earlier (d ∷ ds) =
    rw
      (
        lowered-lowered m ms (d.path ∷ earlier) ds,
        taken_twice d.size (if counts_for m earlier d.path then pos_part m.volume_quota_size else 0)
            (owed ms earlier d.path),
      )
      refl

lowered_nothing : (earlier : List String) (ds : List DiskInfo) → ds ≡ lowered [] earlier ds
lowered_nothing earlier [] = refl
lowered_nothing earlier (d ∷ ds) =
    rw (sym (-ℤ-zero d.size)) (ap (λ rest. d ∷ rest) (lowered_nothing (d.path ∷ earlier) ds))

-ℤ-HasRoom :
    (a : ℤ) (q n : ℕ) (b : Bool)
    → HasRoom (q + n) a
    → HasRoom n (a -ℤ pos ((if b then q else 0) + 0))
-ℤ-HasRoom a q n true h = ground (arith, -ℤ_parts a (pos (q + 0)))
-ℤ-HasRoom a q n false h = ground (arith, -ℤ_parts a (pos 0))

lowered-HasRoom :
    (m : MountInfo) (n : ℕ) (earlier : List String) (ds : List DiskInfo)
    → All (λ d. HasRoom (pos_part m.volume_quota_size + n) d.size) ds
    → All (λ d. HasRoom n d.size) (lowered (m ∷ []) earlier ds)
lowered-HasRoom m n earlier [] h = tt
lowered-HasRoom m n earlier (d ∷ ds) h = (
  -ℤ-HasRoom d.size _ _ (counts_for m earlier d.path) h.0,
  lowered-HasRoom m n (d.path ∷ earlier) ds h.1,
)

less-HasRoom :
    (n k : ℕ) (ds : List DiskInfo)
    → n ≤ k
    → All (λ d. HasRoom k d.size) ds
    → All (λ d. HasRoom n d.size) ds
less-HasRoom n k [] le h = tt
less-HasRoom n k (d ∷ ds) le h = ((h.0.0, omega arith), less-HasRoom n k ds le h.1)

pub charge_all-lowered :
    (ms : List MountInfo) (ds : List DiskInfo)
    → All (λ m. neg_part m.volume_quota_size ≡ 0) ms
    → All (λ d. HasRoom (total_quota ms) d.size) ds
    → charge_all ms ds ≡ lowered ms [] ds
unfolding charge_all
charge_all-lowered [] ds e h = lowered_nothing [] ds
charge_all-lowered (m ∷ ms) ds e h =
    ap (charge_all ms) (
      lowered-charge m [] ds e.0 (less-HasRoom (pos_part m.volume_quota_size) _ ds (omega arith) h)
        refl)
    ∙ charge_all-lowered ms (lowered (m ∷ []) [] ds) e.1 (lowered-HasRoom m _ [] ds h)
    ∙ lowered-lowered m ms [] ds

not_negative_lem :
    (d : DiskInfo) (n : ℕ)
    → not_negative (record d { size = d.size -ℤ pos n })
      ≡ record d { size = pos (pos_part d.size - n) }
not_negative_lem d n = elim (Bool-cases (ltb_ℤ (d.size -ℤ pos n) (pos 0))) [
  | inl e ↦ rw e (resized d _ _ (ap pos (ground (arith, -ℤ_parts d.size (pos n)))))
  | inr e ↦ rw e (resized d _ _ (eq_of_parts _ _ (ground (arith, -ℤ_parts d.size (pos n)))))
]

pub not_negative-lowered :
    (ms : List MountInfo) (earlier : List String) (disks : List NodeDisk)
    → map not_negative (lowered ms earlier (map disk_of disks)) ≡ expected ms earlier disks
not_negative-lowered ms earlier [] = refl
not_negative-lowered ms earlier (d ∷ ds) =
    rw
      (
        not_negative_lem (disk_of d) (owed ms earlier d.mount_path),
        not_negative-lowered ms (d.mount_path ∷ earlier) ds,
      )
      refl

pub disk_of-HasRoom :
    (n : ℕ) (disks : List NodeDisk)
    → All (λ d. HasRoom n d.allocable) disks
    → All (λ d. HasRoom n d.size) (map disk_of disks)
disk_of-HasRoom n [] h = tt
disk_of-HasRoom n (d ∷ ds) h = (h.0, disk_of-HasRoom n ds h.1)
