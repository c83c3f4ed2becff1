-- ===== src/Predicate/DiskPressure/Order.antt =====
-- pkg/algorithm/predicate/hostpathpv_disk_pressure.go: what `sort.Sort` by `Less` gives.
use mathlib.Core.List.Perm
use mathlib.Core.List.{Perm}
use extender_scheduler.Prelude.{◌≡◌, true, false, List, [], ◌∷◌, arith, All, inl, inr, Bool-cases}
use extender_scheduler.Prelude.Int.{◌≤ℤ◌}
use extender_scheduler.Cluster.{DiskInfo}
use extender_scheduler.Predicate.DiskPressure.Sort.{less, insert_disk, sort}

-- No entry is larger than one that comes later.
abbrev pub IsSorted : List DiskInfo → Type 0
IsSorted [] = Unit
IsSorted (d ∷ ds) = All (λ e. d.size ≤ℤ e.size) ds × IsSorted ds

module _ {ℓ} (P : DiskInfo → Type ℓ) where
  All-insert_disk : (d : DiskInfo) (ds : List DiskInfo) → P d → All P ds → All P (insert_disk d ds)
  unfolding insert_disk
  All-insert_disk d [] p ps = (p, tt)
  All-insert_disk d (e ∷ es) p ps = elim (Bool-cases (less d e)) [
    | inl first ↦ rw first (p, ps)
    | inr later ↦ rw later (ps.0, All-insert_disk d es p ps.1)
  ]

  pub All-sort : (ds : List DiskInfo) → All P ds → All P (sort ds)
  unfolding sort
  All-sort [] ps = tt
  All-sort (d ∷ ds) ps = All-insert_disk d (sort ds) ps.0 (All-sort ds ps.1)

insert_disk-perm : (d : DiskInfo) (ds : List DiskInfo) → Perm (insert_disk d ds) (d ∷ ds)
unfolding insert_disk
insert_disk-perm d [] = Perm.rfl
insert_disk-perm d (e ∷ es) = elim (Bool-cases (less d e)) [
  | inl first ↦ rw first Perm.rfl
  | inr later ↦ rw later (Perm.trans (Perm.cons e (insert_disk-perm d es)) (Perm.swap d e es))
]

sort-perm : (ds : List DiskInfo) → Perm (sort ds) ds
unfolding sort
sort-perm [] = Perm.rfl
sort-perm (d ∷ ds) = Perm.trans (insert_disk-perm d (sort ds)) (Perm.cons d (sort-perm ds))

le_of_less : (d e : DiskInfo) → less d e ≡ true → d.size ≤ℤ e.size
unfolding less
le_of_less d e h = ground arith

le_of_not_less : (d e : DiskInfo) → less d e ≡ false → e.size ≤ℤ d.size
unfolding less
le_of_not_less d e h = ground arith

All-le :
    (d e : DiskInfo) (es : List DiskInfo)
    → d.size ≤ℤ e.size
    → All (λ x. e.size ≤ℤ x.size) es
    → All (λ x. d.size ≤ℤ x.size) es
All-le d e [] h ps = tt
All-le d e (x ∷ xs) h ps = (omega arith, All-le d e xs h ps.1)

insert_disk-IsSorted :
    (d : DiskInfo) (ds : List DiskInfo) → IsSorted ds → IsSorted (insert_disk d ds)
unfolding insert_disk
insert_disk-IsSorted d [] h = (tt, tt)
insert_disk-IsSorted d (e ∷ es) h = elim (Bool-cases (less d e)) [
  | inl first ↦ rw first ((le_of_less d e first, All-le d e es (le_of_less d e first) h.0), h)
  | inr later ↦ rw later (
    All-insert_disk (λ x. e.size ≤ℤ x.size) d es (le_of_not_less d e later) h.0,
    insert_disk-IsSorted d es h.1,
  )
]

sort-IsSorted : (ds : List DiskInfo) → IsSorted (sort ds)
unfolding sort
sort-IsSorted [] = tt
sort-IsSorted (d ∷ ds) = insert_disk-IsSorted d (sort ds) (sort-IsSorted ds)

-- The sorted list has the same entries, each as often, with no entry larger than a later one.
pub sort_lem : (ds : List DiskInfo) → IsSorted (sort ds) × Perm (sort ds) ds
sort_lem ds = (sort-IsSorted ds, sort-perm ds)
