-- ===== src/Predicate/DiskPressure/Packing.antt =====
-- pkg/algorithm/predicate/hostpathpv_disk_pressure.go: what `canRequestMatch` promises. A packing
-- names a disk for each request, and no disk is asked for more than it has.
use extender_scheduler.Prelude.{
  ℕ, zero, suc, ◌+◌, ◌≤◌, ◌<◌, ◌≡◌, refl, true, some, List, [], ◌∷◌, map, arith, ◌∙◌, ap,
  if◌then◌else◌, length, get_elem?, All, inl, inr, Bool-cases,
}
use extender_scheduler.Prelude.Int.{
  ℤ, pos_part, neg_part, leb_ℤ, IsInt64, sub64, sub64-IsInt64, sub64-eq, -ℤ_parts,
}
use extender_scheduler.Prelude.Text.{eqb}
use extender_scheduler.Cluster.{DiskInfo}
use extender_scheduler.Predicate.DiskPressure.Greedy.{can_request_match}

-- What the requests assigned to disk `j` add up to.
abbrev pub load : ℕ → List ℕ → List DiskInfo → ℕ
load j [] rs = 0
load j (a ∷ ps) [] = 0
load j (a ∷ ps) (r ∷ rs) = (if eqb a j then pos_part r.size else 0) + load j ps rs

pub record IsPacking (ps : List ℕ) (rs ds : List DiskInfo) : Type 0 where
  pub counted : length ps ≡ length rs
  pub placed : All (λ a. a < length ds) ps
  pub fits : (j : ℕ) (d : DiskInfo) → get_elem? ds j ≡ some d → load j ps rs ≤ pos_part d.size

abbrev pub NotNegative : DiskInfo → Type 0
NotNegative d = neg_part d.size ≡ 0

abbrev pub HasInt64 : DiskInfo → Type 0
HasInt64 d = IsInt64 d.size

load_shift :
    (j : ℕ) (ps : List ℕ) (rs : List DiskInfo) → load (suc j) (map suc ps) rs ≡ load j ps rs
load_shift j [] rs = refl
load_shift j (a ∷ ps) [] = refl
load_shift j (a ∷ ps) (r ∷ rs) = ground (arith, load_shift j ps rs)

load_zero : (ps : List ℕ) (rs : List DiskInfo) → load 0 (map suc ps) rs ≡ 0
load_zero [] rs = refl
load_zero (a ∷ ps) [] = refl
load_zero (a ∷ ps) (r ∷ rs) = ground (arith, load_zero ps rs)

length-map-suc : (ps : List ℕ) → length (map suc ps) ≡ length ps
length-map-suc [] = refl
length-map-suc (a ∷ ps) = ap suc (length-map-suc ps)

placed_shift : (n : ℕ) (ps : List ℕ) → All (λ a. a < n) ps → All (λ a. a < suc n) (map suc ps)
placed_shift n [] h = tt
placed_shift n (a ∷ ps) h = (omega arith, placed_shift n ps h.1)

-- A packing of the later disks is one of all of them.
pass_over :
    (ps : List ℕ) (rs ds : List DiskInfo) (d : DiskInfo)
    → IsPacking ps rs ds
    → IsPacking (map suc ps) rs (d ∷ ds)
pass_over ps rs ds d p = record {
  counted = length-map-suc ps ∙ p.counted;
  placed = placed_shift (length ds) ps p.placed;
  fits = fits;
}
  where
    fits :
        (j : ℕ) (e : DiskInfo)
        → get_elem? (d ∷ ds) j ≡ some e
        → load j (map suc ps) rs ≤ pos_part e.size
    fits zero e h = rw load_zero (omega arith)
    fits (suc j) e h = rw load_shift (p.fits j e h)

left_parts :
    (d r : ℤ)
    → IsInt64 d
    → neg_part r ≡ 0
    → leb_ℤ r d ≡ true
    → pos_part r + pos_part (sub64 d r) ≤ pos_part d
left_parts d r i n h =
    let exact = sub64-eq d r (ground (arith, -ℤ_parts d r)) in
    rw exact (ground (arith, -ℤ_parts d r))

-- A request on the first disk, with the others packed into what it leaves.
take_from :
    (ps : List ℕ) (r d : DiskInfo) (rs ds : List DiskInfo)
    → pos_part r.size + pos_part (sub64 d.size r.size) ≤ pos_part d.size
    → IsPacking ps rs (record d { size = sub64 d.size r.size } ∷ ds)
    → IsPacking (0 ∷ ps) (r ∷ rs) (d ∷ ds)
take_from ps r d rs ds room p = record {
  counted = ap suc p.counted;
  placed = (omega arith, p.placed);
  fits = fits;
}
  where
    fits :
        (j : ℕ) (e : DiskInfo)
        → get_elem? (d ∷ ds) j ≡ some e
        → load j (0 ∷ ps) (r ∷ rs) ≤ pos_part e.size
    fits zero e h = ground (arith, p.fits 0 (record d { size = sub64 d.size r.size }) refl)
    fits (suc j) e h = ground (arith, p.fits (suc j) e h)

-- If the requests are not negative and the disks hold `int64` values, and `canRequestMatch` says
-- yes, then each request can be given to one of the disks so that, on every disk, the requests
-- given to it add up to at most the disk's size.
pub can_request_match-IsPacking :
    (rs ds : List DiskInfo)
    → All NotNegative rs
    → All HasInt64 ds
    → (can_request_match rs ds).0 ≡ true
    → (ps : List ℕ) × IsPacking ps rs ds
unfolding can_request_match
can_request_match-IsPacking [] ds n i h =
    ([], record { counted = refl; placed = tt; fits = λ j d e. omega arith })
can_request_match-IsPacking (r ∷ rs) [] n i h = cc
can_request_match-IsPacking (r ∷ rs) (d ∷ ds) n i h = elim (Bool-cases (leb_ℤ r.size d.size)) [
  | inl small ↦
      let (ps, p) =
        can_request_match-IsPacking rs (record d { size = sub64 d.size r.size } ∷ ds) n.1
          (sub64-IsInt64 d.size r.size, i.1) (rw (small, can_request_match) at h) in
      (0 ∷ ps, take_from ps r d rs ds (left_parts d.size r.size i.0 n.0 small) p)
  | inr large ↦
      let (ps, p) =
        can_request_match-IsPacking (r ∷ rs) ds n i.1 (rw (large, can_request_match) at h) in
      (map suc ps, pass_over ps (r ∷ rs) ds d p)
]
