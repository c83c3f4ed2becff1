-- ===== src/Predicate/DiskPressure/Completeness.antt =====
-- pkg/algorithm/predicate/hostpathpv_disk_pressure.go: which packings `canRequestMatch` finds.
use extender_scheduler.Prelude.{
  ℕ, zero, suc, ◌-◌, ◌*◌, ◌^◌, ◌≤◌, ◌<◌, ◌≡◌, refl, true, false, some, get_elem?, List, [], ◌∷◌,
  arith, All, ◌∙◌, inl, inr, Bool-cases,
}
use extender_scheduler.Prelude.Int.{pos, pos_part, leb_ℤ, sub64, sub64-pos, sub64_not_negative}
use extender_scheduler.Cluster.{DiskInfo}
use extender_scheduler.Predicate.DiskPressure.Greedy.{can_request_match}
use extender_scheduler.Predicate.DiskPressure.Packing.{load, IsPacking, NotNegative, HasInt64}
use extender_scheduler.Predicate.DiskPressure.Left.{total_size}

-- On one disk `canRequestMatch` says yes exactly when the requests, none of them negative, add up
-- to at most the size of the disk, which is an `int64` that is not negative.
pub can_request_match_one_disk :
    (rs : List DiskInfo) (d : DiskInfo)
    → All NotNegative rs
    → NotNegative d
    → HasInt64 d
    → ((can_request_match rs (d ∷ [])).0 ≡ true → total_size rs ≤ pos_part d.size)
      × (total_size rs ≤ pos_part d.size → (can_request_match rs (d ∷ [])).0 ≡ true)
unfolding can_request_match
can_request_match_one_disk [] d n nd i = (λ _. omega arith, λ _. refl)
can_request_match_one_disk (r ∷ rs) d n nd i = elim (Bool-cases (leb_ℤ r.size d.size)) [
  | inl small ↦
      let left = sub64_not_negative d.size r.size nd n.0 i (ground arith) in
      let rest =
        can_request_match_one_disk rs (record d { size = sub64 d.size r.size }) n.1 left.0 left.1 in
      rw (small, can_request_match)
        (λ h. omega (arith, rest.0 h, left.2), λ h. rest.1 (omega (arith, left.2)))
  | inr large ↦ rw (large, can_request_match) (λ h. cc, λ h. absurd (ground arith))
]

abbrev pub disk_of_size : ℕ → DiskInfo
disk_of_size n = record { path = ""; size = pos n; disabled = false }

abbrev pub three_requests : ℕ → List DiskInfo
three_requests k = disk_of_size (2 * k) ∷ disk_of_size (2 * k) ∷ disk_of_size (3 * k) ∷ []

abbrev pub two_disks : ℕ → List DiskInfo
two_disks k = disk_of_size (3 * k) ∷ disk_of_size (4 * k) ∷ []

take :
    (a b : ℕ) (rs ds : List DiskInfo)
    → a ≤ b
    → b < 2 ^ 63
    → (can_request_match (disk_of_size a ∷ rs) (disk_of_size b ∷ ds)).0
      ≡ (can_request_match rs (disk_of_size (b - a) ∷ ds)).0
unfolding can_request_match
take a b rs ds h i =
    let fits : leb_ℤ (pos a) (pos b) ≡ true = ground arith in
    rw (fits, can_request_match, sub64-pos b a i h)

pass :
    (a b : ℕ) (rs ds : List DiskInfo)
    → b < a
    → (can_request_match (disk_of_size a ∷ rs) (disk_of_size b ∷ ds)).0
      ≡ (can_request_match (disk_of_size a ∷ rs) ds).0
unfolding can_request_match
pass a b rs ds h =
    let larger : leb_ℤ (pos a) (pos b) ≡ false = ground arith in rw (larger, can_request_match)

no_disk : (r : DiskInfo) (rs : List DiskInfo) → (can_request_match (r ∷ rs) []).0 ≡ false
unfolding can_request_match
no_disk r rs = refl

misses_fits :
    (k j : ℕ) (d : DiskInfo)
    → get_elem? (two_disks k) j ≡ some d
    → load j (1 ∷ 1 ∷ 0 ∷ []) (three_requests k) ≤ pos_part d.size
misses_fits k zero d e = ground arith
misses_fits k (suc zero) d e = ground arith
misses_fits k (suc (suc j)) d e = cc

-- The greedy choice misses packings: requests of 2k, 2k and 3k fit on disks of 3k and 4k, the first
-- two on the larger one, and `canRequestMatch` says no, for every k above 0 with 4k below 2^63.
pub can_request_match_misses-IsPacking :
    (k : ℕ)
    → 0 < k
    → 4 * k < 2 ^ 63
    → ((can_request_match (three_requests k) (two_disks k)).0 ≡ false)
      × IsPacking (1 ∷ 1 ∷ 0 ∷ []) (three_requests k) (two_disks k)
can_request_match_misses-IsPacking k h b = (
  take (2 * k) (3 * k) _ _ (omega arith) (omega arith)
      ∙ pass (2 * k) (3 * k - 2 * k) _ _ (omega arith)
      ∙ take (2 * k) (4 * k) _ _ (omega arith) b
      ∙ pass (3 * k) (4 * k - 2 * k) _ _ (omega arith)
      ∙ no_disk _ _,
  record { counted = refl; placed = omega arith; fits = misses_fits k },
)
