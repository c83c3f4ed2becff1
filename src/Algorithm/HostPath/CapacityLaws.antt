-- ===== src/Algorithm/HostPath/CapacityLaws.antt =====
-- pkg/algorithm/hostpathpv.go: the capacity that is set and the one that is read.
use mathlib.Core.Option.{none-ne-some}
use extender_scheduler.Prelude.{
  ℕ, ◌^◌, ◌<◌, ◌≡◌, ◌≢◌, sym, ◌∙◌, String, true, false, Option, none, some, ap, [], arith,
  if◌then◌else◌, Bool-cases, inl, inr,
}
use extender_scheduler.Prelude.Int.{ℤ, pos, negsuc, IsInt64, ◌≤ℤ◌, ◌<ℤ◌}
use extender_scheduler.Prelude.Text.{
  ◌==◌, eq_iff, parse_int, format_int, parse_int-format_int, parse_int_empty,
}
use extender_scheduler.Prelude.Dict.{Dict, insert, lookup-insert}
use extender_scheduler.Cluster.{Pv, ok, err, capacity_too_small, not_hostpath, capacity_ann}
use extender_scheduler.Algorithm.HostPath.{
  is_common_host_path_pv, annotation, or_empty, get_capacity, set_capacity,
}

annotation-insert :
    (a : Option (Dict String)) (k j v : String)
    → annotation (some (insert k v (or_empty a))) j ≡ (if k == j then v else annotation a j)
unfolding annotation
annotation-insert none k j v = rw (lookup-insert k j v []) (ground arith)
annotation-insert (some m) k j v = rw (lookup-insert k j v m) (ground arith)

format_int-ne-empty : (n : ℕ) → n < 2 ^ 63 → (format_int (pos n) == "") ≡ false
format_int-ne-empty n h = elim (Bool-cases (format_int (pos n) == "")) [
  | inl e ↦ absurd (
      none-ne-some (pos n) (
        sym parse_int_empty
        ∙ ap parse_int (sym ((eq_iff (format_int (pos n)) "").0 e))
        ∙ parse_int-format_int n h))
  | inr e ↦ e
]

abbrev with_capacity : Pv → ℤ → Pv
with_capacity pv size = record pv {
  annotations = some (insert capacity_ann (format_int size) (or_empty pv.annotations));
}

get_capacity-with_capacity :
    (pv : Pv) (n : ℕ)
    → n < 2 ^ 63
    → is_common_host_path_pv (some pv) ≡ true
    → get_capacity (with_capacity pv (pos n)) ≡ ok (pos n)
unfolding get_capacity
get_capacity-with_capacity pv n h e = rw (
  annotation-insert pv.annotations capacity_ann capacity_ann (format_int (pos n)),
  format_int-ne-empty n h,
  parse_int-format_int n h,
  e,
)

annotation-with_capacity :
    (pv : Pv) (size : ℤ) (key : String)
    → key ≢ capacity_ann
    → annotation (with_capacity pv size).annotations key ≡ annotation pv.annotations key
annotation-with_capacity pv size key other =
    annotation-insert pv.annotations capacity_ann key (format_int size)
    ∙ ground (arith, eq_iff capacity_ann key)

-- `SetHostpathPVCapacity` succeeds exactly for a hostpath volume and a size, in bytes, of at least 10; the
-- capacity that `GetHostPathPVCapacity` then reads is that size, for an `int64`, and every other
-- annotation reads as before. A smaller size is refused with an error that asks for at least 10M, and a
-- volume of another kind with an error that names it.
pub get_capacity-set_capacity :
    (pv : Pv) (size : ℤ)
    → IsInt64 size
    → (is_common_host_path_pv (some pv) ≡ true
        → pos 10 ≤ℤ size
        → (pv' : Pv) × (set_capacity pv size ≡ ok pv')
          × (get_capacity pv' ≡ ok size)
          × ((key : String)
              → key ≢ capacity_ann
              → annotation pv'.annotations key ≡ annotation pv.annotations key))
      × ((pv' : Pv)
          → set_capacity pv size ≡ ok pv'
          → (is_common_host_path_pv (some pv) ≡ true) × (pos 10 ≤ℤ size))
      × (size <ℤ pos 10
          → set_capacity pv size ≡ err (capacity_too_small "set pv size should not less than 10M"))
      × (pos 10 ≤ℤ size
          → is_common_host_path_pv (some pv) ≡ false
          → set_capacity pv size ≡ err (not_hostpath pv.name))
unfolding set_capacity
get_capacity-set_capacity pv (pos n) i = (
  λ e h. (
    with_capacity pv (pos n),
    rw e (ground arith),
    get_capacity-with_capacity pv n i.0 e,
    annotation-with_capacity pv (pos n),
  ),
  λ pv' h. (ground arith, ground arith),
  λ h. ground arith,
  λ h e. ground arith,
)
get_capacity-set_capacity pv (negsuc n) i = (
  λ e h. absurd (omega arith),
  λ pv' h. ground arith,
  λ h. ground arith,
  λ h e. absurd (omega arith),
)
