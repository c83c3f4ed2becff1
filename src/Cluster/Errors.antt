-- ===== src/Cluster/Errors.antt =====
-- Go's `error` values, a constructor for each message, and results that may be one.
use extender_scheduler.Prelude.{ℕ, ◌≡◌, refl, String, Bool, List, ◌⊎◌, inl, inr}
use extender_scheduler.Prelude.Int.{ℤ}

-- An entry of the lists that the disk pressure predicate compares, and that one error prints.
pub record DiskInfo : Type 0 where
  pub path : String
  pub size : ℤ
  pub disabled : Bool

pub data Error : Type 0 where
  -- An error of a lister, of the API server or of the decoder.
  external : String → Error
  -- hostpathpv.go; the first argument names the volume, the claim or the pod.
  pv_not_bound : String → Error
  filter_pods : (namespace name : String) → Error → Error
  get_pod : (namespace name : String) → Error → Error
  not_hostpath : String → Error
  filter_failed : Error → Error
  get_pvc_failed : String → Error → Error
  pvc_is_nil : String → Error
  pvc_not_bound : String → Error
  -- The message prints the named result `err`, which is still nil.
  pv_not_fetched : String → Error
  disks_unmarshal : Error → Error
  pv_mount_info : String → Error → Error
  capacity_undefined : String → Error
  capacity_too_small : String → Error
  -- hostpathpv_disk_pressure.go: the pod and the position of its volume.
  volume_pv : (namespace name : String) → ℕ → Error → Error
  -- A `PredicateError`: the predicate, the node, and why. What prints `err.Error`, a method value and
  -- no call, prints no text of the error.
  predicate_pod_volume : (predicate node : String) → Error
  predicate_used_nodes : (predicate node : String) → Error
  predicate_empty_item : (predicate node : String) → Error
  predicate_pod_disks : (predicate node : String) → Error → Error
  predicate_node_disks : (predicate node : String) → Error → Error
  predicate_too_large : (predicate node : String) → (request allocable : ℤ) → Error
  predicate_no_match : (predicate node : String) → (requests disks : List DiskInfo) → Error
  predicate_selector : (predicate node : String) → Error → Error
  -- predicate.go and prioritize.go; the first argument is "Predicate" or "Prioritize". The second
  -- message prints `p.Name`, a method value, and so no name.
  name_is_empty : (kind : String) → Error
  is_registered : (kind : String) → Error
  init_failed : (kind name : String) → Error → Error
  not_inited : (kind : String) → Error
  -- main.go
  wait_timeout : Error
  install_failed : (part : String) → Error → Error

pub data Result {ℓ} (A : Type ℓ) : Type ℓ where
  ok : A → Result A
  err : Error → Result A

infixl 5 ◌>>=◌
abbrev pub ◌>>=◌ {ℓ κ} :
    {Before : Type ℓ} {After : Type κ} → Result Before → (Before → Result After) → Result After
err failure >>= k = err failure
ok x >>= k = k x

-- `if err != nil { return …, wrap(err) }`
abbrev pub or_error {ℓ} : {A : Type ℓ} → (Error → Error) → Result A → Result A
or_error wrap (ok a) = ok a
or_error wrap (err e) = err (wrap e)

-- The value of a result whose error is ignored: at an error, what is returned beside it.
abbrev pub value_or {ℓ} : {A : Type ℓ} → A → Result A → A
value_or d (ok a) = a
value_or d (err e) = d

pub Result-cases {ℓ} :
    {A : Type ℓ} (r : Result A) → ((a : A) × (r ≡ ok a)) ⊎ ((e : Error) × (r ≡ err e))
Result-cases (ok a) = inl (a, refl)
Result-cases (err e) = inr (e, refl)

module _ {ℓ} {A : Type ℓ} where
  pub ok-injective : {a b : A} → ok a ≡ ok b → a ≡ b
  ok-injective h = cc

  pub err-ne-ok {κ} : {B : Type κ} {a : A} {e : Error} → err e ≡ ok a → B
  err-ne-ok h = cc

  pub or_error-eq-ok :
      (wrap : Error → Error) (r : Result A) {a : A} → or_error wrap r ≡ ok a → r ≡ ok a
  or_error-eq-ok wrap (ok b) h = h
  or_error-eq-ok wrap (err e) h = cc

-- Inversion of a successful bind.
module _ {ℓ κ} {Before : Type ℓ} {After : Type κ} where
  pub >>=-eq-ok :
      (r : Result Before) (k : Before → Result After) {y : After}
      → (r >>= k) ≡ ok y
      → (x : Before) × (r ≡ ok x) × (k x ≡ ok y)
  >>=-eq-ok (err failure) k e = cc
  >>=-eq-ok (ok x) k e = (x, refl, e)
