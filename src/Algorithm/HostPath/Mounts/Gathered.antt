-- ===== src/Algorithm/HostPath/Mounts/Gathered.antt =====
-- pkg/algorithm/hostpathpv.go: the entries collected by `GetNodeHostPathPVMountInfo` and the map of the
-- paths met, after each step.
use mathlib.Core.Bool.{false≢true}
use mathlib.Core.List.{append-nil}
use extender_scheduler.Prelude.{
  ℕ, zero, suc, ◌-◌, ◌≡◌, ◌≢◌, refl, sym, ap, subst, ◌∙◌, ◌⊎◌, inl, inr, String, Bool, true, false,
  List, [], ◌∷◌, ◌++◌, arith, All, Bool-cases, replicate, if◌then◌else◌,
}
use extender_scheduler.Prelude.Int.{ℤ}
use extender_scheduler.Prelude.Text.{◌==◌, eq_iff}
use extender_scheduler.Prelude.Text.Paths.{clean}
use extender_scheduler.Prelude.Dict.{has_key, add_key, has_key-add_key}
use extender_scheduler.Prelude.Keys.{Distinct, Distinct-snoc, All-snoc}
use extender_scheduler.Cluster.{MountInfo}
use extender_scheduler.Algorithm.PodInfo.Selected.{Among}
use extender_scheduler.Algorithm.HostPath.{
  Collected, add_mount, add_mounts, unplaced_mounts, unplaced,
}

-- The cleaned paths of the entries that have a path.
abbrev pub placed : List MountInfo → List String
placed [] = []
placed (m ∷ ms) = if m.host_path == "" then placed ms else clean m.host_path ∷ placed ms

placed-append : (xs ys : List MountInfo) → placed (xs ++ ys) ≡ placed xs ++ placed ys
placed-append [] ys = refl
placed-append (m ∷ xs) ys = ground (arith, placed-append xs ys)

placed-replicate : (n : ℕ) (capacity : ℤ) → placed (replicate n (unplaced capacity)) ≡ []
placed-replicate zero capacity = refl
placed-replicate (suc n) capacity = placed-replicate n capacity

pub placed-unplaced_mounts :
    (shared : Bool) (capacity : ℤ) (pods recorded : ℕ)
    → placed (unplaced_mounts shared capacity pods recorded) ≡ []
unfolding unplaced_mounts
placed-unplaced_mounts true capacity pods recorded = ground arith
placed-unplaced_mounts false capacity pods recorded =
    ground (arith, placed-replicate (pods - recorded) capacity)

-- Some entry has the cleaned path.
abbrev pub Covers : String → List MountInfo → Type 0
Covers k [] = ⊥
Covers k (m ∷ ms) = (clean m.host_path ≡ k) ⊎ Covers k ms

pub Covers-left : (k : String) (xs ys : List MountInfo) → Covers k xs → Covers k (xs ++ ys)
Covers-left k (m ∷ xs) ys (inl e) = inl e
Covers-left k (m ∷ xs) ys (inr c) = inr (Covers-left k xs ys c)
Covers-left k [] ys c = absurd c

Covers-last : (xs : List MountInfo) (m : MountInfo) → Covers (clean m.host_path) (xs ++ m ∷ [])
Covers-last [] m = inl refl
Covers-last (x ∷ xs) m = inr (Covers-last xs m)

abbrev pub nothing_yet : Collected
nothing_yet = record { paths = []; mounts = [] }

-- The map of the paths met and the entries collected agree.
pub record Agrees (s : Collected) : Type 0 where
  pub once : Distinct (placed s.mounts)
  pub met : All (λ k. has_key k s.paths ≡ true) (placed s.mounts)
  pub covered : (k : String) → has_key k s.paths ≡ true → Covers k s.mounts

All-imp :
    {P Q : String → Type 0} (f : (x : String) → P x → Q x) (xs : List String) → All P xs → All Q xs
All-imp f [] h = tt
All-imp f (x ∷ xs) h = (f x h.0, All-imp f xs h.1)

has_key-kept :
    (k j : String) (ks : List String) → has_key j ks ≡ true → has_key j (add_key k ks) ≡ true
has_key-kept k j ks h = has_key-add_key k j ks ∙ rw h

has_key-added : (k : String) (ks : List String) → has_key k (add_key k ks) ≡ true
has_key-added k ks = has_key-add_key k k ks ∙ ground (arith, eq_iff k k)

add_mount-Agrees : (s : Collected) (m : MountInfo) → Agrees s → Agrees (add_mount s m)
unfolding add_mount
add_mount-Agrees s m a = elim (Bool-cases (has_key (clean m.host_path) s.paths)) [
  | inl old ↦ rw old a
  | inr new ↦ rw new (record {
    once = rw placed-append (once_more (Bool-cases (m.host_path == "")) new);
    met = rw placed-append (met_more (Bool-cases (m.host_path == "")));
    covered = covers_more;
  })
]
  where
    ks : List String
    ks = add_key (clean m.host_path) s.paths

    ne_new :
        has_key (clean m.host_path) s.paths ≡ false
        → All (λ y. y ≢ clean m.host_path) (placed s.mounts)
    ne_new new = All-imp (λ y h e. false≢true (sym new ∙ rw e at h)) (placed s.mounts) a.met

    once_more :
        ((m.host_path == "") ≡ true) ⊎ ((m.host_path == "") ≡ false)
        → has_key (clean m.host_path) s.paths ≡ false
        → Distinct (placed s.mounts ++ placed (m ∷ []))
    once_more (inl e) new = rw (e, append-nil) a.once
    once_more (inr e) new =
        rw e (Distinct-snoc (clean m.host_path) (placed s.mounts) (ne_new new) a.once)

    met_more :
        ((m.host_path == "") ≡ true) ⊎ ((m.host_path == "") ≡ false)
        → All (λ k. has_key k ks ≡ true) (placed s.mounts ++ placed (m ∷ []))
    met_more (inl e) =
        rw (e, append-nil)
          (All-imp (λ y h. has_key-kept (clean m.host_path) y s.paths h) (placed s.mounts) a.met)
    met_more (inr e) = rw e (
        All-snoc (λ k. has_key k ks ≡ true) (clean m.host_path) (placed s.mounts)
          (All-imp (λ y h. has_key-kept (clean m.host_path) y s.paths h) (placed s.mounts) a.met)
          (has_key-added (clean m.host_path) s.paths))

    covers_more : (k : String) → has_key k ks ≡ true → Covers k (s.mounts ++ m ∷ [])
    covers_more k h = elim (Bool-cases (has_key k s.paths)) [
      | inl old ↦ Covers-left k s.mounts (m ∷ []) (a.covered k old)
      | inr fresh ↦
          let same =
            (eq_iff (clean m.host_path) k).0
              (rw fresh at (sym (has_key-add_key (clean m.host_path) k s.paths) ∙ h)) in
          subst (λ x. Covers x (s.mounts ++ m ∷ [])) same (Covers-last s.mounts m)
    ]

-- A path that has been met stays met, and the path of an entry is met behind it.
add_mount-met :
    (s : Collected) (m : MountInfo) (k : String)
    → has_key k s.paths ≡ true
    → has_key k (add_mount s m).paths ≡ true
unfolding add_mount
add_mount-met s m k h = ground (arith, has_key-kept (clean m.host_path) k s.paths)

add_mount-has_key :
    (s : Collected) (m : MountInfo) → has_key (clean m.host_path) (add_mount s m).paths ≡ true
unfolding add_mount
add_mount-has_key s m = ground (arith, has_key-added (clean m.host_path) s.paths)

pub add_mounts-Agrees : (ms : List MountInfo) (s : Collected) → Agrees s → Agrees (add_mounts s ms)
unfolding add_mounts
add_mounts-Agrees [] s a = a
add_mounts-Agrees (m ∷ ms) s a = add_mounts-Agrees ms (add_mount s m) (add_mount-Agrees s m a)

pub add_mounts-met :
    (ms : List MountInfo) (s : Collected) (k : String)
    → has_key k s.paths ≡ true
    → has_key k (add_mounts s ms).paths ≡ true
unfolding add_mounts
add_mounts-met [] s k h = h
add_mounts-met (m ∷ ms) s k h = add_mounts-met ms (add_mount s m) k (add_mount-met s m k h)

pub add_mounts-has_key :
    (ms : List MountInfo) (s : Collected) (m : MountInfo)
    → Among m ms
    → has_key (clean m.host_path) (add_mounts s ms).paths ≡ true
unfolding add_mounts
add_mounts-has_key [] s m h = absurd h
add_mounts-has_key (n ∷ ms) s m (inl e) =
    rw e (add_mounts-met ms (add_mount s n) (clean n.host_path) (add_mount-has_key s n))
add_mounts-has_key (n ∷ ms) s m (inr h) = add_mounts-has_key ms (add_mount s n) m h

-- Entries with no path change nothing.
pub add_unplaced-Agrees :
    (s : Collected) (extra : List MountInfo)
    → placed extra ≡ []
    → Agrees s
    → Agrees (record s { mounts = s.mounts ++ extra })
add_unplaced-Agrees s extra e a =
    let same : placed (s.mounts ++ extra) ≡ placed s.mounts =
      placed-append s.mounts extra
      ∙ ap (λ l. placed s.mounts ++ l) e
      ∙ append-nil (placed s.mounts) in
    record {
      once = rw same a.once;
      met = rw same a.met;
      covered = λ k h. Covers-left k s.mounts extra (a.covered k h);
    }
