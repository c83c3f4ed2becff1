-- ===== src/Algorithm/HostPath/Mounts.antt =====
-- pkg/algorithm/hostpathpv.go: the entries of `GetNodeHostPathPVMountInfo`.
pub mod Gathered
pub mod Sources
use mathlib.Core.Bool.{false≢true}
use mathlib.Core.List.{append-nil}
use extender_scheduler.Prelude.{
  ℕ, zero, suc, ◌-◌, ◌≡◌, ◌≢◌, refl, sym, ap, subst, ◌∙◌, ◌⊎◌, inl, inr, String, Bool, true, false,
  ◌||◌, Option, none, some, List, [], ◌∷◌, ◌++◌, map, arith, All, Bool-cases, Option-cases,
  replicate, ltb, length, if◌then◌else◌,
}
use extender_scheduler.Prelude.Int.{ℤ, pos}
use extender_scheduler.Prelude.Text.{◌==◌, eq_iff}
use extender_scheduler.Prelude.Text.Paths.{clean}
use extender_scheduler.Prelude.Dict.{has_key, add_key, has_key-add_key}
use extender_scheduler.Prelude.Keys.{Distinct, Distinct-snoc, All-snoc, has_key-false}
use extender_scheduler.Cluster.{
  Cluster, Pv, MountInfo, NodeMounts, Result, ok, err, >>=-eq-ok, ok-injective, err-ne-ok, value_or,
  or_error, or_error-eq-ok, pv_mount_info, Result-cases,
}
use extender_scheduler.Algorithm.PodInfo.Selected.{Among}
use extender_scheduler.Algorithm.HostPath.{
  is_common_host_path_pv, is_shared_host_path_pv, get_capacity, used_pod_map, mount_info_list,
  find_node, Collected, add_mount, add_mounts, unplaced_mounts, unplaced, add_node_mounts, add_pv,
  add_pvs, node_mount_info,
}
use extender_scheduler.Algorithm.HostPath.Mounts.Gathered.{
  placed, placed-unplaced_mounts, Covers, nothing_yet, Agrees, add_mounts-Agrees, add_mounts-met,
  add_mounts-has_key, add_unplaced-Agrees,
}

module _ (c : Cluster) (node : String) where
  add_node_mounts-Agrees :
      (s : Collected) (pv : Pv) (o : Option NodeMounts)
      → Agrees s
      → Agrees (add_node_mounts c node s pv o)
  unfolding add_node_mounts
  add_node_mounts-Agrees s pv none a = a
  add_node_mounts-Agrees s pv (some info) a =
      add_unplaced-Agrees (add_mounts s info.mount_infos) _
        (placed-unplaced_mounts (is_shared_host_path_pv pv) (value_or (pos 0) (get_capacity pv))
          (length (value_or [] (used_pod_map c pv node))) (length info.mount_infos))
        (add_mounts-Agrees info.mount_infos s a)

  add_node_mounts-met :
      (s : Collected) (pv : Pv) (o : Option NodeMounts) (k : String)
      → has_key k s.paths ≡ true
      → has_key k (add_node_mounts c node s pv o).paths ≡ true
  unfolding add_node_mounts
  add_node_mounts-met s pv none k h = h
  add_node_mounts-met s pv (some info) k h = add_mounts-met info.mount_infos s k h

-- The mount is a directory of a hostpath volume, and the first entry of the node in the volume's
-- annotation has it.
pub record IsRecorded (c : Cluster) (node : String) (pv : Pv) (m : MountInfo) : Type 0 where
  pub is_hostpath : is_common_host_path_pv (some pv) ≡ true
  pub infos : List NodeMounts
  pub read : mount_info_list c pv ≡ ok infos
  pub info : NodeMounts
  pub found_on : find_node node infos ≡ some info
  pub recorded : Among m info.mount_infos

module _ (c : Cluster) (node : String) where
  -- What a step from `s` to `s'` keeps.
  record Extends (s s' : Collected) : Type 0 where
    agrees : Agrees s'
    keeps : (k : String) → has_key k s.paths ≡ true → has_key k s'.paths ≡ true

  add_pv-Extends :
      (s s' : Collected) (pv : Pv) → Agrees s → add_pv c node s pv ≡ ok s' → Extends s s'
  unfolding add_pv
  add_pv-Extends s s' pv a h = elim (Bool-cases (is_common_host_path_pv (some pv))) [
    | inl e ↦
        let (infos, _, made) =
          >>=-eq-ok (or_error (pv_mount_info pv.name) (mount_info_list c pv)) _ (rw e at h) in
        subst (Extends s) (ok-injective made) (record {
          agrees = add_node_mounts-Agrees c node s pv (find_node node infos) a;
          keeps = add_node_mounts-met c node s pv (find_node node infos);
        })
    | inr e ↦ subst (Extends s) (ok-injective (rw e at h)) (record { agrees = a; keeps = λ k m. m })
  ]

  add_pv-has_key :
      (s s' : Collected) (pv : Pv) (m : MountInfo)
      → add_pv c node s pv ≡ ok s'
      → IsRecorded c node pv m
      → has_key (clean m.host_path) s'.paths ≡ true
  unfolding add_pv add_node_mounts
  add_pv-has_key s s' pv m h r =
      subst (λ (t : Collected). has_key (clean m.host_path) t.paths ≡ true)
        (ok-injective (rw (r.is_hostpath, r.read, r.found_on) at h))
        (add_mounts-has_key r.info.mount_infos s m r.recorded)

  add_pvs-Extends :
      (pvs : List Pv) (s s' : Collected) → Agrees s → add_pvs c node s pvs ≡ ok s' → Extends s s'
  unfolding add_pvs
  add_pvs-Extends [] s s' a h =
      subst (Extends s) (ok-injective h) (record { agrees = a; keeps = λ k m. m })
  add_pvs-Extends (pv ∷ pvs) s s' a h =
      let (t, one, rest) = >>=-eq-ok (add_pv c node s pv) (λ s'. add_pvs c node s' pvs) h in
      let first = add_pv-Extends s t pv a one in
      let later = add_pvs-Extends pvs t s' first.agrees rest in
      record { agrees = later.agrees; keeps = λ k m. later.keeps k (first.keeps k m) }

  add_pvs-has_key :
      (pvs : List Pv) (s s' : Collected) (pv : Pv) (m : MountInfo)
      → Agrees s
      → add_pvs c node s pvs ≡ ok s'
      → Among pv pvs
      → IsRecorded c node pv m
      → has_key (clean m.host_path) s'.paths ≡ true
  unfolding add_pvs
  add_pvs-has_key [] s s' pv m a h among r = absurd among
  add_pvs-has_key (q ∷ pvs) s s' pv m a h among r =
      let (t, one, rest) = >>=-eq-ok (add_pv c node s q) (λ s'. add_pvs c node s' pvs) h in
      let first = add_pv-Extends s t q a one in
      elim among [
        | inl same ↦
            (add_pvs-Extends pvs t s' first.agrees rest).keeps (clean m.host_path)
              (add_pv-has_key s t q m one (rw same at r))
        | inr later ↦ add_pvs-has_key pvs t s' pv m first.agrees rest later r
      ]

  empty-Agrees : Agrees nothing_yet
  unfolding has_key
  empty-Agrees = record { once = tt; met = tt; covered = λ k h. absurd (false≢true h) }

-- If `GetNodeHostPathPVMountInfo` returns entries, then the lister has returned its volumes, no two
-- entries with a path have the same cleaned path, and every directory of the first entry that the
-- annotation of one of those volumes, a hostpath volume, has for the node is there under its cleaned path.
pub node_mount_info_lem :
    (c : Cluster) (node : String) (r : NodeMounts)
    → node_mount_info c node ≡ ok r
    → (pvs : List Pv) × (c.list_pvs ≡ ok pvs)
      × (r.node_name ≡ node)
      × Distinct (placed r.mount_infos)
      × ((pv : Pv) (m : MountInfo)
          → Among pv pvs
          → IsRecorded c node pv m
          → Covers (clean m.host_path) r.mount_infos)
unfolding node_mount_info
node_mount_info_lem c node r h =
    let (pvs, listed, rest) = >>=-eq-ok c.list_pvs _ h in
    let (s, collected, made) = >>=-eq-ok (add_pvs c node nothing_yet pvs) _ rest in
    let agrees =
      (add_pvs-Extends c node pvs nothing_yet s (empty-Agrees c node) collected).agrees in
    (
      pvs,
      listed,
      sym (ap (λ t. t.node_name) (ok-injective made)),
      subst (λ (t : NodeMounts). Distinct (placed t.mount_infos)) (ok-injective made) agrees.once,
      λ pv m among rec.
          subst (λ (t : NodeMounts). Covers (clean m.host_path) t.mount_infos) (ok-injective made)
            (agrees.covered (clean m.host_path) (
              add_pvs-has_key c node pvs nothing_yet s pv m (empty-Agrees c node) collected among
                rec)),
    )
