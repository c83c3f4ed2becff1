-- ===== src/Algorithm/HostPath/Mounts/Sources.antt =====
-- pkg/algorithm/hostpathpv.go: where the entries of `GetNodeHostPathPVMountInfo` come from.
use extender_scheduler.Prelude.{
  ℕ, zero, suc, ◌-◌, ◌≡◌, refl, subst, ◌⊎◌, inl, inr, String, Bool, true, false, ◌&&◌, Bool-cases,
  Option, none, some, List, [], ◌∷◌, ◌++◌, All, length, replicate, ltb, if◌then◌else◌,
}
use extender_scheduler.Prelude.Int.{ℤ, pos}
use extender_scheduler.Prelude.Text.Paths.{clean}
use extender_scheduler.Prelude.Dict.{has_key}
use extender_scheduler.Prelude.Keys.{All-snoc}
use extender_scheduler.Cluster.{
  Cluster, Pv, MountInfo, NodeMounts, ok, >>=-eq-ok, ok-injective, value_or, or_error,
  or_error-eq-ok, pv_mount_info,
}
use extender_scheduler.Algorithm.PodInfo.Selected.{Among}
use extender_scheduler.Algorithm.HostPath.{
  is_common_host_path_pv, is_shared_host_path_pv, get_capacity, used_pod_map, mount_info_list,
  find_node, Collected, add_mount, add_mounts, unplaced, unplaced_mounts, add_node_mounts, add_pv,
  add_pvs, node_mount_info,
}
use extender_scheduler.Algorithm.HostPath.Mounts.{IsRecorded}
use extender_scheduler.Algorithm.HostPath.Mounts.Gathered.{nothing_yet}

module _ {A : Type 0} (P : A → Type 0) where
  All-append : (xs ys : List A) → All P xs → All P ys → All P (xs ++ ys)
  All-append [] ys h k = k
  All-append (x ∷ xs) ys h k = (h.0, All-append xs ys h.1 k)

  All-replicate : (n : ℕ) (x : A) → P x → All P (replicate n x)
  All-replicate zero x h = tt
  All-replicate (suc n) x h = (h, All-replicate n x h)

  All-Among : (xs : List A) → ((x : A) → Among x xs → P x) → All P xs
  All-Among [] h = tt
  All-Among (x ∷ xs) h = (h x (inl refl), All-Among xs (λ y among. h y (inr among)))

  All-if : (b : Bool) (xs : List A) → All P xs → All P (if b then xs else [])
  All-if true xs h = h
  All-if false xs h = tt

module _ (P : MountInfo → Type 0) where
  add_mount-All :
      (s : Collected) (m : MountInfo) → P m → All P s.mounts → All P (add_mount s m).mounts
  unfolding add_mount
  add_mount-All s m p h = elim (Bool-cases (has_key (clean m.host_path) s.paths)) [
    | inl e ↦ rw e h
    | inr e ↦ rw e (All-snoc P m s.mounts h p)
  ]

  add_mounts-All :
      (ms : List MountInfo) (s : Collected)
      → All P ms
      → All P s.mounts
      → All P (add_mounts s ms).mounts
  unfolding add_mounts
  add_mounts-All [] s ps h = h
  add_mounts-All (m ∷ ms) s ps h = add_mounts-All ms (add_mount s m) ps.1 (add_mount-All s m ps.0 h)

  unplaced_mounts-All :
      (shared : Bool) (capacity : ℤ) (pods recorded : ℕ)
      → P (unplaced capacity)
      → All P (unplaced_mounts shared capacity pods recorded)
  unfolding unplaced_mounts
  unplaced_mounts-All true capacity pods recorded p =
      All-if P (ltb recorded 1 && ltb 0 pods) (unplaced capacity ∷ []) (p, tt)
  unplaced_mounts-All false capacity pods recorded p =
      All-if P (ltb recorded pods) (replicate (pods - recorded) (unplaced capacity))
        (All-replicate P (pods - recorded) (unplaced capacity) p)

module _ (c : Cluster) (node : String) where
  -- The entry is a directory that the volume records on the node, or it has no path and the
  -- volume's capacity.
  abbrev pub IsFrom : Pv → MountInfo → Type 0
  IsFrom pv m =
      IsRecorded c node pv m
      ⊎ ((is_common_host_path_pv (some pv) ≡ true)
          × (m ≡ unplaced (value_or (pos 0) (get_capacity pv))))

  abbrev pub HasSource : List Pv → MountInfo → Type 0
  HasSource pvs m = (pv : Pv) × Among pv pvs × IsFrom pv m

  module _ (all : List Pv) where
    add_node_mounts-All :
        (s : Collected) (pv : Pv) (infos : List NodeMounts) (o : Option NodeMounts)
        → find_node node infos ≡ o
        → is_common_host_path_pv (some pv) ≡ true
        → mount_info_list c pv ≡ ok infos
        → Among pv all
        → All (HasSource all) s.mounts
        → All (HasSource all) (add_node_mounts c node s pv o).mounts
    unfolding add_node_mounts
    add_node_mounts-All s pv infos none found hostpath read among h = h
    add_node_mounts-All s pv infos (some info) found hostpath read among h =
        All-append (HasSource all) (add_mounts s info.mount_infos).mounts _
          (add_mounts-All (HasSource all) info.mount_infos s
            (All-Among (HasSource all) info.mount_infos (λ m recorded. (
              pv,
              among,
              inl (record {
                is_hostpath = hostpath;
                infos = infos;
                read = read;
                info = info;
                found_on = found;
                recorded = recorded;
              }),
            )))
            h)
          (unplaced_mounts-All (HasSource all) (is_shared_host_path_pv pv)
            (value_or (pos 0) (get_capacity pv)) (length (value_or [] (used_pod_map c pv node)))
            (length info.mount_infos) (pv, among, inr (hostpath, refl)))

    add_pv-All :
        (s s' : Collected) (pv : Pv)
        → Among pv all
        → add_pv c node s pv ≡ ok s'
        → All (HasSource all) s.mounts
        → All (HasSource all) s'.mounts
    unfolding add_pv
    add_pv-All s s' pv among e h = elim (Bool-cases (is_common_host_path_pv (some pv))) [
      | inl hostpath ↦
          let (infos, read, made) =
            >>=-eq-ok (or_error (pv_mount_info pv.name) (mount_info_list c pv)) _
              (rw hostpath at e) in
          subst (λ (t : Collected). All (HasSource all) t.mounts) (ok-injective made)
            (add_node_mounts-All s pv infos (find_node node infos) refl hostpath
              (or_error-eq-ok (pv_mount_info pv.name) (mount_info_list c pv) read) among h)
      | inr other ↦
          subst (λ (t : Collected). All (HasSource all) t.mounts) (ok-injective (rw other at e)) h
    ]

    add_pvs-All :
        (pvs : List Pv) (s s' : Collected)
        → ((pv : Pv) → Among pv pvs → Among pv all)
        → add_pvs c node s pvs ≡ ok s'
        → All (HasSource all) s.mounts
        → All (HasSource all) s'.mounts
    unfolding add_pvs
    add_pvs-All [] s s' within e h =
        subst (λ (t : Collected). All (HasSource all) t.mounts) (ok-injective e) h
    add_pvs-All (pv ∷ pvs) s s' within e h =
        let (t, one, rest) = >>=-eq-ok (add_pv c node s pv) (λ s'. add_pvs c node s' pvs) e in
        add_pvs-All pvs t s' (λ q among. within q (inr among)) rest
          (add_pv-All s t pv (within pv (inl refl)) one h)

-- If `GetNodeHostPathPVMountInfo` returns entries, then each of them comes from a hostpath volume of the
-- lister: it is a directory that the volume records on the node, or it has no path and the volume's
-- capacity.
pub node_mount_info_sources :
    (c : Cluster) (node : String) (r : NodeMounts)
    → node_mount_info c node ≡ ok r
    → (pvs : List Pv) × (c.list_pvs ≡ ok pvs) × All (HasSource c node pvs) r.mount_infos
unfolding node_mount_info
node_mount_info_sources c node r h =
    let (pvs, listed, rest) = >>=-eq-ok c.list_pvs _ h in
    let (s, collected, made) = >>=-eq-ok (add_pvs c node nothing_yet pvs) _ rest in
    (
      pvs,
      listed,
      subst (λ (t : NodeMounts). All (HasSource c node pvs) t.mount_infos) (ok-injective made)
          (add_pvs-All c node pvs pvs nothing_yet s (λ pv among. among) collected tt),
    )
