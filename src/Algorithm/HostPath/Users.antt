-- ===== src/Algorithm/HostPath/Users.antt =====
-- pkg/algorithm/hostpathpv.go: the pods that `GetHostPathPVUsedPodMap` counts.
use mathlib.Core.Bool.{false≢true}
use extender_scheduler.Prelude.{
  some, subst, Option-cases, ◌≡◌, refl, sym, ◌∙◌, ◌↔◌, ◌⊎◌, inl, inr, String, Bool, true, false,
  ◌||◌, List, [], ◌∷◌, map,
}
use extender_scheduler.Prelude.Text.{◌==◌, eq_iff}
use extender_scheduler.Prelude.Dict.{has_key, add_key, has_key-add_key}
use extender_scheduler.Prelude.Keys.{Distinct, add_key-Distinct}
use extender_scheduler.Cluster.{
  Cluster, Pod, Pv, ClaimRef, ok, filter_pods, >>=-eq-ok, ok-injective, err-ne-ok, or_error-eq-ok,
}
use extender_scheduler.Algorithm.PodInfo.{filter_by_node_and_pvc}
use extender_scheduler.Algorithm.PodInfo.Selected.{Among}
use extender_scheduler.Algorithm.HostPath.{users, pod_key, used_pods_loop, used_pod_map}

used_pods_loop-Distinct :
    (c : Cluster) (pods : List Pod) (keys : List String)
    → Distinct keys
    → Distinct (used_pods_loop c pods keys)
unfolding used_pods_loop
used_pods_loop-Distinct c [] keys d = d
used_pods_loop-Distinct c (pod ∷ pods) keys d =
    used_pods_loop-Distinct c pods (add_key (pod_key c pod) keys) (add_key-Distinct _ keys d)

or_iff : (a b : Bool) → ((a || b) ≡ true) ↔ ((a ≡ true) ⊎ (b ≡ true))
or_iff true b = (λ h. inl refl, λ h. refl)
or_iff false b = (λ h. inr h, λ h. elim h [ inl e ↦ cc | inr e ↦ e ])

used_pods_loop-has_key :
    (c : Cluster) (k : String) (pods : List Pod) (keys : List String)
    → (has_key k (used_pods_loop c pods keys) ≡ true)
      ↔ ((has_key k keys ≡ true) ⊎ Among k (map (pod_key c) pods))
unfolding used_pods_loop
used_pods_loop-has_key c k [] keys = (λ h. inl h, λ h. elim h [ inl e ↦ e | inr m ↦ absurd m ])
used_pods_loop-has_key c k (pod ∷ pods) keys =
    let later = used_pods_loop-has_key c k pods (add_key (pod_key c pod) keys) in
    (λ h. into (later.0 h), λ h. later.1 (out h))
  where
    key : String
    key = pod_key c pod

    into :
        (has_key k (add_key key keys) ≡ true) ⊎ Among k (map (pod_key c) pods)
        → (has_key k keys ≡ true) ⊎ Among k (map (pod_key c) (pod ∷ pods))
    into (inr m) = inr (inr m)
    into (inl e) =
        elim ((or_iff (has_key k keys) (key == k)).0 (sym (has_key-add_key key k keys) ∙ e)) [
          | inl old ↦ inl old
          | inr new ↦ inr (inl (sym ((eq_iff key k).0 new)))
        ]

    out :
        (has_key k keys ≡ true) ⊎ Among k (map (pod_key c) (pod ∷ pods))
        → (has_key k (add_key key keys) ≡ true) ⊎ Among k (map (pod_key c) pods)
    out (inl old) =
        inl (has_key-add_key key k keys ∙ (or_iff (has_key k keys) (key == k)).1 (inl old))
    out (inr (inl new)) = inl (
        has_key-add_key key k keys
        ∙ (or_iff (has_key k keys) (key == k)).1 (inr ((eq_iff key k).1 (sym new))))
    out (inr (inr m)) = inr m

used_pods_loop-from_empty :
    (c : Cluster) (k : String) (pods : List Pod)
    → (has_key k (used_pods_loop c pods []) ≡ true) ↔ Among k (map (pod_key c) pods)
unfolding has_key
used_pods_loop-from_empty c k pods =
    let all = used_pods_loop-has_key c k pods [] in
    (λ h. elim (all.0 h) [ inl e ↦ absurd (false≢true e) | inr m ↦ m ], λ m. all.1 (inr m))

users-eq-ok :
    (c : Cluster) (pv : Pv) (node_name : String) (pods : List Pod)
    → users c pv node_name ≡ ok pods
    → (ref : ClaimRef) × (pv.claim_ref ≡ some ref)
      × (filter_by_node_and_pvc c node_name ref.namespace ref.name false ≡ ok pods)
unfolding users
users-eq-ok c pv node_name pods h = elim (Option-cases pv.claim_ref) [
  | inl e ↦ err-ne-ok (rw e at h)
  | inr (ref, e) ↦ (ref, e, or_error-eq-ok (filter_pods ref.namespace ref.name) _ (rw e at h))
]

-- The pods that `GetHostPathPVUsedPodMap` finds belong to the claim that the volume is bound to. The
-- map lists no key twice, and its keys are exactly those of the active pods on the node, or anywhere
-- for an empty name, that use the claim.
pub used_pod_map_lem :
    (c : Cluster) (pv : Pv) (node_name : String) (keys : List String)
    → used_pod_map c pv node_name ≡ ok keys
    → (ref : ClaimRef) × (pv.claim_ref ≡ some ref)
      × (pods : List Pod) × (filter_by_node_and_pvc c node_name ref.namespace ref.name false
          ≡ ok pods)
      × Distinct keys
      × ((k : String) → (has_key k keys ≡ true) ↔ Among k (map (pod_key c) pods))
unfolding used_pod_map
used_pod_map_lem c pv node_name keys h =
    let (pods, found, made) = >>=-eq-ok (users c pv node_name) _ h in
    let (ref, bound, listed) = users-eq-ok c pv node_name pods found in
    (
      ref,
      bound,
      pods,
      listed,
      subst Distinct (ok-injective made) (used_pods_loop-Distinct c pods [] tt),
      λ k.
          subst (λ l. (has_key k l ≡ true) ↔ Among k (map (pod_key c) pods)) (ok-injective made)
            (used_pods_loop-from_empty c k pods),
    )
