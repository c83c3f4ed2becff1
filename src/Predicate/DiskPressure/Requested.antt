-- ===== src/Predicate/DiskPressure/Requested.antt =====
-- pkg/algorithm/predicate/hostpathpv_disk_pressure.go: what `getPodHostpathOfNodeDiskInfos` reports of a
-- pod.
use mathlib.Core.List.{Perm, append-nil, append_assoc}
use extender_scheduler.Prelude.{
  ℕ, suc, ◌≡◌, refl, sym, subst, ◌∙◌, Bool, true, false, ◌||◌, Bool-cases, inl, inr, Option, none,
  some, String, List, [], ◌∷◌, ◌++◌, map, arith,
}
use extender_scheduler.Prelude.Int.{ℤ, pos}
use extender_scheduler.Cluster.{
  Cluster, Pod, Volume, Pv, ok, ok-injective, >>=-eq-ok, or_error, or_error-eq-ok, volume_pv,
  value_or,
}
use extender_scheduler.Algorithm.HostPath.{
  is_common_host_path_pv, get_capacity, has_empty_item_for_node, pod_volume_pv,
}
use extender_scheduler.Predicate.DiskPressure.{
  PodDisks, request_of, add_request, add_volume_pv, request_loop, pod_disks, sum_sizes,
}
use extender_scheduler.Predicate.DiskPressure.Order.{IsSorted, sort_lem}

-- What a list of volumes asks of the node, in their order, and whether one of them is a hostpath volume.
pub data Requests (c : Cluster) (pod : Pod) (node : String)
    : List Volume → List ℤ → Bool → Type 0 where
  no_volumes : Requests c pod node [] [] false
  no_pv :
      (v : Volume) (vs : List Volume) (sizes : List ℤ) (has : Bool)
      → pod_volume_pv c pod v ≡ ok none
      → Requests c pod node vs sizes has
      → Requests c pod node (v ∷ vs) sizes has
  other_kind :
      (v : Volume) (vs : List Volume) (sizes : List ℤ) (has : Bool) (pv : Pv)
      → pod_volume_pv c pod v ≡ ok (some pv)
      → is_common_host_path_pv (some pv) ≡ false
      → Requests c pod node vs sizes has
      → Requests c pod node (v ∷ vs) sizes has
  has_free :
      (v : Volume) (vs : List Volume) (sizes : List ℤ) (has : Bool) (pv : Pv)
      → pod_volume_pv c pod v ≡ ok (some pv)
      → is_common_host_path_pv (some pv) ≡ true
      → has_empty_item_for_node c pv node ≡ ok true
      → Requests c pod node vs sizes has
      → Requests c pod node (v ∷ vs) sizes true
  requested :
      (v : Volume) (vs : List Volume) (sizes : List ℤ) (has : Bool) (pv : Pv)
      → pod_volume_pv c pod v ≡ ok (some pv)
      → is_common_host_path_pv (some pv) ≡ true
      → has_empty_item_for_node c pv node ≡ ok false
      → Requests c pod node vs sizes has
      → Requests c pod node (v ∷ vs) (value_or (pos 0) (get_capacity pv) ∷ sizes) true

module _ (c : Cluster) (pod : Pod) (node : String) where
  -- What the loop adds for these volumes.
  record Looped (vs : List Volume) (s s' : PodDisks) : Type 0 where
    sizes : List ℤ
    has : Bool
    requests : Requests c pod node vs sizes has
    infos : s'.infos ≡ s.infos ++ map request_of sizes
    total : s'.total ≡ sum_sizes s.total (map request_of sizes)
    flag : s'.has_hostpath ≡ (s.has_hostpath || has)

  add_request-Looped :
      (v : Volume) (vs : List Volume) (s s' : PodDisks) (pv : Pv) (free : Bool)
      → pod_volume_pv c pod v ≡ ok (some pv)
      → is_common_host_path_pv (some pv) ≡ true
      → has_empty_item_for_node c pv node ≡ ok free
      → Looped vs (add_request (value_or (pos 0) (get_capacity pv)) free s) s'
      → Looped (v ∷ vs) s s'
  unfolding add_request sum_sizes
  add_request-Looped v vs s s' pv true found common asked l = record {
    sizes = l.sizes;
    has = true;
    requests = has_free v vs l.sizes l.has pv found common asked l.requests;
    infos = l.infos;
    total = l.total;
    flag = l.flag ∙ ground arith;
  }
  add_request-Looped v vs s s' pv false found common asked l = record {
    sizes = value_or (pos 0) (get_capacity pv) ∷ l.sizes;
    has = true;
    requests = requested v vs l.sizes l.has pv found common asked l.requests;
    infos = l.infos ∙ append_assoc s.infos _ (map request_of l.sizes);
    total = l.total;
    flag = l.flag ∙ ground arith;
  }

  add_volume_pv-Looped :
      (v : Volume) (vs : List Volume) (o : Option Pv) (s t s' : PodDisks)
      → pod_volume_pv c pod v ≡ ok o
      → add_volume_pv c pod node o s ≡ ok t
      → Looped vs t s'
      → Looped (v ∷ vs) s s'
  unfolding add_volume_pv
  add_volume_pv-Looped v vs none s t s' found h l =
      let l : Looped vs s s' = subst (λ s. Looped vs s s') (sym (ok-injective h)) l in
      record {
        sizes = l.sizes;
        has = l.has;
        requests = no_pv v vs l.sizes l.has found l.requests;
        infos = l.infos;
        total = l.total;
        flag = l.flag;
      }
  add_volume_pv-Looped v vs (some pv) s t s' found h l =
      elim (Bool-cases (is_common_host_path_pv (some pv))) [
        | inl e ↦
            let (free, asked, made) = >>=-eq-ok (has_empty_item_for_node c pv node) _ (rw e at h) in
            add_request-Looped v vs s s' pv free found e asked
              (subst (λ s. Looped vs s s') (sym (ok-injective made)) l)
        | inr e ↦
            let l : Looped vs s s' =
              subst (λ s. Looped vs s s') (sym (ok-injective (rw e at h))) l in
            record {
              sizes = l.sizes;
              has = l.has;
              requests = other_kind v vs l.sizes l.has pv found e l.requests;
              infos = l.infos;
              total = l.total;
              flag = l.flag;
            }
      ]

  request_loop-Looped :
      (i : ℕ) (vs : List Volume) (s s' : PodDisks)
      → request_loop c pod node i vs s ≡ ok s'
      → Looped vs s s'
  unfolding request_loop sum_sizes
  request_loop-Looped i [] s s' h = subst (Looped [] s) (ok-injective h) (record {
    sizes = [];
    has = false;
    requests = no_volumes;
    infos = sym (append-nil s.infos);
    total = refl;
    flag = ground arith;
  })
  request_loop-Looped i (v ∷ vs) s s' h =
      let (o, found, rest) =
        >>=-eq-ok (or_error (volume_pv pod.namespace pod.name i) (pod_volume_pv c pod v)) _ h in
      let (t, one, later) = >>=-eq-ok (add_volume_pv c pod node o s) _ rest in
      add_volume_pv-Looped v vs o s t s' (or_error-eq-ok _ _ found) one
        (request_loop-Looped (suc i) vs t s' later)

-- If `getPodHostpathOfNodeDiskInfos` returns without an error, then what it reports are the capacities of
-- exactly those hostpath volumes of the pod that have no free directory on the node, 0 for a capacity that
-- cannot be read, in ascending order; the total is what they add up to in the order of the pod's
-- volumes, with the wrap-around of an `int64`; and it reports a hostpath volume exactly if the pod has one,
-- with a free directory or without.
pub pod_disks_lem :
    (c : Cluster) (pod : Pod) (node : String) (r : PodDisks)
    → pod_disks c pod node ≡ ok r
    → (sizes : List ℤ) × (has : Bool) × Requests c pod node pod.volumes sizes has
      × Perm r.infos (map request_of sizes)
      × IsSorted r.infos
      × (r.total ≡ sum_sizes (pos 0) (map request_of sizes))
      × (r.has_hostpath ≡ has)
unfolding pod_disks
pod_disks_lem c pod node r h =
    let start : PodDisks = record { total = pos 0; infos = []; has_hostpath = false } in
    let (s, looped, made) = >>=-eq-ok (request_loop c pod node 0 pod.volumes start) _ h in
    let l = request_loop-Looped c pod node 0 pod.volumes start s looped in
    let sorted = sort_lem s.infos in
    subst
      (λ (t : PodDisks).
        (sizes : List ℤ) × (has : Bool) × Requests c pod node pod.volumes sizes has
        × Perm t.infos (map request_of sizes)
        × IsSorted t.infos
        × (t.total ≡ sum_sizes (pos 0) (map request_of sizes))
        × (t.has_hostpath ≡ has))
      (ok-injective made)
      (l.sizes, l.has, l.requests, subst (Perm _) l.infos sorted.1, sorted.0, l.total, l.flag)
