-- ===== src/Predicate/DiskPressure/Decision.antt =====
-- pkg/algorithm/predicate/hostpathpv_disk_pressure.go: what `PodMatchNode` promises.
use extender_scheduler.Prelude.{
  ℕ, zero, suc, ◌≡◌, ◌≢◌, refl, subst, String, true, false, List, [], ◌∷◌, arith, All, inl, inr,
  Bool-cases,
}
use extender_scheduler.Prelude.Int.{ℤ, pos, negsuc, ◌≤ℤ◌, IsInt64}
use extender_scheduler.Prelude.Text.{◌==◌}
use extender_scheduler.Cluster.{
  Cluster, Pod, Node, NodeDisk, DiskInfo, ok, or_error, or_error-eq-ok, ok-injective, >>=-eq-ok,
  disks_unmarshal, node_disk_ann, predicate_node_disks,
}
use extender_scheduler.Algorithm.HostPath.{annotation, get_node_disk_info, node_mount_info}
use extender_scheduler.Predicate.DiskPressure.{
  is_zero, is_empty, disk_pressure_name, PodDisks, pod_disks, NodeDisks, node_disks,
  can_request_match, compare_disks, disk_pressure_match, disks_left,
}
use extender_scheduler.Predicate.DiskPressure.Packing.{
  IsPacking, NotNegative, HasInt64, can_request_match-IsPacking,
}
use extender_scheduler.Predicate.DiskPressure.Left.{left_on-HasInt64}

-- The sizes that the decoder reads from a node's annotation are `int64` values.
abbrev pub DecodesInt64 : Cluster → Type 0
DecodesInt64 c =
    (text : String) (disks : List NodeDisk)
    → c.decode_disks text ≡ ok disks
    → All (λ d. IsInt64 d.allocable) disks

compare_disks-ok :
    (node_name : String) (total : ℤ) (rs : List DiskInfo) (left : NodeDisks)
    → compare_disks node_name total rs left ≡ ok true
    → (total ≤ℤ left.allocable) × ((can_request_match rs left.infos).0 ≡ true)
unfolding compare_disks
compare_disks-ok node_name total rs left h = ground arith

node_disk_info-HasInt64 :
    (c : Cluster) (node : Node) (disks : List NodeDisk)
    → DecodesInt64 c
    → get_node_disk_info c node ≡ ok disks
    → All (λ d. IsInt64 d.allocable) disks
unfolding get_node_disk_info
node_disk_info-HasInt64 c node disks typed h =
    elim (Bool-cases (annotation node.annotations node_disk_ann == "")) [
      | inl nothing ↦ subst (All (λ d. IsInt64 d.allocable)) (ok-injective (rw nothing at h)) tt
      | inr text ↦
          typed (annotation node.annotations node_disk_ann) disks
            (or_error-eq-ok disks_unmarshal _ (rw text at h))
    ]

disks_left-HasInt64 :
    (c : Cluster) (node : Node) (disks : List NodeDisk) (left : NodeDisks)
    → All (λ d. IsInt64 d.allocable) disks
    → disks_left c node disks ≡ ok left
    → All HasInt64 left.infos
unfolding disks_left
disks_left-HasInt64 c node [] left h e =
    subst (λ (r : NodeDisks). All HasInt64 r.infos) (ok-injective e) tt
disks_left-HasInt64 c node (d ∷ ds) left h e =
    let (info, _, made) = >>=-eq-ok (node_mount_info c node.name) _ e in
    subst (λ (r : NodeDisks). All HasInt64 r.infos) (ok-injective made)
      (left_on-HasInt64 (d ∷ ds) info.mount_infos h)

node_disks-HasInt64 :
    (c : Cluster) (node : Node) (left : NodeDisks)
    → DecodesInt64 c
    → node_disks c node ≡ ok left
    → All HasInt64 left.infos
unfolding node_disks
node_disks-HasInt64 c node left typed e =
    let (disks, read, made) = >>=-eq-ok (get_node_disk_info c node) (disks_left c node) e in
    disks_left-HasInt64 c node disks left (node_disk_info-HasInt64 c node disks typed read) made

is_zero-eq : (n : ℤ) → n ≢ pos 0 → is_zero n ≡ false
is_zero-eq (pos zero) h = absurd (h refl)
is_zero-eq (pos (suc n)) h = ground arith
is_zero-eq (negsuc n) h = ground arith

is_empty-eq : (ds : List DiskInfo) → ds ≢ [] → is_empty ds ≡ false
is_empty-eq [] h = absurd (h refl)
is_empty-eq (d ∷ ds) h = refl

-- An accepted request went through the comparison with the disks.
compared_with :
    (c : Cluster) (pod : Pod) (node : Node) (request : PodDisks)
    → pod_disks c pod node.name ≡ ok request
    → request.has_hostpath ≡ true
    → request.infos ≢ []
    → request.total ≢ pos 0
    → disk_pressure_match c pod node ≡ ok true
    → (left : NodeDisks) × (node_disks c node ≡ ok left)
      × (compare_disks node.name request.total request.infos left ≡ ok true)
unfolding disk_pressure_match
compared_with c pod node request e hp some_infos some_total h =
    let h' =
      rw (e, hp, is_zero-eq request.total some_total, is_empty-eq request.infos some_infos) at h in
    let (left, found, compared) =
      >>=-eq-ok (or_error (predicate_node_disks disk_pressure_name node.name) (node_disks c node))
        (compare_disks node.name request.total request.infos) h' in
    (left, or_error-eq-ok _ (node_disks c node) found, compared)

-- If a pod needs new directories on a node, of sizes that are not negative and do not add up to 0,
-- and `PodMatchNode` accepts the node, then the disks of the node have been read, the sum of the
-- sizes is at most what the node has left, and each directory can be given to a disk so that no
-- disk is asked for more than it has left.
pub disk_pressure_match-IsPacking :
    (c : Cluster) (pod : Pod) (node : Node) (request : PodDisks)
    → DecodesInt64 c
    → pod_disks c pod node.name ≡ ok request
    → All NotNegative request.infos
    → request.has_hostpath ≡ true
    → request.infos ≢ []
    → request.total ≢ pos 0
    → disk_pressure_match c pod node ≡ ok true
    → (left : NodeDisks) × (node_disks c node ≡ ok left)
      × (request.total ≤ℤ left.allocable)
      × ((ps : List ℕ) × IsPacking ps request.infos left.infos)
disk_pressure_match-IsPacking c pod node request typed e nn hp some_infos some_total h =
    let (left, found, compared) = compared_with c pod node request e hp some_infos some_total h in
    let (fits, matched) = compare_disks-ok node.name request.total request.infos left compared in
    (
      left,
      found,
      fits,
      can_request_match-IsPacking request.infos left.infos nn
          (node_disks-HasInt64 c node left typed found) matched,
    )
