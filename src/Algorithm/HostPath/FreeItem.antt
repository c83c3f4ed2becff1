-- ===== src/Algorithm/HostPath/FreeItem.antt =====
-- pkg/algorithm/hostpathpv.go: when a volume has a free directory on a node.
use extender_scheduler.Prelude.{
  ◌≡◌, ◌≢◌, refl, ap, ◌∙◌, String, true, false, Option, none, some, List, [], ◌∷◌, ◌++◌, arith, ltb,
  length, All,
}
use extender_scheduler.Prelude.Text.{eq_iff}
use extender_scheduler.Cluster.{
  Cluster, Pod, Pv, ClaimRef, NodeMounts, ok, err, not_hostpath, pv_not_bound,
}
use extender_scheduler.Algorithm.PodInfo.{filter_by_node_and_pvc}
use extender_scheduler.Algorithm.HostPath.{
  is_common_host_path_pv, is_shared_host_path_pv, is_keep_host_path_pv, mount_info_list, find_node,
  is_mount_on_node, free_item, has_empty_item, has_empty_item_for_node,
}

abbrev pub HasNoEntry : String → List NodeMounts → Type 0
HasNoEntry node infos = All (λ info. info.node_name ≢ node) infos

-- The first of the entries that is the node's.
pub record IsFirstEntry (node : String) (infos : List NodeMounts) (info : NodeMounts) : Type 0 where
  pub before : List NodeMounts
  pub after : List NodeMounts
  pub split : infos ≡ before ++ info ∷ after
  pub others : HasNoEntry node before
  pub named : info.node_name ≡ node

find_node-none :
    (node : String) (infos : List NodeMounts) → HasNoEntry node infos → find_node node infos ≡ none
find_node-none node [] h = refl
find_node-none node (info ∷ infos) h =
    ground (arith, find_node-none node infos h.1, eq_iff info.node_name node)

find_node-split :
    (node : String) (before after : List NodeMounts) (info : NodeMounts)
    → HasNoEntry node before
    → info.node_name ≡ node
    → find_node node (before ++ info ∷ after) ≡ some info
find_node-split node [] after info h e = rw ((eq_iff info.node_name node).1 e) refl
find_node-split node (b ∷ before) after info h e =
    ground (arith, find_node-split node before after info h.1 e, eq_iff b.node_name node)

find_node-first :
    (node : String) (infos : List NodeMounts) (info : NodeMounts)
    → IsFirstEntry node infos info
    → find_node node infos ≡ some info
find_node-first node infos info f =
    ap (find_node node) f.split ∙ find_node-split node f.before f.after info f.others f.named

module _ (c : Cluster) (pv : Pv) (node : String) where
  is_mount_on_node_lem :
      (infos : List NodeMounts)
      → mount_info_list c pv ≡ ok infos
      → (HasNoEntry node infos → is_mount_on_node c pv node ≡ false)
        × ((info : NodeMounts) → IsFirstEntry node infos info → is_mount_on_node c pv node ≡ true)
  unfolding is_mount_on_node
  is_mount_on_node_lem infos read = (
    λ h. rw read (
        ap (λ (o : Option NodeMounts). elim o [ none ↦ false | some entry ↦ true ])
          (find_node-none node infos h)),
    λ info f. rw read (
        ap (λ (o : Option NodeMounts). elim o [ none ↦ false | some entry ↦ true ])
          (find_node-first node infos info f)),
  )

  has_empty_item-none :
      (infos : List NodeMounts) (ref : ClaimRef)
      → pv.claim_ref ≡ some ref
      → HasNoEntry node infos
      → has_empty_item c pv node infos ≡ ok false
  unfolding has_empty_item free_item
  has_empty_item-none [] ref bound h = refl
  has_empty_item-none (info ∷ infos) ref bound h =
      rw (bound, find_node-none node (info ∷ infos) h) refl

  has_empty_item-first :
      (infos : List NodeMounts) (ref : ClaimRef) (info : NodeMounts) (pods : List Pod)
      → pv.claim_ref ≡ some ref
      → filter_by_node_and_pvc c node ref.namespace ref.name false ≡ ok pods
      → IsFirstEntry node infos info
      → has_empty_item c pv node infos ≡ ok (ltb (length pods) (length info.mount_infos))
  unfolding has_empty_item free_item
  has_empty_item-first [] ref info pods bound users f =
      absurd (nothing_found (find_node-first node [] info f))
    where
      nothing_found : none ≢ some info
      nothing_found e = cc
  has_empty_item-first (first ∷ infos) ref info pods bound users f =
      rw (bound, find_node-first node (first ∷ infos) info f, users) (ap ok (ground arith))

  has_empty_item-unbound :
      (infos : List NodeMounts)
      → pv.claim_ref ≡ none
      → infos ≢ []
      → has_empty_item c pv node infos ≡ err (pv_not_bound pv.name)
  unfolding has_empty_item
  has_empty_item-unbound [] unbound some_entry = absurd (some_entry refl)
  has_empty_item-unbound (info ∷ infos) unbound some_entry = rw unbound refl

  has_empty_item-empty : has_empty_item c pv node [] ≡ ok false
  unfolding has_empty_item
  has_empty_item-empty = refl

-- Whether a volume has a free directory on a node, in all cases in which the volume's annotation and the
-- pods can be read. For a volume that is not a hostpath volume the answer is an error. One that pods share
-- has one exactly if an entry of its annotation is the node's. One with a directory for each pod that is
-- not kept has none. One that is kept and bound has none on a node without an entry, and on any other
-- exactly if the first entry of the node has more directories than active pods on the node use the claim.
-- One that is kept and not bound has none if its annotation has no entry, and else the answer is an error.
pub has_empty_item_for_node_lem :
    (c : Cluster) (pv : Pv) (node : String) (infos : List NodeMounts)
    → mount_info_list c pv ≡ ok infos
    → (is_common_host_path_pv (some pv) ≡ false
        → has_empty_item_for_node c pv node ≡ err (not_hostpath pv.name))
      × (is_common_host_path_pv (some pv) ≡ true
          → is_shared_host_path_pv pv ≡ true
          → (HasNoEntry node infos → has_empty_item_for_node c pv node ≡ ok false)
            × ((info : NodeMounts)
                → IsFirstEntry node infos info
                → has_empty_item_for_node c pv node ≡ ok true))
      × (is_common_host_path_pv (some pv) ≡ true
          → is_shared_host_path_pv pv ≡ false
          → is_keep_host_path_pv pv ≡ false
          → has_empty_item_for_node c pv node ≡ ok false)
      × (is_common_host_path_pv (some pv) ≡ true
          → is_shared_host_path_pv pv ≡ false
          → is_keep_host_path_pv pv ≡ true
          → ((ref : ClaimRef)
              → pv.claim_ref ≡ some ref
              → HasNoEntry node infos
              → has_empty_item_for_node c pv node ≡ ok false)
            × ((ref : ClaimRef) (info : NodeMounts) (pods : List Pod)
                → pv.claim_ref ≡ some ref
                → filter_by_node_and_pvc c node ref.namespace ref.name false ≡ ok pods
                → IsFirstEntry node infos info
                → has_empty_item_for_node c pv node
                  ≡ ok (ltb (length pods) (length info.mount_infos)))
            × (pv.claim_ref ≡ none
                → infos ≢ []
                → has_empty_item_for_node c pv node ≡ err (pv_not_bound pv.name))
            × (infos ≡ [] → has_empty_item_for_node c pv node ≡ ok false))
unfolding has_empty_item_for_node
has_empty_item_for_node_lem c pv node infos read = (
  λ common. rw common refl,
  λ common shared. (
    λ h. rw (common, shared) (ap ok ((is_mount_on_node_lem c pv node infos read).0 h)),
    λ info f. rw (common, shared) (ap ok ((is_mount_on_node_lem c pv node infos read).1 info f)),
  ),
  λ common shared keep. rw (common, shared, keep) refl,
  λ common shared keep. (
    λ ref bound h.
        rw (common, shared, keep, read) (has_empty_item-none c pv node infos ref bound h),
    λ ref info pods bound users f.
        rw (common, shared, keep, read)
          (has_empty_item-first c pv node infos ref info pods bound users f),
    λ unbound some_entry.
        rw (common, shared, keep, read) (has_empty_item-unbound c pv node infos unbound some_entry),
    λ no_entry. rw (common, shared, keep, read, no_entry) (has_empty_item-empty c pv node),
  ),
)
