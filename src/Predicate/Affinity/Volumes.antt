-- ===== src/Predicate/Affinity/Volumes.antt =====
-- pkg/algorithm/predicate/hostpathpv_affinity.go: `PodMatchNode` over all volumes of a pod.
use extender_scheduler.Prelude.{
  ◌≡◌, ◌≢◌, refl, sym, ap, ◌∙◌, ◌↔◌, String, Bool, true, false, not, List, [], ◌∷◌, ◌++◌, All, inl,
  inr, if◌then◌else◌,
}
use extender_scheduler.Cluster.{Cluster, Pod, Node, Volume, Result, ok, err, ◌>>=◌, Result-cases}
use extender_scheduler.Predicate.Affinity.{pod_pv_match_node, match_volumes, affinity_match}

-- The round of one volume, with the answer for the volumes behind it.
abbrev round : Result Bool → Result Bool → Result Bool
round r rest = r >>= λ matches. if not matches then ok false else rest

round-true :
    (r rest : Result Bool) {P : Type 0}
    → (rest ≡ ok true) ↔ P
    → (round r rest ≡ ok true) ↔ ((r ≡ ok true) × P)
round-true (ok true) rest e = (λ h. (refl, e.0 h), λ h. e.1 h.1)
round-true (ok false) rest e = (λ h. cc, λ h. cc)
round-true (err x) rest e = (λ h. cc, λ h. cc)

-- The first volume of a list that the answer `r` is about.
pub record IsDecidedBy (verdict : Volume → Result Bool) (vs : List Volume) (r : Result Bool)
    : Type 0 where
  pub before : List Volume
  pub volume : Volume
  pub after : List Volume
  pub split : vs ≡ before ++ volume ∷ after
  pub yes_before : All (λ v. verdict v ≡ ok true) before
  pub decides : verdict volume ≡ r

module _ (c : Cluster) (node_name : String) (pod : Pod) where
  abbrev verdict : Volume → Result Bool
  verdict = pod_pv_match_node c node_name pod

  match_volumes-true :
      (vs : List Volume)
      → (match_volumes c node_name pod vs ≡ ok true) ↔ All (λ v. verdict v ≡ ok true) vs
  unfolding match_volumes
  match_volumes-true [] = (λ h. tt, λ h. refl)
  match_volumes-true (v ∷ vs) =
      round-true (verdict v) (match_volumes c node_name pod vs) (match_volumes-true vs)

  decided_here :
      (v : Volume) (vs : List Volume) (r : Result Bool)
      → verdict v ≡ r
      → IsDecidedBy verdict (v ∷ vs) r
  decided_here v vs r e = record {
    before = [];
    volume = v;
    after = vs;
    split = refl;
    yes_before = tt;
    decides = e;
  }

  decided_later :
      (v : Volume) (vs : List Volume) (r : Result Bool)
      → verdict v ≡ ok true
      → IsDecidedBy verdict vs r
      → IsDecidedBy verdict (v ∷ vs) r
  decided_later v vs r e d = record {
    before = v ∷ d.before;
    volume = d.volume;
    after = d.after;
    split = ap (λ l. v ∷ l) d.split;
    yes_before = (e, d.yes_before);
    decides = d.decides;
  }

  match_volumes-IsDecidedBy :
      (vs : List Volume) (r : Result Bool)
      → r ≢ ok true
      → match_volumes c node_name pod vs ≡ r
      → IsDecidedBy verdict vs r
  unfolding match_volumes
  match_volumes-IsDecidedBy [] r no_yes h = absurd (no_yes (sym h))
  match_volumes-IsDecidedBy (v ∷ vs) r no_yes h = elim (Result-cases (verdict v)) [
    | inl (true, e) ↦ decided_later v vs r e (match_volumes-IsDecidedBy vs r no_yes (rw e at h))
    | inl (false, e) ↦ decided_here v vs r (e ∙ (rw e at h))
    | inr (x, e) ↦ decided_here v vs r (e ∙ (rw e at h))
  ]

-- `PodMatchNode` says yes exactly when it does so for every volume of the pod. Any other answer is
-- that for a volume before which all volumes were answered by yes.
pub affinity_match_lem :
    (c : Cluster) (pod : Pod) (node : Node)
    → ((affinity_match c pod node ≡ ok true)
        ↔ All (λ v. pod_pv_match_node c node.name pod v ≡ ok true) pod.volumes)
      × ((r : Result Bool)
          → r ≢ ok true
          → affinity_match c pod node ≡ r
          → IsDecidedBy (pod_pv_match_node c node.name pod) pod.volumes r)
unfolding affinity_match
affinity_match_lem c pod node = (
  match_volumes-true c node.name pod pod.volumes,
  match_volumes-IsDecidedBy c node.name pod pod.volumes,
)
