-- ===== src/Algorithm/PodInfo/Selected.antt =====
-- pkg/algorithm/common.go: which pods the queries return.
use mathlib.Core.Bool.{false≢true}
use mathlib.Core.Option.{some-injective}
use extender_scheduler.Prelude.{
  ◌≡◌, refl, sym, ap, ◌∙◌, ◌↔◌, ◌⊎◌, inl, inr, String, Bool, true, false, ◌||◌, Option, none, some,
  List, [], ◌∷◌, arith, keep, Bool-cases,
}
use extender_scheduler.Prelude.Text.{eq_iff}
use extender_scheduler.Cluster.{Cluster, Pod, succeeded, failed, Volume, Error, ok, err}
use extender_scheduler.Algorithm.PodInfo.{
  is_claim, is_pod_ready, has_claim, is_pod_use_pvc, on_node_with_pvc, list_filtered,
  filter_by_node_and_pvc,
}

-- `x` is an element of the list.
abbrev pub Among : {A : Type 0} → A → List A → Type 0
Among x [] = ⊥
Among x (y ∷ ys) = (x ≡ y) ⊎ Among x ys

abbrev pub Claims : String → List Volume → Type 0
Claims claim [] = ⊥
Claims claim (v ∷ vs) = (v.claim_name ≡ some claim) ⊎ Claims claim vs

-- A pod that has not ended and is not being deleted.
abbrev pub IsActive : Pod → Type 0
IsActive p = (p.phase ≡ succeeded → ⊥) × (p.phase ≡ failed → ⊥) × (p.deleting ≡ false)

module _ {A : Type 0} (f : A → Bool) (x y : A) (ys : List A) where
  Among-kept :
      f y ≡ true
      → Among x (keep f ys) ↔ (Among x ys × (f x ≡ true))
      → Among x (y ∷ keep f ys) ↔ (Among x (y ∷ ys) × (f x ≡ true))
  Among-kept e ih = (into, out)
    where
      into : Among x (y ∷ keep f ys) → Among x (y ∷ ys) × (f x ≡ true)
      into (inl same) = (inl same, rw same e)
      into (inr later) = let (m, t) = ih.0 later in (inr m, t)

      out : Among x (y ∷ ys) × (f x ≡ true) → Among x (y ∷ keep f ys)
      out (inl same, t) = inl same
      out (inr later, t) = inr (ih.1 (later, t))

  Among-dropped :
      f y ≡ false
      → Among x (keep f ys) ↔ (Among x ys × (f x ≡ true))
      → Among x (keep f ys) ↔ (Among x (y ∷ ys) × (f x ≡ true))
  Among-dropped e ih = (into, out)
    where
      into : Among x (keep f ys) → Among x (y ∷ ys) × (f x ≡ true)
      into later = let (m, t) = ih.0 later in (inr m, t)

      out : Among x (y ∷ ys) × (f x ≡ true) → Among x (keep f ys)
      out (inl same, t) = absurd (false≢true (sym e ∙ (rw same at t)))
      out (inr later, t) = ih.1 (later, t)

pub Among-keep :
    {A : Type 0} (f : A → Bool) (x : A) (ys : List A)
    → Among x (keep f ys) ↔ (Among x ys × (f x ≡ true))
Among-keep f x [] = (λ h. absurd h, λ h. absurd h.0)
Among-keep f x (y ∷ ys) = elim (Bool-cases (f y)) [
  | inl e ↦ rw e (Among-kept f x y ys e (Among-keep f x ys))
  | inr e ↦ rw e (Among-dropped f x y ys e (Among-keep f x ys))
]

or-cases : (a b : Bool) → (a || b) ≡ true → (a ≡ true) ⊎ (b ≡ true)
or-cases true b h = inl refl
or-cases false b h = inr h

or-true : (a : Bool) → (a || true) ≡ true
or-true true = refl
or-true false = refl

is_claim_iff : (claim : String) (o : Option String) → (is_claim claim o ≡ true) ↔ (o ≡ some claim)
is_claim_iff claim none = (λ h. cc, λ h. cc)
is_claim_iff claim (some s) =
    (λ h. ap some ((eq_iff s claim).0 h), λ h. (eq_iff s claim).1 (some-injective s claim h))

has_claim_iff : (claim : String) (vs : List Volume) → (has_claim claim vs ≡ true) ↔ Claims claim vs
unfolding has_claim
has_claim_iff claim [] = (λ h. false≢true h, λ h. absurd h)
has_claim_iff claim (v ∷ vs) =
    let here = is_claim_iff claim v.claim_name in
    let later = has_claim_iff claim vs in
    (
      λ h. elim (or-cases (is_claim claim v.claim_name) (has_claim claim vs) h) [
        | inl e ↦ inl (here.0 e)
        | inr e ↦ inr (later.0 e)
      ],
      λ h. elim h [
        | inl e ↦ rw (here.1 e)
        | inr e ↦ rw (later.1 e) (or-true (is_claim claim v.claim_name))
      ],
    )

is_pod_ready_iff : (p : Pod) → (is_pod_ready p ≡ true) ↔ IsActive p
unfolding is_pod_ready
is_pod_ready_iff p = (λ h. ground arith, λ h. ground arith)

-- What `FilterByNodeAndPVC` asks of a pod.
pub record IsUser (node_name pvc_namespace pvc_name : String) (all : Bool) (p : Pod) : Type 0 where
  pub runs_on : (node_name ≡ "") ⊎ (p.node_name ≡ node_name)
  pub in_namespace : p.namespace ≡ pvc_namespace
  pub claims : Claims pvc_name p.volumes
  pub active : (all ≡ true) ⊎ IsActive p

on_node_with_pvc_iff :
    (n ns claim : String) (all : Bool) (p : Pod)
    → (on_node_with_pvc n ns claim all p ≡ true) ↔ IsUser n ns claim all p
unfolding on_node_with_pvc is_pod_use_pvc
on_node_with_pvc_iff n ns claim all p =
    let claims = has_claim_iff claim p.volumes in
    let ready = is_pod_ready_iff p in
    (
      λ h. record {
        runs_on = ground (arith, eq_iff n "", eq_iff p.node_name n);
        in_namespace = ground (arith, eq_iff p.namespace ns);
        claims = claims.0 (ground arith);
        active = ground arith;
      },
      λ h.
          (ground
            (arith, eq_iff n "", eq_iff p.node_name n, eq_iff p.namespace ns, claims.1 h.claims)),
    )

-- `FilterByNodeAndPVC` fails only if the lister does, with its error. Otherwise its result has
-- exactly the pods of the lister that are on the node, or anywhere for an empty name, are in the
-- namespace of the claim, have a volume of that claim and, unless all are asked for, are active.
pub filter_by_node_and_pvc_lem :
    (c : Cluster) (n ns claim : String) (all : Bool)
    → ((e : Error) → c.list_pods ≡ err e → filter_by_node_and_pvc c n ns claim all ≡ err e)
      × ((pods : List Pod)
          → c.list_pods ≡ ok pods
          → (found : List Pod) × (filter_by_node_and_pvc c n ns claim all ≡ ok found)
            × ((p : Pod) → Among p found ↔ (Among p pods × IsUser n ns claim all p)))
unfolding filter_by_node_and_pvc list_filtered
filter_by_node_and_pvc_lem c n ns claim all = (
  λ e h. rw h,
  λ pods h. (
    keep (on_node_with_pvc n ns claim all) pods,
    rw h,
    λ p.
        let found = Among-keep (on_node_with_pvc n ns claim all) p pods in
        let test = on_node_with_pvc_iff n ns claim all p in
        (λ m. ((found.0 m).0, test.0 (found.0 m).1), λ m. found.1 (m.0, test.1 m.1)),
  ),
)
