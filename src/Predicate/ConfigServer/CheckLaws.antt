-- ===== src/Predicate/ConfigServer/CheckLaws.antt =====
-- pkg/algorithm/predicate/namespaces_nodeselector_httpserver.go: `CheckNamespaceSchedulerNodes` against
-- `PodMatchNode`.
use mathlib.Core.Path.{ap₂}
use extender_scheduler.Prelude.{
  if◌then◌else◌, ◌≡◌, refl, sym, ap, ◌∙◌, ◌⊎◌, inl, inr, String, ◌<>◌, Bool, false, List, [], ◌∷◌,
  keep,
}
use extender_scheduler.Prelude.Text.Paths.{join}
use extender_scheduler.Cluster.{
  Pod, Node, Error, Result, ok, err, Result-cases, predicate_selector, or_error, ◌>>=◌,
}
use extender_scheduler.Predicate.NodeSelector.{
  Selectors, ConfigMap, selector_name, select, select_with,
}
use extender_scheduler.Predicate.ConfigServer.{
  ReturnMsg, failure, answered, ok_nodes, node_names, selector_for, check_nodes, check_namespace,
}

abbrev said : Result Bool → Bool
said (ok b) = b
said (err e) = false

keep-ext {ℓ} :
    {A : Type ℓ} (p q : A → Bool) (xs : List A) → ((x : A) → p x ≡ q x) → keep p xs ≡ keep q xs
keep-ext p q [] h = refl
keep-ext p q (x ∷ xs) h = ap₂ (λ b rest. if b then x ∷ rest else rest) (h x) (keep-ext p q xs h)

-- The answer of the server that lists nodes.
abbrev pub listing : List Node → ReturnMsg
listing nodes = record {
  code = 0;
  msg = "OK";
  data_text = "[" <> (join "," (node_names nodes) <> "]");
}

-- The predicate lets the pod on the node.
abbrev pub accepts : Selectors → ConfigMap → Pod → Node → Bool
accepts X cm pod node = said (select_with X cm pod node)

module _ (X : Selectors) (error_text : Error → String) (cm : ConfigMap) (pod : Pod) where
  select_with-selector :
      (node : Node) (r : Result X.Selector)
      → selector_for X error_text cm pod.namespace ≡ r
      → select_with X cm pod node ≡ (
          or_error (predicate_selector selector_name node.name) r >>= λ selector.
          ok (X.matches selector node.labels))
  unfolding select_with select
  select_with-selector node r e =
      ap
        (λ r. or_error (predicate_selector selector_name node.name) r >>= λ selector.
          ok (X.matches selector node.labels))
        e

  keep-accepts :
      (selector : X.Selector) (nodes : List Node)
      → selector_for X error_text cm pod.namespace ≡ ok selector
      → ok_nodes X selector nodes ≡ keep (accepts X cm pod) nodes
  unfolding ok_nodes
  keep-accepts selector nodes e =
      keep-ext (λ node. X.matches selector node.labels) (accepts X cm pod) nodes
        (λ node. sym (ap said (select_with-selector node (ok selector) e)))

  -- For a pod of the namespace and the same config map, the check lists the nodes that the
  -- predicate lets the pod on, in the order of the nodes; or it answers with an error, and then the
  -- predicate fails with this error for every node.
  pub check_namespace-accepts :
      (nodes : List Node)
      → ((check_namespace X error_text (answered nodes) cm pod.namespace
            ≡ listing (keep (accepts X cm pod) nodes))
          × ((node : Node) → (b : Bool) × (select_with X cm pod node ≡ ok b)))
        ⊎ ((e : Error) × (check_namespace X error_text (answered nodes) cm pod.namespace
              ≡ failure (error_text e))
            × ((node : Node)
                → select_with X cm pod node ≡ err (predicate_selector selector_name node.name e)))
  unfolding check_namespace check_nodes
  check_namespace-accepts nodes = elim (Result-cases (selector_for X error_text cm pod.namespace)) [
    | inl (selector, e) ↦ inl (
      ap (λ r. check_nodes X error_text r nodes) e ∙ ap listing (keep-accepts selector nodes e),
      λ node. (X.matches selector node.labels, select_with-selector node (ok selector) e),
    )
    | inr (f, e) ↦ inr (
      f,
      ap (λ r. check_nodes X error_text r nodes) e,
      λ node. select_with-selector node (err f) e,
    )
  ]
