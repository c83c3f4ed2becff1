-- ===== src/Predicate/ConfigServer/ListingLaws.antt =====
-- pkg/algorithm/predicate/namespaces_nodeselector_httpserver.go: the labels that are listed.
use extender_scheduler.Prelude.{
  ◌≡◌, sym, ap, ◌∙◌, String, Bool, false, ◌&&◌, ◌||◌, Bool-cases, inl, inr, List, [], ◌∷◌, arith,
  if◌then◌else◌,
}
use extender_scheduler.Prelude.Text.{◌==◌, eq_iff}
use extender_scheduler.Prelude.Dict.{Dict, lookup, lookup-insert, has_key, add_key, has_key-add_key}
use extender_scheduler.Cluster.{Node}
use extender_scheduler.Predicate.NodeSelector.{LabelValues, system_label, values_at, value_of}
use extender_scheduler.Predicate.ConfigServer.{add_label, add_labels, add_nodes, system_labels}

-- A node has the label with the value.
abbrev pub has_entry : String → String → Dict String → Bool
has_entry k v [] = false
has_entry k v ((j, w) ∷ labels) = j == k && w == v || has_entry k v labels

abbrev pub some_node_has : String → String → List Node → Bool
some_node_has k v [] = false
some_node_has k v (node ∷ nodes) = has_entry k v node.labels || some_node_has k v nodes

values_at-add_label :
    (j w : String) (lvs : LabelValues) (k : String)
    → values_at k (add_label j w lvs)
      ≡ (if j == k then add_key w (values_at j lvs) else values_at k lvs)
unfolding add_label values_at
values_at-add_label j w lvs k =
    ap value_of (lookup-insert j k (add_key w (value_of (lookup j lvs))) lvs) ∙ ground arith

add_label_lem :
    (j w : String) (lvs : LabelValues) (k v : String)
    → has_key v (values_at k (add_label j w lvs))
      ≡ (has_key v (values_at k lvs) || (j == k && w == v))
add_label_lem j w lvs k v = elim (Bool-cases (j == k)) [
  | inl e ↦
      let same = (eq_iff j k).0 e in
      rw (values_at-add_label, e, sym same) (has_key-add_key w v (values_at j lvs))
  | inr e ↦ rw (values_at-add_label, e) (ground arith)
]

add_labels_lem :
    (labels : Dict String) (lvs : LabelValues) (k v : String)
    → has_key v (values_at k (add_labels labels lvs))
      ≡ (has_key v (values_at k lvs) || has_entry k v labels)
unfolding add_labels
add_labels_lem [] lvs k v = ground arith
add_labels_lem ((j, w) ∷ labels) lvs k v =
    add_labels_lem labels (add_label j w lvs) k v ∙ ground (arith, add_label_lem j w lvs k v)

add_nodes_from :
    (nodes : List Node) (lvs : LabelValues) (k v : String)
    → has_key v (values_at k (add_nodes nodes lvs))
      ≡ (has_key v (values_at k lvs) || some_node_has k v nodes)
unfolding add_nodes
add_nodes_from [] lvs k v = ground arith
add_nodes_from (node ∷ nodes) lvs k v =
    add_nodes_from nodes (add_labels node.labels lvs) k v
    ∙ ground (arith, add_labels_lem node.labels lvs k v)

-- Among the labels that `NsNodeSelectorNodeLabels` collects a key has a value exactly if some node has the
-- label with that value, or if they are the system label and the star.
pub add_nodes_lem :
    (nodes : List Node) (k v : String)
    → has_key v (values_at k (add_nodes nodes system_labels))
      ≡ ((system_label == k && "*" == v) || some_node_has k v nodes)
unfolding values_at lookup has_key
add_nodes_lem nodes k v = add_nodes_from nodes system_labels k v ∙ ground arith
