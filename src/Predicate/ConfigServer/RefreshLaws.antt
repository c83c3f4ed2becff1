-- ===== src/Predicate/ConfigServer/RefreshLaws.antt =====
-- pkg/algorithm/predicate/namespaces_nodeselector_httpserver.go: the pods that `NsNodeSelectorRefresh`
-- deletes.
use mathlib.Core.List.{append_assoc, append-nil}
use extender_scheduler.Prelude.{
  ◌≡◌, refl, sym, ap, ◌∙◌, inl, inr, String, Bool, true, false, not, ◌&&◌, ◌||◌, Bool-cases, Option,
  none, some, List, [], ◌∷◌, ◌++◌, keep, if◌then◌else◌,
}
use extender_scheduler.Prelude.Text.{◌==◌}
use extender_scheduler.Prelude.Dict.{Dict, has_key}
use extender_scheduler.Cluster.{Pod, Node, Error, Result, ok, err}
use extender_scheduler.Predicate.NodeSelector.{NsConfigItem, Selectors, ConfigMap, config_text}
use extender_scheduler.Predicate.NodeSelector.Permits.{
  Names, IsParsing, permits, item_of, HasNames, selector_lem,
}
use extender_scheduler.Predicate.ConfigServer.{
  Answer, answered, failed, Refreshed, add_deletion, delete_if, refresh_loop, refreshed,
  nothing_refreshed, final_msg, ok_nodes, node_names, is_misplaced, refresh_pods, refresh,
  selector_for,
}

module _ (delete_pod : Pod → Option String) (names : List String) where
  add_deletion-deletions :
      (pod : Pod) (o : Option String) (r : Refreshed)
      → (add_deletion delete_pod pod o r).deletions ≡ r.deletions ++ pod ∷ []
  add_deletion-deletions pod none r = refl
  add_deletion-deletions pod (some e) r = refl

  delete_if-deletions :
      (b : Bool) (pod : Pod) (r : Refreshed) (rest : List Pod)
      → (delete_if delete_pod b pod r).deletions ++ rest
        ≡ r.deletions ++ (if b then pod ∷ rest else rest)
  delete_if-deletions true pod r rest =
      ap (λ l. l ++ rest) (add_deletion-deletions pod (delete_pod pod) r)
      ∙ append_assoc r.deletions (pod ∷ []) rest
  delete_if-deletions false pod r rest = refl

  refresh_loop-deletions :
      (pods : List Pod) (r : Refreshed)
      → (refresh_loop delete_pod names pods r).deletions
        ≡ r.deletions ++ keep (is_misplaced names) pods
  unfolding refresh_loop
  refresh_loop-deletions [] r = sym (append-nil r.deletions)
  refresh_loop-deletions (pod ∷ pods) r =
      refresh_loop-deletions pods (delete_if delete_pod (is_misplaced names pod) pod r)
      ∙ delete_if-deletions (is_misplaced names pod) pod r (keep (is_misplaced names) pods)

is_misplaced_lem :
    (names : List String) (b : Bool) (pod : Pod)
    → has_key pod.node_name names ≡ b
    → is_misplaced names pod ≡ (not (pod.node_name == "") && not b)
unfolding is_misplaced
is_misplaced_lem names b pod h = ap (λ x. not (pod.node_name == "") && not x) h

-- A node of the name is given whose labels the item permits.
abbrev pub is_permitted : Option NsConfigItem → List Node → String → Bool
is_permitted item [] name = false
is_permitted item (node ∷ nodes) name =
    permits item node.labels && node.name == name || is_permitted item nodes name

module _ (X : Selectors) (s : X.Selector) (item : Option NsConfigItem)
    (means : (labels : Dict String) → X.matches s labels ≡ permits item labels) where
  has_key-ok_nodes :
      (nodes : List Node) (name : String)
      → has_key name (node_names (ok_nodes X s nodes)) ≡ is_permitted item nodes name
  unfolding ok_nodes has_key
  has_key-ok_nodes [] name = refl
  has_key-ok_nodes (node ∷ nodes) name = elim (Bool-cases (permits item node.labels)) [
    | inl e ↦ rw (means node.labels, e, has_key-ok_nodes nodes name) refl
    | inr e ↦ rw (means node.labels, e, has_key-ok_nodes nodes name) refl
  ]

keep-ext :
    {A : Type 0} (f g : A → Bool)
    → ((a : A) → f a ≡ g a)
    → (rest : List A) → keep f rest ≡ keep g rest
keep-ext f g h [] = refl
keep-ext f g h (a ∷ rest) = rw (h a, keep-ext f g h rest) refl

final_msg-code : (r : Refreshed) → (final_msg r).code ≡ 0
unfolding final_msg
final_msg-code r = message_code r.err_msg
  where
    message_code : (es : List String) → (final_msg (record r { err_msg = es })).code ≡ 0
    message_code [] = refl
    message_code (e ∷ es) = refl

-- The pods that a refresh is to delete: those on a node, but not on a given one that the item permits.
abbrev pub misplaced : Option NsConfigItem → List Node → List Pod → List Pod
misplaced item nodes =
    keep (λ pod. not (pod.node_name == "") && not (is_permitted item nodes pod.node_name))

refresh_pods-failed :
    (X : Selectors) (error_text : Error → String) (delete_pod : Pod → Option String)
    (r : Result X.Selector) (nodes : List Node) (e : String)
    → ((refresh_pods X error_text delete_pod r nodes (failed e)).1 ≡ [])
      × ((refresh_pods X error_text delete_pod r nodes (failed e)).0.code ≡ 1)
unfolding refresh_pods
refresh_pods-failed X error_text delete_pod (err x) nodes e = (refl, refl)
refresh_pods-failed X error_text delete_pod (ok s) nodes e = (refl, refl)

-- A refresh for which the nodes and the pods are known, and the namespace's item has valid names, deletes
-- exactly the pods that run on a node other than a known one that the item permits, each once and in
-- their order, and answers with the code 0, had the deletions failed or not. All four maps of the item
-- decide what it permits: `Match` and `NotMatch` too, although the comments on these two fields say that no
-- pod is deleted for them. Whatever the item is, if the API server does not give the nodes or the pods, no
-- pod is deleted and the code is 1.
pub refresh_lem :
    (X : Selectors) (N : Names) (R : IsParsing X N) (error_text : Error → String)
    (delete_pod : Pod → Option String) (cm : ConfigMap) (ns : String) (nodes : List Node)
    → (HasNames N (item_of (X.decode_config (config_text (some cm))) ns)
        → (pods : List Pod)
        → ((refresh X error_text delete_pod (answered nodes) cm ns (answered pods)).1
            ≡ misplaced (item_of (X.decode_config (config_text (some cm))) ns) nodes pods)
          × ((refresh X error_text delete_pod (answered nodes) cm ns (answered pods)).0.code ≡ 0))
      × ((e : String) (pods : Answer (List Pod))
          → ((refresh X error_text delete_pod (failed e) cm ns pods).1 ≡ [])
            × ((refresh X error_text delete_pod (failed e) cm ns pods).0.code ≡ 1))
      × ((e : String)
          → ((refresh X error_text delete_pod (answered nodes) cm ns (failed e)).1 ≡ [])
            × ((refresh X error_text delete_pod (answered nodes) cm ns (failed e)).0.code ≡ 1))
unfolding refresh refresh_pods
refresh_lem X N R error_text delete_pod cm ns nodes = (
  λ named pods.
      let (s, made, means) = selector_lem X N R cm ns named in
      let item = item_of (X.decode_config (config_text (some cm))) ns in
      let names = node_names (ok_nodes X s nodes) in
      rw made (
        refresh_loop-deletions delete_pod names pods nothing_refreshed
            ∙ keep-ext (is_misplaced names) _
                (λ pod.
                  is_misplaced_lem names (is_permitted item nodes pod.node_name) pod
                    (has_key-ok_nodes X s item means nodes pod.node_name))
                pods,
        final_msg-code (refreshed X error_text delete_pod s nodes pods),
      ),
  λ e pods. (refl, refl),
  λ e. refresh_pods-failed X error_text delete_pod (selector_for X error_text cm ns) nodes e,
)
