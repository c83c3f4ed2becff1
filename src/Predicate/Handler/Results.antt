-- ===== src/Predicate/Handler/Results.antt =====
-- pkg/algorithm/predicate/predicate.go: what a filter request is answered with.
use mathlib.Core.List.{append-nil, append_assoc}
use extender_scheduler.Prelude.{
  ◌≡◌, refl, sym, ◌∙◌, String, Bool, true, false, Option, none, some, List, [], ◌∷◌, ◌++◌, arith,
  if◌then◌else◌,
}
use extender_scheduler.Prelude.Text.{◌==◌}
use extender_scheduler.Prelude.Dict.{lookup, lookup-insert}
use extender_scheduler.Cluster.{Pod, Node, Error, Result, ok, err}
use extender_scheduler.Predicate.Handler.{
  Predicate, ExtenderArgs, FilterResult, add_result, filter_loop, filter_nodes, no_result, handler,
}

-- A node with the answer that the predicate gave for it.
pub record Asked : Type 0 where
  pub node : Node
  pub result : Result Bool

-- The nodes with the answer yes, in their order.
abbrev pub accepted : List Asked → List Node
accepted [] = []
accepted (a ∷ rest) = elim a.result [
  | ok b ↦ if b then a.node ∷ accepted rest else accepted rest
  | err e ↦ accepted rest
]

abbrev or_later : Option Error → Option Error → Option Error
or_later none e = e
or_later (some e) _ = some e

or_later-none : (e : Option Error) → or_later e none ≡ e
or_later-none none = refl
or_later-none (some e) = refl

abbrev error_of : Result Bool → Option Error
error_of (ok b) = none
error_of (err e) = some e

-- The last error for a node of that name.
abbrev pub last_error : String → List Asked → Option Error
last_error k [] = none
last_error k (a ∷ rest) =
    or_later (last_error k rest) (if a.node.name == k then error_of a.result else none)

module _ {S : Type 0} (p : Predicate S) (pod : Pod) where
  -- The predicate is asked for one node after the other, each time in the state that it left.
  abbrev pub answers : List Node → S → List Asked
  answers [] s = []
  answers (node ∷ nodes) s =
      let (result, s') = p.pod_match_node pod node s in
      record { node = node; result = result } ∷ answers nodes s'

  abbrev pub state_after : List Node → S → S
  state_after [] s = s
  state_after (node ∷ nodes) s = state_after nodes (p.pod_match_node pod node s).1

  filter_loop-state :
      (nodes : List Node) (r : FilterResult) (s : S)
      → (filter_loop p pod nodes r s).1 ≡ state_after nodes s
  unfolding filter_loop
  filter_loop-state [] r s = refl
  filter_loop-state (node ∷ nodes) r s = filter_loop-state nodes _ _

  add_result-nodes :
      (node : Node) (result : Result Bool) (r : FilterResult) (rest : List Asked)
      → (add_result p node result r).nodes ++ accepted rest
        ≡ r.nodes ++ accepted (record { node = node; result = result } ∷ rest)
  unfolding add_result
  add_result-nodes node (ok true) r rest = append_assoc r.nodes (node ∷ []) (accepted rest)
  add_result-nodes node (ok false) r rest = refl
  add_result-nodes node (err e) r rest = refl

  filter_loop-nodes :
      (nodes : List Node) (r : FilterResult) (s : S)
      → (filter_loop p pod nodes r s).0.nodes ≡ r.nodes ++ accepted (answers nodes s)
  unfolding filter_loop
  filter_loop-nodes [] r s = sym (append-nil r.nodes)
  filter_loop-nodes (node ∷ nodes) r s =
      let (result, s') = p.pod_match_node pod node s in
      filter_loop-nodes nodes (add_result p node result r) s'
      ∙ add_result-nodes node result r (answers nodes s')

  add_result-failed :
      (k : String) (node : Node) (result : Result Bool) (r : FilterResult) (later : Option Error)
      → or_later later (lookup k (add_result p node result r).failed_nodes)
        ≡ or_later
            (or_later later (if node.name == k then error_of result else none))
            (lookup k r.failed_nodes)
  unfolding add_result
  add_result-failed k node (ok true) r later = ground arith
  add_result-failed k node (ok false) r later = ground arith
  add_result-failed k node (err e) r later = rw lookup-insert (ground arith)

  filter_loop-failed :
      (k : String) (nodes : List Node) (r : FilterResult) (s : S)
      → lookup k (filter_loop p pod nodes r s).0.failed_nodes
        ≡ or_later (last_error k (answers nodes s)) (lookup k r.failed_nodes)
  unfolding filter_loop
  filter_loop-failed k [] r s = refl
  filter_loop-failed k (node ∷ nodes) r s =
      let (result, s') = p.pod_match_node pod node s in
      filter_loop-failed k nodes (add_result p node result r) s'
      ∙ add_result-failed k node result r (last_error k (answers nodes s'))

abbrev pub asked_for : Pod → List Node → ExtenderArgs
asked_for pod nodes = record { pod = some pod; nodes = some nodes }

-- The answer to a request with a pod and nodes has the nodes for which the predicate said yes, in
-- their order, and for a node's name the last error that it gave for a node of that name; a node for
-- which it said no is in neither. The predicate is asked for one node after the other.
pub handler_lem :
    {S : Type 0} (p : Predicate S) (pod : Pod) (nodes : List Node) (s : S)
    → (r : FilterResult) × (handler p (asked_for pod nodes) s ≡ (some r, state_after p pod nodes s))
      × (r.nodes ≡ accepted (answers p pod nodes s))
      × ((k : String) → lookup k r.failed_nodes ≡ last_error k (answers p pod nodes s))
unfolding handler filter_nodes lookup
handler_lem p pod [] s = (no_result p, refl, refl, λ k. refl)
handler_lem p pod (node ∷ nodes) s = (
  (filter_loop p pod (node ∷ nodes) (no_result p) s).0,
  λ i. (
    some (filter_loop p pod (node ∷ nodes) (no_result p) s).0,
    filter_loop-state p pod (node ∷ nodes) (no_result p) s i,
  ),
  filter_loop-nodes p pod (node ∷ nodes) (no_result p) s,
  λ k. filter_loop-failed p pod k (node ∷ nodes) (no_result p) s ∙ or_later-none _,
)
