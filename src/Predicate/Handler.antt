-- ===== src/Predicate/Handler.antt =====
-- pkg/algorithm/predicate/predicate.go: a predicate, the answer to a filter request and its route.
pub mod Results
use extender_scheduler.Prelude.{
  String, ◌<>◌, Bool, true, false, Option, none, some, List, [], ◌∷◌, ◌++◌, if◌then◌else◌,
}
use extender_scheduler.Prelude.Dict.{Dict, insert}
use extender_scheduler.Cluster.{Pod, Node, Error, Result, ok, err}
use extender_scheduler.Registry.{Plugin, Registry, regist, init_all, all_ready, install}

-- The methods of a predicate, over the state `S` of the package. A method may change the state.
-- `pod_match_node` is called after `init`: there is no route before.
pub record Predicate (S : Type 0) : Type 0 where
  pub name : String
  pub ready : S → Option Bool
  pub init : S → Option Error × S
  pub pod_match_node : Pod → Node → S → Result Bool × S

-- `schedulerapi.ExtenderArgs`, with the two pointers that are followed.
pub record ExtenderArgs : Type 0 where
  pub pod : Option Pod
  pub nodes : Option (List Node)

-- `schedulerapi.ExtenderFilterResult` as the handler builds it; a failed node has its error.
pub record FilterResult : Type 0 where
  pub nodes : List Node
  pub failed_nodes : Dict Error

module _ {S : Type 0} (p : Predicate S) where
  -- One round of the handler's loop, with the result of the predicate for the node.
  unfoldable pub add_result : Node → Result Bool → FilterResult → FilterResult
  unfolding insert
  add_result node (err e) r = record r { failed_nodes = insert node.name e r.failed_nodes }
  add_result node (ok true) r = record r { nodes = r.nodes ++ node ∷ [] }
  add_result node (ok false) r = r

  unfoldable pub filter_loop : Pod → List Node → FilterResult → S → FilterResult × S
  unfolding add_result
  filter_loop pod [] r s = (r, s)
  filter_loop pod (node ∷ nodes) r s =
      let (result, s') = p.pod_match_node pod node s in
      filter_loop pod nodes (add_result node result r) s'

  abbrev pub no_result : FilterResult
  no_result = record { nodes = []; failed_nodes = [] }

  -- A pod is looked at only if there is a node.
  unfoldable pub filter_nodes : Option Pod → List Node → S → Option FilterResult × S
  unfolding filter_loop
  filter_nodes pod [] s = (some no_result, s)
  filter_nodes none (node ∷ nodes) s = (none, s)
  filter_nodes (some pod) (node ∷ nodes) s =
      let (r, s') = filter_loop pod (node ∷ nodes) no_result s in (some r, s')

  -- `Handler`; `none` is the panic at a nil pointer.
  unfoldable pub handler : ExtenderArgs → S → Option FilterResult × S
  unfolding filter_nodes
  handler args s = elim args.nodes [ none ↦ (none, s) | some nodes ↦ filter_nodes args.pod nodes s ]

-- What a request is answered with.
pub data Response : Type 0 where
  -- Status 400 for a request with no body.
  bad_request : Response
  -- Status 200 with a result that has only an error.
  not_decoded : Error → Response
  filtered : FilterResult → Response
  panicked : Response

abbrev pub respond : {S : Type 0} → Option FilterResult × S → Response × S
respond (none, s) = (panicked, s)
respond (some r, s) = (filtered r, s)

-- `predicateRoute`. The body is what the JSON decoder makes of it; a result is always marshalled.
unfoldable pub predicate_route :
    {S : Type 0} → Predicate S → Option (Result ExtenderArgs) → S → Response × S
unfolding handler
predicate_route p none s = (bad_request, s)
predicate_route p (some (err e)) s = (not_decoded e, s)
predicate_route p (some (ok args)) s = respond (handler p args s)

abbrev pub predicate_plugin : {S : Type 0} → Plugin (Predicate S) S
predicate_plugin = record {
  kind = "Predicate";
  name = λ p. p.name;
  ready = λ p. p.ready;
  init = λ p. p.init;
}

module _ {S : Type 0} where
  unfoldable pub regist_predicate :
      Predicate S → Registry (Predicate S) → Result (Registry (Predicate S))
  unfolding regist
  regist_predicate = regist predicate_plugin

  unfoldable pub init_predicates :
      Registry (Predicate S) → S → Option Error × Registry (Predicate S) × S
  unfolding init_all
  init_predicates = init_all predicate_plugin

  unfoldable pub predicates_ready : Registry (Predicate S) → S → Option Bool
  unfolding all_ready
  predicates_ready = all_ready predicate_plugin

  unfoldable pub install_predicates :
      String → Registry (Predicate S) → Result (List (String × Predicate S))
  unfolding install
  install_predicates api_prefix = install predicate_plugin api_prefix "predicates"
