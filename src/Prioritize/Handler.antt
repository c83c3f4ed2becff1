-- ===== src/Prioritize/Handler.antt =====
-- pkg/algorithm/prioritize/prioritize.go: a priority, the answer to a scoring request and its route.
use extender_scheduler.Prelude.{String, Bool, Option, none, some, List, [], ◌∷◌}
use extender_scheduler.Cluster.{Pod, Node, Error, Result, ok, err}
use extender_scheduler.Registry.{Plugin, Registry, regist, init_all, all_ready, install}
use extender_scheduler.Predicate.Handler.{ExtenderArgs}
use extender_scheduler.Prioritize.Scoring.{HostPriority, Scores}

-- The methods of a priority, over the state `S` of the package.
pub record Prioritize (S : Type 0) : Type 0 where
  pub name : String
  pub ready : S → Option Bool
  pub init : S → Option Error × S
  pub nodes_scoring : Pod → List Node → S → Scores

-- What a request is answered with. An error of the decoder or of the priority is a panic.
pub data Response : Type 0 where
  bad_request : Response
  scored : List HostPriority → Response
  panicked : Response

abbrev pub answer : Scores → Response
answer r = elim r.failed [ [] ↦ scored r.priority_list | e ∷ es ↦ panicked ]

module _ {S : Type 0} (p : Prioritize S) where
  -- `Handler`, with the panic at a nil pointer. A goroutine for a node reads the pod; with no nodes
  -- nothing does.
  score_nodes : Option Pod → List Node → S → Response
  score_nodes none [] s = scored []
  score_nodes none (node ∷ nodes) s = panicked
  score_nodes (some pod) nodes s = answer (p.nodes_scoring pod nodes s)

  score_args : ExtenderArgs → S → Response
  unfolding score_nodes
  score_args args s = elim args.nodes [
    | none ↦ panicked
    | some nodes ↦ score_nodes args.pod nodes s
  ]

  -- `prioritieRoute`
  unfoldable pub prioritie_route : Option (Result ExtenderArgs) → S → Response
  unfolding score_args
  prioritie_route none s = bad_request
  prioritie_route (some (err e)) s = panicked
  prioritie_route (some (ok args)) s = score_args args s

abbrev pub prioritize_plugin : {S : Type 0} → Plugin (Prioritize S) S
prioritize_plugin = record {
  kind = "Prioritize";
  name = λ p. p.name;
  ready = λ p. p.ready;
  init = λ p. p.init;
}

module _ {S : Type 0} where
  unfoldable pub regist_prioritize :
      Prioritize S → Registry (Prioritize S) → Result (Registry (Prioritize S))
  unfolding regist
  regist_prioritize = regist prioritize_plugin

  unfoldable pub init_prioritizes :
      Registry (Prioritize S) → S → Option Error × Registry (Prioritize S) × S
  unfolding init_all
  init_prioritizes = init_all prioritize_plugin

  unfoldable pub prioritizes_ready : Registry (Prioritize S) → S → Option Bool
  unfolding all_ready
  prioritizes_ready = all_ready prioritize_plugin

  unfoldable pub install_prioritizes :
      String → Registry (Prioritize S) → Result (List (String × Prioritize S))
  unfolding install
  install_prioritizes api_prefix = install prioritize_plugin api_prefix "priorities"
