-- ===== src/Prioritize/Routes.antt =====
-- pkg/algorithm/prioritize: the answer to a scoring request, whatever the order of the goroutines'
-- steps.
pub mod SpreadRoute
pub mod DiskUseRoute
use mathlib.Core.List.{cons≢nil}
use extender_scheduler.Prelude.{
  ℕ, ◌≤◌, ◌≡◌, ◌≢◌, refl, sym, ap, subst, ◌∙◌, ◌⊎◌, inl, inr, Option, none, some, String, List, [],
  ◌∷◌, ◌++◌, map, All, get_elem?, arith,
}
use extender_scheduler.Prelude.Int.{pos, ◌≤ℤ◌, pos_part, neg_part}
use extender_scheduler.Cluster.{Cluster, Pod, Node, Error, ok}
use extender_scheduler.Informers.{World}
use extender_scheduler.Predicate.Handler.Results.{asked_for}
use extender_scheduler.Prioritize.Float.{Float, IsRounding}
use extender_scheduler.Prioritize.Scoring.{
  HostPriority, Scored, Shared, Steps, started, Scores, finish, run_nodes_scoring,
}
use extender_scheduler.Prioritize.Scoring.Interleaving.{finish_lem}
use extender_scheduler.Prioritize.Scoring.Interleaving.Slots.{priorities_of, errors_of}
use extender_scheduler.Prioritize.Scoring.InOrder.{run_nodes_scoring_lem}
use extender_scheduler.Prioritize.Scoring.Largest.{IsCount}
use extender_scheduler.Prioritize.Spread.{spread_map, spread_reduce}
use extender_scheduler.Prioritize.Spread.Reduced.{spread_reduce_lem}
use extender_scheduler.Prioritize.Handler.{
  Prioritize, Response, scored, panicked, answer, prioritie_route,
}
use extender_scheduler.Prioritize.Plugins.{spread_plugin, disk_use_plugin, spread_scoring}

empty_or {ℓ} : {A : Type ℓ} (xs : List A) → (xs ≡ []) ⊎ (xs ≢ [])
empty_or [] = inl refl
empty_or (x ∷ xs) = inr cons≢nil

answer-panicked : (r : Scores) → r.failed ≢ [] → answer r ≡ panicked
answer-panicked r n = answer_of r.failed n
  where
    answer_of :
        (es : List Error)
        → es ≢ []
        → elim es [ [] ↦ scored r.priority_list | e ∷ es ↦ panicked ] ≡ panicked
    answer_of [] n = absurd (n refl)
    answer_of (e ∷ es) n = refl

module _ (reduce : List HostPriority → List HostPriority) (map_node : Node → Scored)
    (nodes : List Node) where
  -- The answer is the same for every order of the goroutines' steps.
  pub answer-same :
      (s : Shared)
      → Steps (started (map map_node nodes)) s
      → s.routines ≡ []
      → answer (finish reduce s) ≡ answer (run_nodes_scoring reduce map_node nodes)
  answer-same s steps over =
      let (clean, failing) = finish_lem reduce (map map_node nodes) s steps over in
      let (clean', failing') = run_nodes_scoring_lem reduce map_node nodes in
      elim (empty_or (errors_of (map map_node nodes))) [
        | inl e ↦ ap answer (clean e ∙ sym (clean' e))
        | inr n ↦
            answer-panicked (finish reduce s) (failing n).1
            ∙ sym (answer-panicked (run_nodes_scoring reduce map_node nodes) (failing' n))
      ]

  pub answer-scored :
      errors_of (map map_node nodes) ≡ []
      → answer (run_nodes_scoring reduce map_node nodes)
        ≡ scored (reduce (priorities_of (map map_node nodes)))
  answer-scored e = ap answer ((run_nodes_scoring_lem reduce map_node nodes).0 e)

  pub answer-failed :
      errors_of (map map_node nodes) ≢ []
      → answer (run_nodes_scoring reduce map_node nodes) ≡ panicked
  answer-failed n = answer-panicked _ ((run_nodes_scoring_lem reduce map_node nodes).1 n)
