-- ===== src/Prioritize/Routes/SpreadRoute.antt =====
-- pkg/algorithm/prioritize/hostpathpv_spread.go: the answer of the route, from the request to the scores.
use extender_scheduler.Prelude.{◌≡◌, ◌≢◌, refl, ap, ◌∙◌, some, List, [], ◌∷◌, map, All}
use extender_scheduler.Prelude.Int.{pos, ◌≤ℤ◌}
use extender_scheduler.Cluster.{Cluster, Pod, Node, ok}
use extender_scheduler.Informers.{World}
use extender_scheduler.Predicate.Handler.Results.{asked_for}
use extender_scheduler.Prioritize.Float.{Float, IsRounding}
use extender_scheduler.Prioritize.Scoring.{HostPriority, Shared, Steps, started, finish}
use extender_scheduler.Prioritize.Scoring.Interleaving.Slots.{priorities_of, errors_of}
use extender_scheduler.Prioritize.Scoring.Largest.{IsCount}
use extender_scheduler.Prioritize.Spread.{spread_map, spread_reduce}
use extender_scheduler.Prioritize.Spread.Reduced.{spread_reduce_lem}
use extender_scheduler.Prioritize.Handler.{scored, panicked, answer, prioritie_route}
use extender_scheduler.Prioritize.Plugins.{spread_plugin, spread_scoring}
use extender_scheduler.Prioritize.Routes.{answer-same, answer-scored, answer-failed}

hosts_of :
    (c : Cluster) (pod : Pod) (nodes : List Node)
    → map (λ p. p.host) (priorities_of (map (spread_map c pod) nodes))
      ≡ map (λ node. node.name) nodes
unfolding spread_map
hosts_of c pod [] = refl
hosts_of c pod (node ∷ nodes) = ap (λ l. node.name ∷ l) (hosts_of c pod nodes)

-- For a decoded request with a pod and nodes, the route of the spread priority answers the same for
-- every order of the goroutines' steps. With an error of some node it panics. Otherwise, where a
-- `float64` holds the counts exactly, it answers with a score between 0 and 10 for each node, in the
-- order of the nodes.
pub spread_route_lem :
    (X : Float) (R : IsRounding X) (w : World) (pod : Pod) (nodes : List Node) (s : Shared)
    → Steps (started (map (spread_map w.cluster pod) nodes)) s
    → s.routines ≡ []
    → (answer (finish (spread_reduce X) s)
        ≡ prioritie_route (spread_plugin X) (some (ok (asked_for pod nodes))) w)
      × (errors_of (map (spread_map w.cluster pod) nodes) ≢ []
          → prioritie_route (spread_plugin X) (some (ok (asked_for pod nodes))) w ≡ panicked)
      × (errors_of (map (spread_map w.cluster pod) nodes) ≡ []
          → All IsCount (priorities_of (map (spread_map w.cluster pod) nodes))
          → (ps : List HostPriority) × (prioritie_route
                (spread_plugin X)
                (some (ok (asked_for pod nodes)))
                w
              ≡ scored ps)
            × (map (λ p. p.host) ps ≡ map (λ node. node.name) nodes)
            × All (λ p. (pos 0 ≤ℤ p.score) × (p.score ≤ℤ pos 10)) ps)
unfolding prioritie_route spread_plugin spread_scoring
spread_route_lem X R w pod nodes s steps over =
    let map_node = spread_map w.cluster pod in
    (
      answer-same (spread_reduce X) map_node nodes s steps over,
      answer-failed (spread_reduce X) map_node nodes,
      λ e counts.
          let reduced = spread_reduce_lem X R _ counts in
          (
            spread_reduce X (priorities_of (map map_node nodes)),
            answer-scored (spread_reduce X) map_node nodes e,
            reduced.0 ∙ hosts_of w.cluster pod nodes,
            reduced.1,
          ),
    )
