-- ===== src/Tests/Routes.antt =====
-- Runs of the routes of the plug-ins, and their theorems at concrete data.
use extender_scheduler.Prelude.{◌≡◌, ◌≢◌, refl, some, List, [], ◌∷◌, map, All}
use extender_scheduler.Prelude.Int.{pos, ◌≤ℤ◌}
use extender_scheduler.Cluster.{Node, ok}
use extender_scheduler.Informers.{World}
use extender_scheduler.Predicate.Handler.{filtered, predicate_route}
use extender_scheduler.Predicate.Handler.Results.{asked_for}
use extender_scheduler.Predicate.Affinity.{affinity_match}
use extender_scheduler.Predicate.DiskPressure.{disk_pressure_match}
use extender_scheduler.Predicate.Plugins.{affinity_plugin, disk_pressure_plugin}
use extender_scheduler.Predicate.Routes.{IsFilterOf, hostpath_filter_lem}
use extender_scheduler.Prioritize.Float.Whole.{whole, whole-IsRounding}
use extender_scheduler.Prioritize.Scoring.{
  HostPriority, Shared, write_slot, Steps, here, next, started, finish,
}
use extender_scheduler.Prioritize.Scoring.Interleaving.Slots.{priorities_of, errors_of}
use extender_scheduler.Prioritize.Scoring.Largest.{IsCount}
use extender_scheduler.Prioritize.Spread.{
  spread_map, spread_reduce, spread_score, count_volumes, count_pv, pods_counted,
}
use extender_scheduler.Prioritize.DiskUse.{
  disk_use_map, disk_use_reduce, disk_use_score, free_percent,
}
use extender_scheduler.Prioritize.DiskUse as Use
use extender_scheduler.Prioritize.Handler.{scored, panicked, answer, prioritie_route}
use extender_scheduler.Prioritize.Plugins.{spread_plugin, disk_use_plugin}
use extender_scheduler.Prioritize.Routes.SpreadRoute.{spread_route_lem}
use extender_scheduler.Prioritize.Routes.DiskUseRoute.{AllModest, disk_use_route_lem}
use extender_scheduler.Main.Serving.{initial_world}
use extender_scheduler.Tests.Samples.{web, node, cluster, program}

abbrev world : World
world = initial_world cluster

abbrev nodes : List Node
nodes = node "n1" ∷ []

abbrev one_pod : HostPriority
one_pod = record { host = "n1"; score = pos 1 }

abbrev done : HostPriority → Shared
done p = record { priorities = p ∷ []; errs = []; routines = [] }

-- The goroutine of the one node has no error and writes its slot.
write-Steps :
    (p : HostPriority) → Steps (started (record { errors = []; priority = p } ∷ [])) (done p)
write-Steps p =
    next here (
      write_slot [] [] (record { slot = 0; left = record { errors = []; priority = p } }) refl refl)

spread_route_run :
    prioritie_route (spread_plugin whole) (some (ok (asked_for web nodes))) world
    ≡ scored (record { host = "n1"; score = pos 0 } ∷ [])
unfolding program prioritie_route spread_plugin spread_map spread_reduce spread_score count_volumes
    count_pv pods_counted
spread_route_run = refl

spread_route_lem_example :
    (answer (finish (spread_reduce whole) (done one_pod))
      ≡ prioritie_route (spread_plugin whole) (some (ok (asked_for web nodes))) world)
    × (errors_of (map (spread_map cluster web) nodes) ≢ []
        → prioritie_route (spread_plugin whole) (some (ok (asked_for web nodes))) world ≡ panicked)
    × (errors_of (map (spread_map cluster web) nodes) ≡ []
        → All IsCount (priorities_of (map (spread_map cluster web) nodes))
        → (ps : List HostPriority) × (prioritie_route
              (spread_plugin whole)
              (some (ok (asked_for web nodes)))
              world
            ≡ scored ps)
          × (map (λ p. p.host) ps ≡ "n1" ∷ [])
          × All (λ p. (pos 0 ≤ℤ p.score) × (p.score ≤ℤ pos 10)) ps)
unfolding program spread_map count_volumes count_pv pods_counted
spread_route_lem_example =
    spread_route_lem whole whole-IsRounding world web nodes (done one_pod) (write-Steps one_pod)
      refl

abbrev percent_43 : HostPriority
percent_43 = record { host = "n1"; score = pos 43 }

disk_use_route_lem_example :
    (answer (finish (disk_use_reduce whole) (done percent_43))
      ≡ prioritie_route (disk_use_plugin whole) (some (ok (asked_for web nodes))) world)
    × (errors_of (map (disk_use_map whole cluster) nodes) ≢ []
        → prioritie_route (disk_use_plugin whole) (some (ok (asked_for web nodes))) world
          ≡ panicked)
    × (errors_of (map (disk_use_map whole cluster) nodes) ≡ []
        → AllModest cluster nodes
        → (ps : List HostPriority) × (prioritie_route
              (disk_use_plugin whole)
              (some (ok (asked_for web nodes)))
              world
            ≡ scored ps)
          × (map (λ p. p.host) ps ≡ "n1" ∷ [])
          × All (λ p. (pos 0 ≤ℤ p.score) × (p.score ≤ℤ pos 10)) ps)
unfolding program disk_use_map free_percent Use.disk_use
disk_use_route_lem_example =
    disk_use_route_lem whole whole-IsRounding world web nodes (done percent_43)
      (write-Steps percent_43) refl

abbrev two : List Node
two = node "n1" ∷ node "n2" ∷ []

filter_run :
    predicate_route affinity_plugin (some (ok (asked_for web two))) world
    ≡ (filtered (record { nodes = node "n1" ∷ []; failed_nodes = [] }), world)
unfolding program affinity_plugin predicate_route
filter_run = refl

hostpath_filter_lem_example :
    IsFilterOf affinity_plugin affinity_match world web two
    × IsFilterOf disk_pressure_plugin disk_pressure_match world web two
hostpath_filter_lem_example = hostpath_filter_lem world web two
