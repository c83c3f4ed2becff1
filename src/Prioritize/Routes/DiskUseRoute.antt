-- ===== src/Prioritize/Routes/DiskUseRoute.antt =====
-- pkg/algorithm/prioritize/hostpathpv_diskuse.go: the answer of the route, from the request to the
-- scores.
use extender_scheduler.Prelude.{
  ◌≡◌, ◌≢◌, refl, ap, ◌∙◌, some, String, List, [], ◌∷◌, map, All, arith,
}
use extender_scheduler.Prelude.Int.{pos, ◌≤ℤ◌}
use extender_scheduler.Cluster.{Cluster, Pod, Node, ok}
use extender_scheduler.Informers.{World}
use extender_scheduler.Predicate.Handler.Results.{asked_for}
use extender_scheduler.Prioritize.Float.{Float, IsRounding}
use extender_scheduler.Prioritize.Scoring.{HostPriority, Shared, Steps, started, finish}
use extender_scheduler.Prioritize.Scoring.Interleaving.Slots.{priorities_of, errors_of}
use extender_scheduler.Prioritize.Scoring.Largest.{IsCount}
use extender_scheduler.Prioritize.Handler.{scored, panicked, answer, prioritie_route}
use extender_scheduler.Prioritize.Plugins.{disk_use_plugin, disk_use_scoring}
use extender_scheduler.Prelude.Int.{ℤ, negsuc}
use extender_scheduler.Algorithm.HostPath.{get_node_disk_info, node_mount_info}
use extender_scheduler.Prioritize.DiskUse.{DiskUse, disk_use_map, disk_use_reduce, free_percent}
use extender_scheduler.Prioritize.DiskUse as Use
use extender_scheduler.Prioritize.DiskUse.Percentages.{IsModest, free_percent_bounds}
use extender_scheduler.Prioritize.DiskUse.Reduced.{disk_use_reduce_lem}
use extender_scheduler.Prioritize.Routes.{answer-same, answer-scored, answer-failed}

-- The sums of a node's disks and of the quotas on it.
abbrev pub sums : Cluster → Node → DiskUse
sums c node = Use.disk_use (get_node_disk_info c node) (node_mount_info c node.name)

abbrev pub AllModest : Cluster → List Node → Type 0
AllModest c nodes = All (λ node. IsModest (sums c node).allocable (sums c node).quota) nodes

hosts_of :
    (X : Float) (c : Cluster) (nodes : List Node)
    → map (λ p. p.host) (priorities_of (map (disk_use_map X c) nodes))
      ≡ map (λ node. node.name) nodes
unfolding disk_use_map
hosts_of X c [] = refl
hosts_of X c (node ∷ nodes) = ap (λ l. node.name ∷ l) (hosts_of X c nodes)

IsCount-percent :
    (host : String) (z : ℤ)
    → (pos 0 ≤ℤ z) × (z ≤ℤ pos 100)
    → IsCount (record { host = host; score = z })
IsCount-percent host (pos n) h = (refl, omega arith)
IsCount-percent host (negsuc n) h = absurd (omega (arith, h.0))

module _ (X : Float) (R : IsRounding X) (c : Cluster) where
  counts_of :
      (nodes : List Node)
      → AllModest c nodes
      → All IsCount (priorities_of (map (disk_use_map X c) nodes))
  unfolding disk_use_map
  counts_of [] h = tt
  counts_of (node ∷ nodes) h = (
    IsCount-percent node.name _
        (free_percent_bounds X R (sums c node).allocable (sums c node).quota h.0),
    counts_of nodes h.1,
  )

-- For a decoded request with a pod and nodes, the route of the disk use priority answers the same for
-- every order of the goroutines' steps. With an error of some node it panics. Otherwise, where for each
-- node the sum of its quotas is not negative and a `float64` holds hundred times the sum of its
-- allocable sizes exactly, it answers with a score between 0 and 10 for each node, in the order of the nodes.
pub disk_use_route_lem :
    (X : Float) (R : IsRounding X) (w : World) (pod : Pod) (nodes : List Node) (s : Shared)
    → Steps (started (map (disk_use_map X w.cluster) nodes)) s
    → s.routines ≡ []
    → (answer (finish (disk_use_reduce X) s)
        ≡ prioritie_route (disk_use_plugin X) (some (ok (asked_for pod nodes))) w)
      × (errors_of (map (disk_use_map X w.cluster) nodes) ≢ []
          → prioritie_route (disk_use_plugin X) (some (ok (asked_for pod nodes))) w ≡ panicked)
      × (errors_of (map (disk_use_map X w.cluster) nodes) ≡ []
          → AllModest w.cluster nodes
          → (ps : List HostPriority) × (prioritie_route
                (disk_use_plugin X)
                (some (ok (asked_for pod nodes)))
                w
              ≡ scored ps)
            × (map (λ p. p.host) ps ≡ map (λ node. node.name) nodes)
            × All (λ p. (pos 0 ≤ℤ p.score) × (p.score ≤ℤ pos 10)) ps)
unfolding prioritie_route disk_use_plugin disk_use_scoring
disk_use_route_lem X R w pod nodes s steps over =
    let map_node = disk_use_map X w.cluster in
    (
      answer-same (disk_use_reduce X) map_node nodes s steps over,
      answer-failed (disk_use_reduce X) map_node nodes,
      λ e modest.
          let reduced = disk_use_reduce_lem X R _ (counts_of X R w.cluster nodes modest) in
          (
            disk_use_reduce X (priorities_of (map map_node nodes)),
            answer-scored (disk_use_reduce X) map_node nodes e,
            reduced.0 ∙ hosts_of X w.cluster nodes,
            reduced.1,
          ),
    )
