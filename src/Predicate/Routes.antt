-- ===== src/Predicate/Routes.antt =====
-- pkg/algorithm/predicate: the answers of the routes of the two hostpath predicates.
use extender_scheduler.Prelude.{
  ◌≡◌, refl, ap, ◌∙◌, String, Bool, true, false, Option, some, List, [], ◌∷◌, map, keep,
  if◌then◌else◌,
}
use extender_scheduler.Prelude.Dict.{lookup}
use extender_scheduler.Cluster.{Cluster, Pod, Node, Error, Result, ok, err}
use extender_scheduler.Informers.{World}
use extender_scheduler.Predicate.Handler.{
  Predicate, FilterResult, respond, filtered, predicate_route,
}
use extender_scheduler.Predicate.Handler.Results.{
  Asked, accepted, last_error, answers, state_after, asked_for, handler_lem,
}
use extender_scheduler.Predicate.Affinity.{affinity_match}
use extender_scheduler.Predicate.DiskPressure.{disk_pressure_match}
use extender_scheduler.Predicate.Plugins.{affinity_plugin, disk_pressure_plugin}

abbrev pub says_yes : Result Bool → Bool
says_yes (ok b) = b
says_yes (err e) = false

-- A function that decides about a node from what the listers answer.
abbrev pub Decision : Type 0
Decision = Cluster → Pod → Node → Result Bool

-- The nodes, each with a result of its own.
abbrev pub each_result : (Node → Result Bool) → List Node → List Asked
each_result g = map (λ node. record { node = node; result = g node })

-- The route of the predicate `p` answers a decoded request with the nodes that `f` says yes to, in their
-- order, and with the last error for each name of a node, and the state is as before.
abbrev pub IsFilterOf : Predicate World → Decision → World → Pod → List Node → Type 0
IsFilterOf p f w pod nodes =
    (r : FilterResult) × (predicate_route p (some (ok (asked_for pod nodes))) w ≡ (filtered r, w))
    × (r.nodes ≡ keep (λ node. says_yes (f w.cluster pod node)) nodes)
    × ((k : String) → lookup k r.failed_nodes ≡ last_error k (each_result (f w.cluster pod) nodes))

accepted-one :
    (node : Node) (r : Result Bool) (rest : List Asked) (kept : List Node)
    → accepted rest ≡ kept
    → accepted (record { node = node; result = r } ∷ rest)
      ≡ (if says_yes r then node ∷ kept else kept)
accepted-one node (ok true) rest kept h = ap (λ l. node ∷ l) h
accepted-one node (ok false) rest kept h = h
accepted-one node (err e) rest kept h = h

pub accepted-keep :
    (g : Node → Result Bool) (nodes : List Node)
    → accepted (each_result g nodes) ≡ keep (λ node. says_yes (g node)) nodes
accepted-keep g [] = refl
accepted-keep g (node ∷ nodes) =
    accepted-one node (g node) (each_result g nodes) _ (accepted-keep g nodes)

module _ (f : Decision) (name : String) (ready : World → Option Bool)
    (init : World → Option Error × World) (w : World) (pod : Pod) where
  abbrev reader : Predicate World
  reader = record {
    name = name;
    ready = ready;
    init = init;
    pod_match_node = λ pod node w. (f w.cluster pod node, w);
  }

  answers-reader :
      (nodes : List Node) → answers reader pod nodes w ≡ each_result (f w.cluster pod) nodes
  answers-reader [] = refl
  answers-reader (node ∷ nodes) =
      ap (λ l. record { node = node; result = f w.cluster pod node } ∷ l) (answers-reader nodes)

  state_after-reader : (nodes : List Node) → state_after reader pod nodes w ≡ w
  state_after-reader [] = refl
  state_after-reader (node ∷ nodes) = state_after-reader nodes

  reader-IsFilterOf : (nodes : List Node) → IsFilterOf reader f w pod nodes
  unfolding predicate_route
  reader-IsFilterOf nodes =
      let (r, handled, kept, failed) = handler_lem reader pod nodes w in
      (
        r,
        ap respond (handled ∙ ap (λ s. (some r, s)) (state_after-reader nodes)),
        kept ∙ ap accepted (answers-reader nodes) ∙ accepted-keep (f w.cluster pod) nodes,
        λ k. failed k ∙ ap (last_error k) (answers-reader nodes),
      )

-- The routes of the affinity and of the disk pressure predicate answer a decoded request with a pod and
-- nodes by the nodes that `PodMatchNode` of the predicate says yes to, in their order, and by the last
-- error for each name of a node; the state is as before.
pub hostpath_filter_lem :
    (w : World) (pod : Pod) (nodes : List Node)
    → IsFilterOf affinity_plugin affinity_match w pod nodes
      × IsFilterOf disk_pressure_plugin disk_pressure_match w pod nodes
unfolding affinity_plugin disk_pressure_plugin
hostpath_filter_lem w pod nodes = (
  reader-IsFilterOf affinity_match affinity_plugin.name affinity_plugin.ready affinity_plugin.init w
      pod nodes,
  reader-IsFilterOf disk_pressure_match disk_pressure_plugin.name disk_pressure_plugin.ready
      disk_pressure_plugin.init w pod nodes,
)
