-- ===== src/Tests/Plugins.antt =====
-- Runs of the registries and of the handler, and their theorems at concrete data.
use extender_scheduler.Prelude.{
  ℕ, ◌≡◌, refl, String, true, false, none, some, List, [], ◌∷◌, ◌++◌, map, ◌+◌,
}
use extender_scheduler.Prelude.Dict.{lookup}
use extender_scheduler.Prelude.Keys.{Distinct}
use extender_scheduler.Cluster.{ok, err, not_inited}
use extender_scheduler.Registry.{Plugin, Registry, regist, install}
use extender_scheduler.Registry.Laws.{HasNames, regist-HasNames, install-Distinct, paths}
use extender_scheduler.Predicate.Handler.{Predicate, FilterResult, handler, predicate_plugin}
use extender_scheduler.Predicate.Handler.Results.{
  accepted, answers, last_error, state_after, asked_for, handler_lem,
}
use extender_scheduler.Predicate.Affinity.{affinity_match}
use extender_scheduler.Tests.Samples.{web, node, cluster, program}

-- The predicate of the volumes, over a state that counts the calls.
abbrev counting : Predicate ℕ
counting = record {
  name = "hostpathpvaffinity";
  ready = λ s. some true;
  init = λ s. (none, s);
  pod_match_node = λ pod node s. (affinity_match cluster pod node, s + 1);
}

abbrev other : Predicate ℕ
other = record counting { name = "hostpathpvdiskpressure" }

abbrev one : Registry (Predicate ℕ)
one = record { plugins = counting ∷ []; inited = false }

abbrev both : Registry (Predicate ℕ)
both = record { plugins = counting ∷ other ∷ []; inited = false }

abbrev interface : Plugin (Predicate ℕ) ℕ
interface = predicate_plugin

one-HasNames : HasNames interface one
one-HasNames = record { named = (λ e. cc, tt); distinct = (tt, tt) }

both-HasNames : HasNames interface both
unfolding regist
both-HasNames = (regist-HasNames interface other one both one-HasNames refl).0

handler_run :
    handler counting (asked_for web (node "n1" ∷ node "n2" ∷ [])) 0
    ≡ (some (record { nodes = node "n1" ∷ []; failed_nodes = [] }), 2)
unfolding program handler
handler_run = refl

handler_lem_example :
    (r : FilterResult) × (handler counting (asked_for web (node "n1" ∷ node "n2" ∷ [])) 0
      ≡ (some r, state_after counting web (node "n1" ∷ node "n2" ∷ []) 0))
    × (r.nodes ≡ accepted (answers counting web (node "n1" ∷ node "n2" ∷ []) 0))
    × ((k : String)
        → lookup k r.failed_nodes
          ≡ last_error k (answers counting web (node "n1" ∷ node "n2" ∷ []) 0))
handler_lem_example = handler_lem counting web (node "n1" ∷ node "n2" ∷ []) 0

regist-HasNames_example : HasNames interface both × (both.plugins ≡ one.plugins ++ other ∷ [])
unfolding regist
regist-HasNames_example = regist-HasNames interface other one both one-HasNames refl

install-Distinct_example :
    (both.inited ≡ false
      → install interface "scheduler" "predicates" both ≡ err (not_inited interface.kind))
    × (both.inited ≡ true
        → (routes : List (String × Predicate ℕ)) × (install interface "scheduler" "predicates" both
            ≡ ok routes)
          × (map (λ (_, p). p) routes ≡ both.plugins)
          × Distinct (paths routes))
install-Distinct_example = install-Distinct interface "scheduler" "predicates" both both-HasNames
