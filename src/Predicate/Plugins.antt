-- ===== src/Predicate/Plugins.antt =====
-- pkg/algorithm/predicate: the three predicates as plug-ins, in hostpathpv_affinity.go,
-- hostpathpv_disk_pressure.go and namespaces_nodeselector.go, and the registry that the `init` functions
-- of these files fill, in the order of the files' names.
use extender_scheduler.Prelude.{ℕ, suc, Bool, true, Option, none, some, List, [], ◌∷◌}
use extender_scheduler.Cluster.{Pod, Node, Error, Result}
use extender_scheduler.Informers.{World, set_fields, hostpath_init, hostpath_ready}
use extender_scheduler.Registry.{Registry, empty_registry, regist_all}
use extender_scheduler.Predicate.Handler.{Predicate, predicate_plugin}
use extender_scheduler.Predicate.Affinity.{affinity_name, affinity_match}
use extender_scheduler.Predicate.DiskPressure.{disk_pressure_name, disk_pressure_match}
use extender_scheduler.Predicate.NodeSelector.{Selectors, Call, selector_name, node_selector_match}

abbrev pub affinity_init : World → Option Error × World
affinity_init = hostpath_init affinity_name

abbrev pub affinity_ready : World → Option Bool
affinity_ready = hostpath_ready affinity_name

unfoldable pub affinity_plugin : Predicate World
unfolding affinity_match hostpath_init hostpath_ready
affinity_plugin = record {
  name = affinity_name;
  ready = affinity_ready;
  init = affinity_init;
  pod_match_node = λ pod node w. (affinity_match w.cluster pod node, w);
}

abbrev pub disk_pressure_init : World → Option Error × World
disk_pressure_init = hostpath_init disk_pressure_name

abbrev pub disk_pressure_ready : World → Option Bool
disk_pressure_ready = hostpath_ready disk_pressure_name

unfoldable pub disk_pressure_plugin : Predicate World
unfolding disk_pressure_match hostpath_init hostpath_ready
disk_pressure_plugin = record {
  name = disk_pressure_name;
  ready = disk_pressure_ready;
  init = disk_pressure_init;
  pod_match_node = λ pod node w. (disk_pressure_match w.cluster pod node, w);
}

-- `Init`, which sets the clientset.
unfoldable pub node_selector_init : World → Option Error × World
unfolding set_fields
node_selector_init w = (none, set_fields selector_name w)

abbrev pub node_selector_ready : World → Option Bool
node_selector_ready w = some true

-- The selectors, and what the requests for the config map meet.
module _ (X : Selectors) (calls : ℕ → Call) where
  unfoldable pub select_in : Pod → Node → World → Result Bool × World
  unfolding node_selector_match
  select_in pod node w =
      let (result, config) = node_selector_match X (calls w.calls_made) pod node w.config in
      (result, record w { config = config; calls_made = suc w.calls_made })

  unfoldable pub node_selector_plugin : Predicate World
  unfolding select_in node_selector_init
  node_selector_plugin = record {
    name = selector_name;
    ready = node_selector_ready;
    init = node_selector_init;
    pod_match_node = select_in;
  }

  abbrev pub predicate_list : List (Predicate World)
  predicate_list = affinity_plugin ∷ disk_pressure_plugin ∷ node_selector_plugin ∷ []

  -- The package when `main` starts.
  unfoldable pub initial_predicates : Registry (Predicate World)
  unfolding regist_all affinity_plugin disk_pressure_plugin node_selector_plugin
  initial_predicates = regist_all predicate_plugin predicate_list empty_registry
