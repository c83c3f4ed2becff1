-- ===== src/Prioritize/Plugins.antt =====
-- pkg/algorithm/prioritize: the two priorities as plug-ins, in hostpathpv_diskuse.go and
-- hostpathpv_spread.go, and the registry that the `init` functions of these files fill, in the order
-- of the files' names.
use extender_scheduler.Prelude.{String, Bool, Option, List, [], ◌∷◌}
use extender_scheduler.Cluster.{Cluster, Pod, Node, Error}
use extender_scheduler.Informers.{World, hostpath_init, hostpath_ready}
use extender_scheduler.Registry.{Registry, empty_registry, regist_all}
use extender_scheduler.Prioritize.Float.{Float}
use extender_scheduler.Prioritize.Scoring.{Scores, run_nodes_scoring}
use extender_scheduler.Prioritize.Spread.{spread_map, spread_reduce}
use extender_scheduler.Prioritize.DiskUse.{disk_use_map, disk_use_reduce}
use extender_scheduler.Prioritize.Handler.{Prioritize, prioritize_plugin}

abbrev pub disk_use_name : String
disk_use_name = "hostpathpvdiskuse"

abbrev pub disk_use_init : World → Option Error × World
disk_use_init = hostpath_init disk_use_name

abbrev pub disk_use_ready : World → Option Bool
disk_use_ready = hostpath_ready disk_use_name

abbrev pub spread_name : String
spread_name = "hostpathpvspread"

abbrev pub spread_init : World → Option Error × World
spread_init = hostpath_init spread_name

abbrev pub spread_ready : World → Option Bool
spread_ready = hostpath_ready spread_name

module _ (X : Float) where
  -- `NodesScoring`
  unfoldable pub disk_use_scoring : Cluster → List Node → Scores
  unfolding run_nodes_scoring
  disk_use_scoring c nodes = run_nodes_scoring (disk_use_reduce X) (disk_use_map X c) nodes

  -- `NodesScoring`
  unfoldable pub spread_scoring : Cluster → Pod → List Node → Scores
  unfolding run_nodes_scoring
  spread_scoring c pod nodes = run_nodes_scoring (spread_reduce X) (spread_map c pod) nodes

  unfoldable pub disk_use_plugin : Prioritize World
  unfolding disk_use_scoring hostpath_init hostpath_ready
  disk_use_plugin = record {
    name = disk_use_name;
    ready = disk_use_ready;
    init = disk_use_init;
    nodes_scoring = λ pod nodes w. disk_use_scoring w.cluster nodes;
  }

  unfoldable pub spread_plugin : Prioritize World
  unfolding spread_scoring hostpath_init hostpath_ready
  spread_plugin = record {
    name = spread_name;
    ready = spread_ready;
    init = spread_init;
    nodes_scoring = λ pod nodes w. spread_scoring w.cluster pod nodes;
  }

  abbrev pub prioritize_list : List (Prioritize World)
  prioritize_list = disk_use_plugin ∷ spread_plugin ∷ []

  -- The package when `main` starts.
  unfoldable pub initial_prioritizes : Registry (Prioritize World)
  unfolding regist_all disk_use_plugin spread_plugin
  initial_prioritizes = regist_all prioritize_plugin prioritize_list empty_registry
