-- ===== src/Informers.antt =====
-- The state that the plug-ins of pkg/algorithm/predicate and pkg/algorithm/prioritize run over: the
-- informers that they ask the shared factory for, what the listers of these answer, and what the
-- methods `Init` set. The four plug-ins that read hostpath volumes have the same fields and the same
-- `Init` and `Ready`.
use extender_scheduler.Prelude.{
  ℕ, String, Bool, true, ◌&&◌, Option, none, some, List, if◌then◌else◌,
}
use extender_scheduler.Prelude.Dict.{has_key, add_key}
use extender_scheduler.Cluster.{Cluster, Error}
use extender_scheduler.Predicate.NodeSelector.{ConfigCache}

-- A shared informer: a factory starts those that it was asked for, and no other.
pub record Informer : Type 0 where
  pub requested : Bool
  pub running : Bool
  -- `HasSynced`
  pub synced : Bool

pub record World : Type 0 where
  pub pvs : Informer
  pub pvcs : Informer
  pub pods : Informer
  -- The answers of the listers, with the API server's and the decoder's.
  pub cluster : Cluster
  -- The names of the plug-ins whose fields are set.
  pub initialised : List String
  -- The variables of the node selector, and how many requests for its config map there were.
  pub config : ConfigCache
  pub calls_made : ℕ

abbrev pub request : Informer → Informer
request i = record i { requested = true }

unfoldable pub set_fields : String → World → World
unfolding add_key
set_fields name w = record w { initialised = add_key name w.initialised }

-- `Init` of the four plug-ins: it gets the three informers and their listers, and sets `hasSynced`.
unfoldable pub hostpath_init : String → World → Option Error × World
unfolding set_fields
hostpath_init name w = (
  none,
  set_fields name (record w { pvs = request w.pvs; pvcs = request w.pvcs; pods = request w.pods }),
)

-- `Ready` of the four plug-ins: the call of `hasSynced`, which is nil before `Init`.
unfoldable pub hostpath_ready : String → World → Option Bool
unfolding has_key
hostpath_ready name w =
    if has_key name w.initialised
    then some (w.pvs.synced && w.pvcs.synced && w.pods.synced)
    else none

-- `informerFactory.Start`
abbrev pub start_if_requested : Informer → Informer
start_if_requested i = record i { running = i.requested }

abbrev pub start_all : World → World
start_all w = record w {
  pvs = start_if_requested w.pvs;
  pvcs = start_if_requested w.pvcs;
  pods = start_if_requested w.pods;
}
