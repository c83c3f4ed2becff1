-- ===== src/Predicate/NodeSelector/Cache.antt =====
-- pkg/algorithm/predicate/namespaces_nodeselector.go: `getConfigCM` and the package's variables with the
-- last config map and the time of its arrival, in nanoseconds.
use extender_scheduler.Prelude.{ℕ, ◌-◌, Bool, Option, none, some, [], leb, if◌then◌else◌}
use extender_scheduler.Cluster.{Result, ok, err}
use extender_scheduler.Predicate.NodeSelector.Config.{ConfigMap}

pub record ConfigCache : Type 0 where
  pub config_map : Option ConfigMap
  pub updated : ℕ

abbrev pub cache_time_out : ℕ
cache_time_out = 5000000000

-- What a call meets: the time at which it starts, what the API server answers, and the time then.
pub record Call : Type 0 where
  pub start : ℕ
  pub reply : Result (Option ConfigMap)
  pub arrival : ℕ

abbrev pub empty_config_map : ConfigMap
empty_config_map = record { items = some [] }

abbrev pub fetched : ℕ → Result (Option ConfigMap) → ConfigCache → ConfigMap × ConfigCache
fetched arrival (err e) s = (empty_config_map, s)
fetched arrival (ok none) s = (empty_config_map, s)
fetched arrival (ok (some cm)) s = (cm, record { config_map = some cm; updated = arrival })

abbrev pub cached_or :
    Option ConfigMap → Bool → ConfigCache → ConfigMap × ConfigCache → ConfigMap × ConfigCache
cached_or none recent s fresh = fresh
cached_or (some cm) recent s fresh = if recent then (cm, s) else fresh

-- `getConfigCM`
unfoldable pub get_config_cm : Call → ConfigCache → ConfigMap × ConfigCache
get_config_cm call s =
    cached_or s.config_map (leb (call.start - s.updated) cache_time_out) s
      (fetched call.arrival call.reply s)
