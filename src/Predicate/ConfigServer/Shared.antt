-- ===== src/Predicate/ConfigServer/Shared.antt =====
-- pkg/algorithm/predicate/namespaces_nodeselector.go and namespaces_nodeselector_httpserver.go: `getConfigCM`
-- on the package's variables, and the same variables as the server sees them, with a pointer.
use mathlib.Core.Path.{ap₂}
use extender_scheduler.Prelude.{
  ℕ, ◌≡◌, ◌<◌, refl, sym, ap, Bool, true, false, Option, none, some, List, [], ◌∷◌, ◌++◌, length,
}
use extender_scheduler.Cluster.{Pod, Node, Result, ok, err}
use extender_scheduler.Predicate.NodeSelector.{
  ConfigMap, ConfigCache, Call, Selectors, empty_config_map, fetched, cached_or, get_config_cm,
  select_with, node_selector_match,
}
use extender_scheduler.Predicate.ConfigServer.{
  Server, alloc, read_at, fetch_pointer, pointer_or, get_selector_config_map, match_request,
}
use extender_scheduler.Predicate.ConfigServer.Pointers.{IsValid, read_at-append, read_at-snoc}

abbrev pub read_pointer : List ConfigMap → Option ℕ → Option ConfigMap
read_pointer heap none = none
read_pointer heap (some p) = some (read_at heap p)

-- The package's variables, with the config map in place of its pointer.
abbrev pub cache_of : Server → ConfigCache
cache_of s = record { config_map = read_pointer s.heap s.cached; updated = s.updated }

abbrev read_result : ℕ × Server → ConfigMap × ConfigCache
read_result (p, s) = (read_at s.heap p, cache_of s)

read_pointer-append :
    (heap : List ConfigMap) (cm : ConfigMap) (o : Option ℕ)
    → ((p : ℕ) → o ≡ some p → p < length heap)
    → read_pointer (heap ++ cm ∷ []) o ≡ read_pointer heap o
read_pointer-append heap cm none h = refl
read_pointer-append heap cm (some p) h = ap some (read_at-append heap (cm ∷ []) p (h p refl))

-- The variables when an empty config map is made for the caller only.
alloc-refines :
    (s : Server)
    → IsValid s
    → (empty_config_map, cache_of s) ≡ read_result (alloc empty_config_map s)
alloc-refines s v =
    ap₂ (λ cm o. (cm, record { config_map = o; updated = s.updated }))
      (sym (read_at-snoc s.heap empty_config_map))
      (sym (read_pointer-append s.heap empty_config_map s.cached v.cached_valid))

fetched-refines :
    (arrival : ℕ) (r : Result (Option ConfigMap)) (s : Server)
    → IsValid s
    → fetched arrival r (cache_of s) ≡ read_result (fetch_pointer arrival r s)
fetched-refines arrival (err e) s v = alloc-refines s v
fetched-refines arrival (ok none) s v = alloc-refines s v
fetched-refines arrival (ok (some cm)) s v =
    ap (λ c. (c, record { config_map = some c; updated = arrival })) (sym (read_at-snoc s.heap cm))

cached_or-refines :
    (o : Option ℕ) (recent : Bool) (s : Server) (fresh : ConfigMap × ConfigCache) (got : ℕ × Server)
    → s.cached ≡ o
    → fresh ≡ read_result got
    → cached_or (read_pointer s.heap o) recent (cache_of s) fresh
      ≡ read_result (pointer_or o recent s got)
cached_or-refines none recent s fresh got e h = h
cached_or-refines (some p) true s fresh got e h = refl
cached_or-refines (some p) false s fresh got e h = h

get_config_cm-refines :
    (call : Call) (s : Server)
    → IsValid s
    → get_config_cm call (cache_of s) ≡ read_result (get_selector_config_map call s)
unfolding get_config_cm get_selector_config_map
get_config_cm-refines call s v =
    cached_or-refines s.cached _ s _ _ refl (fetched-refines call.arrival call.reply s v)

-- With the variables that it shares with the server, the predicate answers and leaves them as it does on its
-- own: each pointer may be replaced by the config map that it stands for.
pub match_request-refines :
    (X : Selectors) (pod : Pod) (node : Node) (call : Call) (s : Server)
    → IsValid s
    → node_selector_match X call pod node (cache_of s)
      ≡ ((match_request X pod node call s).0, cache_of (match_request X pod node call s).1)
unfolding node_selector_match match_request
match_request-refines X pod node call s v =
    ap (λ (g : ConfigMap × ConfigCache). (select_with X g.0 pod node, g.1))
      (get_config_cm-refines call s v)
