-- ===== src/Predicate/ConfigServer/Reads.antt =====
-- pkg/algorithm/predicate/namespaces_nodeselector.go and namespaces_nodeselector_httpserver.go: which config
-- map a call of `getSelectorConfigMap` and of `getNsNodeSelectorConfigMap` reads.
use extender_scheduler.Prelude.{
  ℕ, ◌-◌, ◌<◌, ◌≤◌, ◌≡◌, ◌≢◌, refl, sym, subst, Bool, true, false, Option, none, some, leb, ltb,
  arith,
}
use extender_scheduler.Cluster.{Result, ok, err}
use extender_scheduler.Predicate.NodeSelector.{ConfigMap, Call, cache_time_out, empty_config_map}
use extender_scheduler.Predicate.ConfigServer.{
  Server, read_at, fetch_pointer, pointer_or, get_selector_config_map, renew_own, own_or, cached_at,
  get_ns_node_selector_config_map, policy_time_out, Reading,
}
use extender_scheduler.Predicate.ConfigServer.Pointers.{read_at-snoc}

-- The package has no config map, or one that is older than its time-out.
abbrev pub IsStale : Call → Server → Type 0
IsStale call s = (p : ℕ) → s.cached ≡ some p → cache_time_out < call.start - s.updated

-- The package's config map within its time-out, or else what the API server gives, or else the empty one.
pub data Read (call : Call) (s : Server) : ConfigMap → Type 0 where
  from_cache :
      (p : ℕ)
      → s.cached ≡ some p
      → call.start - s.updated ≤ cache_time_out
      → Read call s (read_at s.heap p)
  from_api : (cm : ConfigMap) → IsStale call s → call.reply ≡ ok (some cm) → Read call s cm
  nothing_given :
      IsStale call s → ((cm : ConfigMap) → call.reply ≢ ok (some cm)) → Read call s empty_config_map

-- The server's own config map within its time-out, or else what it gets from the package.
pub data OwnRead (r : Reading) (s : Server) : ConfigMap → Type 0 where
  from_own :
      (p : ℕ)
      → s.own ≡ some p
      → r.asked - s.own_updated ≤ policy_time_out
      → OwnRead r s (read_at s.heap p)
  renewed :
      (cm : ConfigMap)
      → ((p : ℕ) → s.own ≡ some p → policy_time_out < r.asked - s.own_updated)
      → Read r.call s cm
      → OwnRead r s cm

abbrev content : ℕ × Server → ConfigMap
content (p, s) = read_at s.heap p

fetch_pointer-Read :
    (call : Call) (s : Server) (r : Result (Option ConfigMap))
    → call.reply ≡ r
    → IsStale call s
    → Read call s (content (fetch_pointer call.arrival r s))
fetch_pointer-Read call s (err x) e stale =
    subst (Read call s) (sym (read_at-snoc s.heap empty_config_map))
      (nothing_given stale (λ cm h. cc))
fetch_pointer-Read call s (ok none) e stale =
    subst (Read call s) (sym (read_at-snoc s.heap empty_config_map))
      (nothing_given stale (λ cm h. cc))
fetch_pointer-Read call s (ok (some cm)) e stale =
    subst (Read call s) (sym (read_at-snoc s.heap cm)) (from_api cm stale e)

pointer_or-Read :
    (call : Call) (s : Server) (o : Option ℕ) (recent : Bool)
    → s.cached ≡ o
    → leb (call.start - s.updated) cache_time_out ≡ recent
    → Read call s (content (pointer_or o recent s (fetch_pointer call.arrival call.reply s)))
pointer_or-Read call s none recent e h = fetch_pointer-Read call s call.reply refl (λ p c. cc)
pointer_or-Read call s (some p) true e h = from_cache p e (ground arith)
pointer_or-Read call s (some p) false e h =
    fetch_pointer-Read call s call.reply refl (λ q c. ground arith)

pub get_selector_config_map-Read :
    (call : Call) (s : Server)
    → Read call s
        (read_at (get_selector_config_map call s).1.heap (get_selector_config_map call s).0)
unfolding get_selector_config_map
get_selector_config_map-Read call s = pointer_or-Read call s s.cached _ refl refl

own_or-OwnRead :
    (r : Reading) (s : Server) (o : Option ℕ) (old : Bool)
    → s.own ≡ o
    → ltb policy_time_out (r.asked - s.own_updated) ≡ old
    → OwnRead r s (content (own_or o old s (renew_own r.call r.now s)))
unfolding renew_own
own_or-OwnRead r s none old e h = renewed _ (λ p c. cc) (get_selector_config_map-Read r.call s)
own_or-OwnRead r s (some p) true e h =
    renewed _ (λ q c. ground arith) (get_selector_config_map-Read r.call s)
own_or-OwnRead r s (some p) false e h = from_own p e (ground arith)

pub get_ns_node_selector_config_map-OwnRead :
    (r : Reading) (s : Server)
    → let got = get_ns_node_selector_config_map (cached_at r.asked) r.call r.now s in
      OwnRead r s (read_at got.1.heap got.0)
unfolding get_ns_node_selector_config_map
get_ns_node_selector_config_map-OwnRead r s = own_or-OwnRead r s s.own _ refl refl
