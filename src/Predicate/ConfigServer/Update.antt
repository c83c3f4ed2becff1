-- ===== src/Predicate/ConfigServer/Update.antt =====
-- pkg/algorithm/predicate/namespaces_nodeselector_httpserver.go: `NsNodeSelectorAddUpdateOrDelete`, which
-- writes into the config map behind a pointer that the package and the server share. A pointer is a place
-- in a list of config maps, which only grows.
use extender_scheduler.Prelude.{
  ℕ, ◌-◌, suc, zero, String, ◌<>◌, Bool, Option, none, some, List, [], ◌∷◌, ◌++◌, length, leb, ltb,
  if◌then◌else◌,
}
use extender_scheduler.Prelude.Dict.{Dict, insert}
use extender_scheduler.Cluster.{Result, ok, err}
use extender_scheduler.Predicate.NodeSelector.{
  ConfigMap, NsConfig, item_name, cache_time_out, empty_config_map, Call, Selectors, get_ns_config,
}
use extender_scheduler.Predicate.ConfigServer.Change.{
  ReturnMsg, failure, Edit, changed, refused, Operation, operation_of, edit_config,
}
use extender_scheduler.Predicate.ConfigServer.Policy.{policy_time_out}
use extender_scheduler.Predicate.ConfigServer.Refresh.{Answer, answered, failed}

-- The package's variables and those of the server, with the config maps that pointers stand for.
pub record Server : Type 0 where
  pub heap : List ConfigMap
  pub cached : Option ℕ
  pub updated : ℕ
  pub own : Option ℕ
  pub own_updated : ℕ

-- A new config map.
abbrev pub alloc : ConfigMap → Server → ℕ × Server
alloc cm s = (length s.heap, record s { heap = s.heap ++ cm ∷ [] })

abbrev pub write_at : List ConfigMap → ℕ → ConfigMap → List ConfigMap
write_at [] i cm = []
write_at (x ∷ xs) zero cm = cm ∷ xs
write_at (x ∷ xs) (suc i) cm = x ∷ write_at xs i cm

-- The config map at a pointer, which is always one of the list.
abbrev pub read_at : List ConfigMap → ℕ → ConfigMap
read_at [] i = empty_config_map
read_at (x ∷ xs) zero = x
read_at (x ∷ xs) (suc i) = read_at xs i

abbrev pub fetch_pointer : ℕ → Result (Option ConfigMap) → Server → ℕ × Server
fetch_pointer arrival (err e) s = alloc empty_config_map s
fetch_pointer arrival (ok none) s = alloc empty_config_map s
fetch_pointer arrival (ok (some cm)) s =
    let (p, s') = alloc cm s in (p, record s' { cached = some p; updated = arrival })

abbrev pub pointer_or : Option ℕ → Bool → Server → ℕ × Server → ℕ × Server
pointer_or none recent s fresh = fresh
pointer_or (some p) recent s fresh = if recent then (p, s) else fresh

-- `getSelectorConfigMap`
unfoldable pub get_selector_config_map : Call → Server → ℕ × Server
get_selector_config_map call s =
    pointer_or s.cached (leb (call.start - s.updated) cache_time_out) s
      (fetch_pointer call.arrival call.reply s)

-- The server asks again; the last argument is the time that is kept.
unfoldable pub renew_own : Call → ℕ → Server → ℕ × Server
unfolding get_selector_config_map
renew_own call now s =
    let (p, s') = get_selector_config_map call s in
    (p, record s' { own = some p; own_updated = now })

-- The argument `notcache`, or else the time at which the server's own time-out is looked at.
pub data Caching : Type 0 where
  notcache : Caching
  cached_at : ℕ → Caching

abbrev pub own_or : Option ℕ → Bool → Server → ℕ × Server → ℕ × Server
own_or none old s fresh = fresh
own_or (some p) old s fresh = if old then fresh else (p, s)

-- `getNsNodeSelectorConfigMap`
unfoldable pub get_ns_node_selector_config_map : Caching → Call → ℕ → Server → ℕ × Server
unfolding renew_own
get_ns_node_selector_config_map notcache call now s = renew_own call now s
get_ns_node_selector_config_map (cached_at asked) call now s =
    own_or s.own (ltb policy_time_out (asked - s.own_updated)) s (renew_own call now s)

-- The API server's part of `CreateOrUpdateSchedulerPolicyConfigMap`.
pub data Current : Type 0 where
  found : ConfigMap → Current
  not_found : Current
  unknown : String → Current

pub record ConfigMaps : Type 0 where
  pub get : Current
  pub create : ConfigMap → Answer ConfigMap
  pub update : ConfigMap → Answer ConfigMap

-- `CreateOrUpdateSchedulerPolicyConfigMap`
unfoldable pub create_or_update : ConfigMaps → ConfigMap → Answer ConfigMap
create_or_update api cm = elim api.get [
  | found current ↦ api.update (record current { items = cm.items })
  | not_found ↦ api.create cm
  | unknown e ↦ failed e
]

pub data Reply : Type 0 where
  replied : ReturnMsg → Reply
  -- A write into a nil map.
  panicked : Reply

abbrev pub done_msg : ReturnMsg
done_msg = record { code = 0; msg = "OK"; data_text = "" }

-- The values of the request's form.
pub record Form : Type 0 where
  pub namespace : String
  pub match_type : String
  pub key : String
  pub value : String

-- `GetNamespaces`, whose error is ignored: the list is empty then, and not nil.
abbrev pub namespaces_of : Answer (List String) → List String
namespaces_of (failed e) = []
namespaces_of (answered names) = names

abbrev pub or_empty_config : Option NsConfig → NsConfig
or_empty_config none = []
or_empty_config (some config) = config

module _ (X : Selectors) (encode : NsConfig → String) (api : ConfigMaps) where
  abbrev pub after_update : Answer ConfigMap → Server → Reply × Server
  after_update (failed e) s = (replied (failure e), s)
  after_update (answered cm) s =
      let (p, s') = alloc cm s in (replied done_msg, record s' { own = some p })

  -- `SetNsNodeSelectorConfigMapNsConfig`, and the update.
  abbrev pub store : NsConfig → ℕ → Option (Dict String) → Server → Reply × Server
  store config p none s = (panicked, s)
  store config p (some items) s =
      let cm : ConfigMap = record { items = some (insert item_name (encode config) items) } in
      after_update (create_or_update api cm) (record s { heap = write_at s.heap p cm })

  abbrev pub store_edit : Edit NsConfig → ℕ → Server → Reply × Server
  store_edit (refused m) p s = (replied m, s)
  store_edit (changed config) p s = store config p (read_at s.heap p).items s

  abbrev pub edit_decoded :
      Operation → Form → Option (Option NsConfig) → ℕ → Server → Reply × Server
  edit_decoded operation form none p s = (panicked, s)
  edit_decoded operation form (some config) p s =
      store_edit
        (edit_config operation form.match_type form.namespace form.key form.value
          (or_empty_config config))
        p s

  unfoldable pub edit_with : Operation → Form → Answer (List String) → ℕ → Server → Reply × Server
  unfolding get_ns_config edit_config create_or_update
  edit_with operation form namespaces p s =
      edit_decoded operation form
        (get_ns_config X.decode_config (some (read_at s.heap p)) (some (namespaces_of namespaces)))
        p s

  -- `NsNodeSelectorAddUpdateOrDelete`
  unfoldable pub add_update_or_delete :
      String → Form → Call → ℕ → Answer (List String) → Server → Reply × Server
  unfolding operation_of edit_with get_ns_node_selector_config_map
  add_update_or_delete text form call now namespaces s = elim (operation_of text) [
    | none ↦ (replied (failure ("unknow operation " <> text)), s)
    | some operation ↦
        let (p, s') = get_ns_node_selector_config_map notcache call now s in
        edit_with operation form namespaces p s'
  ]
