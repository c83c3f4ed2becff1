-- ===== src/Predicate/ConfigServer/Runs.antt =====
-- pkg/algorithm/predicate/namespaces_nodeselector_httpserver.go: runs of the server's handlers and of the
-- predicate, one after another, on the variables that they share.
use extender_scheduler.Prelude.{All, ◌≡◌, ℕ, String, Option, none, List, [], ◌∷◌}
use extender_scheduler.Cluster.{Pod, Node, Error}
use extender_scheduler.Predicate.NodeSelector.{ConfigMap, Selectors, NsConfig, Call, select_with}
use extender_scheduler.Predicate.ConfigServer.{
  Answer, answered, failed, Server, ConfigMaps, Form, notcache, cached_at, add_update_or_delete,
  Reading, get_request, check_request, refresh_request, match_request, node_selector_get,
}
use extender_scheduler.Predicate.ConfigServer.Pointers.{
  IsValid, get_ns_node_selector_config_map-IsGot, get_selector_config_map-IsGot,
}
use extender_scheduler.Predicate.ConfigServer.Known.{
  Known, AllKnown, Gives, Takes, get_selector_config_map-AllKnown,
  get_ns_node_selector_config_map-AllKnown, add_update_or_delete-AllKnown, match_request-Known,
  get_request-Known,
}
use extender_scheduler.Predicate.ConfigServer.Reads.{Read, OwnRead}
use extender_scheduler.Predicate.ConfigServer.UpdateLaws.{add_update_or_delete-IsValid}

-- A request with what it meets outside, or a call of the predicate.
pub data Event : Type 0 where
  get_all : Answer (List String) → Reading → Event
  check : Answer (List Node) → (namespace : String) → Reading → Event
  change : ConfigMaps → String → Form → Call → ℕ → Answer (List String) → Event
  refresh_all :
      (Pod → Option String)
      → Answer (List Node)
      → (namespace : String) → Answer (List Pod)
      → Reading
      → Event
  match_pod : Pod → Node → Call → Event

-- The variables when the process starts.
abbrev pub initial_server : Server
initial_server = record { heap = []; cached = none; updated = 0; own = none; own_updated = 0 }

module _ (X : Selectors) (error_text : Error → String) (encode : NsConfig → String) where
  abbrev pub run_event : Event → Server → Server
  run_event (get_all namespaces r) s = (get_request X namespaces r s).1
  run_event (check nodes namespace r) s = (check_request X error_text nodes namespace r s).1
  run_event (change api text form call now namespaces) s =
      (add_update_or_delete X encode api text form call now namespaces s).1
  run_event (refresh_all delete_pod nodes namespace pods r) s =
      (refresh_request X error_text delete_pod nodes namespace pods r s).1
  run_event (match_pod pod node call) s = (match_request X pod node call s).1

  abbrev pub run_events : List Event → Server → Server
  run_events [] s = s
  run_events (e ∷ es) s = run_events es (run_event e s)

  run_event-IsValid : (e : Event) (s : Server) → IsValid s → IsValid (run_event e s)
  unfolding get_request check_request refresh_request match_request
  run_event-IsValid (get_all namespaces r) s v =
      (get_ns_node_selector_config_map-IsGot (cached_at r.asked) r.call r.now s v).1
  run_event-IsValid (check (failed e) namespace r) s v = v
  run_event-IsValid (check (answered nodes) namespace r) s v =
      (get_ns_node_selector_config_map-IsGot (cached_at r.asked) r.call r.now s v).1
  run_event-IsValid (change api text form call now namespaces) s v =
      add_update_or_delete-IsValid X encode api text form call now namespaces s v
  run_event-IsValid (refresh_all delete_pod (failed e) namespace pods r) s v = v
  run_event-IsValid (refresh_all delete_pod (answered nodes) namespace pods r) s v =
      (get_ns_node_selector_config_map-IsGot notcache r.call r.now s v).1
  run_event-IsValid (match_pod pod node call) s v = (get_selector_config_map-IsGot call s v).1

  run_events-IsValid : (es : List Event) (s : Server) → IsValid s → IsValid (run_events es s)
  run_events-IsValid [] s v = v
  run_events-IsValid (e ∷ es) s v = run_events-IsValid es (run_event e s) (run_event-IsValid e s v)

  module _ (Given : ConfigMap → Type 0) where
    -- The config maps that the API server answers in an event are given.
    abbrev pub EventGives : Event → Type 0
    EventGives (get_all namespaces r) = Gives X encode Given r.call
    EventGives (check nodes namespace r) = Gives X encode Given r.call
    EventGives (change api text form call now namespaces) =
        Gives X encode Given call × Takes X encode Given api
    EventGives (refresh_all delete_pod nodes namespace pods r) = Gives X encode Given r.call
    EventGives (match_pod pod node call) = Gives X encode Given call

    run_event-AllKnown :
        (e : Event) (s : Server)
        → EventGives e
        → AllKnown X encode Given s
        → AllKnown X encode Given (run_event e s)
    unfolding get_request check_request refresh_request match_request
    run_event-AllKnown (get_all namespaces r) s g h =
        get_ns_node_selector_config_map-AllKnown X encode Given (cached_at r.asked) r.call r.now s g
          h
    run_event-AllKnown (check (failed e) namespace r) s g h = h
    run_event-AllKnown (check (answered nodes) namespace r) s g h =
        get_ns_node_selector_config_map-AllKnown X encode Given (cached_at r.asked) r.call r.now s g
          h
    run_event-AllKnown (change api text form call now namespaces) s g h =
        add_update_or_delete-AllKnown X encode Given api g.1 text form call now namespaces s g.0 h
    run_event-AllKnown (refresh_all delete_pod (failed e) namespace pods r) s g h = h
    run_event-AllKnown (refresh_all delete_pod (answered nodes) namespace pods r) s g h =
        get_ns_node_selector_config_map-AllKnown X encode Given notcache r.call r.now s g h
    run_event-AllKnown (match_pod pod node call) s g h =
        get_selector_config_map-AllKnown X encode Given call s g h

    run_events-AllKnown :
        (es : List Event) (s : Server)
        → All EventGives es
        → AllKnown X encode Given s
        → AllKnown X encode Given (run_events es s)
    run_events-AllKnown [] s g h = h
    run_events-AllKnown (e ∷ es) s g h =
        run_events-AllKnown es (run_event e s) g.1 (run_event-AllKnown e s g.0 h)

    -- After every run of requests and of calls of the predicate, all pointers are those of config maps, and
    -- each config map is empty, or the API server gave it, or it is one of these in which the text is that
    -- of its own configuration after an operation that succeeds. By such a config map the predicate decides
    -- next: the package's, if it is not older than the time-out, or else the one that the API server
    -- gives, or else the empty one. By such a config map the server lists the configuration next: its own,
    -- if it is not older than the server's time-out, or else the one that it gets from the package in this way.
    pub run_events-sources :
        (es : List Event) (s : Server)
        → IsValid s
        → AllKnown X encode Given s
        → All EventGives es
        → IsValid (run_events es s)
          × AllKnown X encode Given (run_events es s)
          × ((pod : Pod) (node : Node) (call : Call)
              → Gives X encode Given call
              → (cm : ConfigMap) × Known X encode Given cm
                × Read call (run_events es s) cm
                × ((match_request X pod node call (run_events es s)).0 ≡ select_with X cm pod node))
          × ((namespaces : Answer (List String)) (r : Reading)
              → Gives X encode Given r.call
              → (cm : ConfigMap) × Known X encode Given cm
                × OwnRead r (run_events es s) cm
                × ((get_request X namespaces r (run_events es s)).0
                    ≡ node_selector_get X cm namespaces))
    run_events-sources es s v h g =
        let known = run_events-AllKnown es s g h in
        (
          run_events-IsValid es s v,
          known,
          λ pod node call gives.
              match_request-Known X encode Given pod node call (run_events es s) gives known,
          λ namespaces r gives.
              get_request-Known X encode Given namespaces r (run_events es s) gives known,
        )
