-- ===== src/Predicate/ConfigServer/Visible.antt =====
-- pkg/algorithm/predicate/namespaces_nodeselector_httpserver.go and namespaces_nodeselector.go: what the
-- predicate sees of a change that the server makes in the same process.
use extender_scheduler.Prelude.{
  ℕ, ◌-◌, ◌<◌, ◌≡◌, refl, sym, ap, subst, ◌∙◌, String, true, Option, some, List, [], ◌∷◌, length,
  leb, arith,
}
use extender_scheduler.Prelude.Dict.{Dict}
use extender_scheduler.Cluster.{Pod, Node}
use extender_scheduler.Predicate.NodeSelector.{
  ConfigMap, NsConfig, Call, Selectors, cache_time_out, get_ns_config, select_with,
}
use extender_scheduler.Predicate.ConfigServer.{
  changed, Operation, operation_of, edit_config, Answer, answered, failed, Server, write_at,
  read_at, fetch_pointer, pointer_or, get_selector_config_map, get_ns_node_selector_config_map,
  notcache, ConfigMaps, create_or_update, Form, namespaces_of, or_empty_config, after_update,
  add_update_or_delete, match_request,
}
use extender_scheduler.Predicate.ConfigServer.Pointers.{
  IsValid, length-write_at, read_at-write_at, read_at-append, get_ns_node_selector_config_map-IsGot,
}
use extender_scheduler.Predicate.ConfigServer.UpdateLaws.{written, add_update_or_delete-stored}

-- The package's pointer is to this config map, which arrived at this time.
record Holds (p updated : ℕ) (cm : ConfigMap) (s : Server) : Type 0 where
  cached_there : s.cached ≡ some p
  arrived : s.updated ≡ updated
  content : read_at s.heap p ≡ cm

after_update-Holds :
    (X : Selectors) (encode : NsConfig → String) (api : ConfigMaps) (a : Answer ConfigMap) (p : ℕ)
    (cm : ConfigMap) (s : Server)
    → p < length s.heap
    → s.cached ≡ some p
    → Holds p s.updated cm
        (after_update X encode api a (record s { heap = write_at s.heap p cm })).1
after_update-Holds X encode api (failed e) p cm s h c = record {
  cached_there = c;
  arrived = refl;
  content = read_at-write_at s.heap p cm h;
}
after_update-Holds X encode api (answered d) p cm s h c = record {
  cached_there = c;
  arrived = refl;
  content =
      read_at-append (write_at s.heap p cm) (d ∷ []) p (omega (arith, length-write_at s.heap p cm))
      ∙ read_at-write_at s.heap p cm h;
}

-- A call within the time-out is answered by the config map that the pointer is to.
match_request-Holds :
    (X : Selectors) (pod : Pod) (node : Node) (call : Call) (p updated : ℕ) (cm : ConfigMap)
    (s : Server)
    → Holds p updated cm s
    → leb (call.start - updated) cache_time_out ≡ true
    → match_request X pod node call s ≡ (select_with X cm pod node, s)
unfolding match_request get_selector_config_map
match_request-Holds X pod node call p updated cm s h recent =
    let fresh = fetch_pointer call.arrival call.reply s in
    ap (λ (g : ℕ × Server). (select_with X (read_at g.1.heap g.0) pod node, g.1))
      (ap (λ o. pointer_or o (leb (call.start - s.updated) cache_time_out) s fresh) h.cached_there
        ∙ ap (λ b. pointer_or (some p) b s fresh)
            (ap (λ u. leb (call.start - u) cache_time_out) h.arrived ∙ recent))
    ∙ ap (λ c. (select_with X c pod node, s)) h.content

-- If the server's request got the package's pointer, the config map behind it has data (its map is not
-- nil), its configuration is decoded and the change is not refused, then the predicate decides by the changed configuration at once, and as long as the config map
-- is not older than the time-out, whether the API server took the change or not.
pub add_update_or_delete-match_request :
    (X : Selectors) (encode : NsConfig → String) (api : ConfigMaps) (text : String) (form : Form)
    (call : Call) (now : ℕ) (names : Answer (List String)) (s : Server) (operation : Operation)
    (p : ℕ) (s1 : Server) (config : Option NsConfig) (made : NsConfig) (items : Dict String)
    (pod : Pod) (node : Node) (later : Call)
    → IsValid s
    → operation_of text ≡ some operation
    → get_ns_node_selector_config_map notcache call now s ≡ (p, s1)
    → get_ns_config X.decode_config (some (read_at s1.heap p)) (some (namespaces_of names))
      ≡ some config
    → edit_config operation form.match_type form.namespace form.key form.value
        (or_empty_config config)
      ≡ changed made
    → (read_at s1.heap p).items ≡ some items
    → s1.cached ≡ some p
    → leb (later.start - s1.updated) cache_time_out ≡ true
    → match_request X pod node later
        (add_update_or_delete X encode api text form call now names s).1
      ≡ (
        select_with X (written encode made items) pod node,
        (add_update_or_delete X encode api text form call now names s).1,
      )
add_update_or_delete-match_request X encode api text form call now names s operation p s1 config
      made items pod node later v is_op got decoded edited stored cached recent =
    let cm = written encode made items in
    let valid =
      subst (λ (g : ℕ × Server). g.0 < length g.1.heap) got
        (get_ns_node_selector_config_map-IsGot notcache call now s v).0 in
    match_request-Holds X pod node later p s1.updated cm _
      (subst (λ r. Holds p s1.updated cm r.1)
        (sym (
          add_update_or_delete-stored X encode api text form call now names s operation p s1 config
            made items is_op got decoded edited stored))
        (after_update-Holds X encode api (create_or_update api cm) p cm s1 valid cached))
      recent
