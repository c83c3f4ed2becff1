-- ===== src/Predicate/ConfigServer/UpdateLaws.antt =====
-- pkg/algorithm/predicate/namespaces_nodeselector_httpserver.go: the pointers, and what a request leaves
-- in the config map that the package and the server share.
use extender_scheduler.Prelude.{
  ℕ, ◌<◌, ◌≡◌, refl, sym, ap, subst, ◌∙◌, inl, inr, String, Option, none, some, Option-cases, List,
  [], ◌∷◌, ◌++◌, length, arith,
}
use mathlib.Core.Option.{some-injective}
use extender_scheduler.Prelude.Dict.{Dict, insert}
use extender_scheduler.Predicate.NodeSelector.{
  ConfigMap, NsConfig, Call, Selectors, item_name, get_ns_config,
}
use extender_scheduler.Predicate.ConfigServer.{
  Edit, changed, refused, Operation, operation_of, edit_config, failure, Answer, answered, failed,
  Server, write_at, read_at, get_ns_node_selector_config_map, notcache, ConfigMaps,
  create_or_update, Reply, replied, done_msg, Form, namespaces_of, or_empty_config, after_update,
  store, store_edit, edit_decoded, edit_with, add_update_or_delete,
}
use extender_scheduler.Predicate.ConfigServer.Pointers.{
  IsValid, length-snoc, length-write_at, read_at-write_at, read_at-append, read_at-snoc,
  alloc-IsValid, get_ns_node_selector_config_map-IsGot,
}

-- What a request leaves that writes a config map at a pointer: it is there; an error of the API server is
-- the answer, with the package's pointer as it was; otherwise the answer is OK and the server's own pointer
-- is to what the API server answered.
abbrev pub IsStored : Answer ConfigMap → ConfigMap → ℕ → Option ℕ → Reply × Server → Type 0
IsStored a cm p cached r =
    (read_at r.1.heap p ≡ cm)
    × ((e : String) → a ≡ failed e → (r.0 ≡ replied (failure e)) × (r.1.cached ≡ cached))
    × ((c : ConfigMap)
        → a ≡ answered c
        → (r.0 ≡ replied done_msg) × ((q : ℕ) × (r.1.own ≡ some q) × (read_at r.1.heap q ≡ c)))

module _ (X : Selectors) (encode : NsConfig → String) (api : ConfigMaps) where
  after_update-IsValid :
      (a : Answer ConfigMap) (s : Server) → IsValid s → IsValid (after_update X encode api a s).1
  after_update-IsValid (failed e) s v = v
  after_update-IsValid (answered cm) s v =
      let w = alloc-IsValid cm s v in
      record {
        cached_valid = w.cached_valid;
        own_valid = λ p e.
            subst (λ q. q < length (s.heap ++ cm ∷ [])) (some-injective (length s.heap) p e)
              (omega (arith, length-snoc s.heap cm));
      }

  write_at-IsValid :
      (p : ℕ) (cm : ConfigMap) (s : Server)
      → IsValid s
      → IsValid (record s { heap = write_at s.heap p cm })
  write_at-IsValid p cm s v = record {
    cached_valid = λ q e. omega (arith, length-write_at s.heap p cm, v.cached_valid q e);
    own_valid = λ q e. omega (arith, length-write_at s.heap p cm, v.own_valid q e);
  }

  store-IsValid :
      (config : NsConfig) (p : ℕ) (o : Option (Dict String)) (s : Server)
      → IsValid s
      → IsValid (store X encode api config p o s).1
  store-IsValid config p none s v = v
  store-IsValid config p (some items) s v = after_update-IsValid _ _ (write_at-IsValid p _ s v)

  store_edit-IsValid :
      (r : Edit NsConfig) (p : ℕ) (s : Server)
      → IsValid s
      → IsValid (store_edit X encode api r p s).1
  store_edit-IsValid (refused m) p s v = v
  store_edit-IsValid (changed config) p s v = store-IsValid config p (read_at s.heap p).items s v

  edit_decoded-IsValid :
      (operation : Operation) (form : Form) (o : Option (Option NsConfig)) (p : ℕ) (s : Server)
      → IsValid s
      → IsValid (edit_decoded X encode api operation form o p s).1
  edit_decoded-IsValid operation form none p s v = v
  edit_decoded-IsValid operation form (some config) p s v = store_edit-IsValid _ p s v

  -- A request to add, update or delete a key keeps all pointers valid, whatever it is answered with.
  pub add_update_or_delete-IsValid :
      (text : String) (form : Form) (call : Call) (now : ℕ) (names : Answer (List String))
      (s : Server)
      → IsValid s
      → IsValid (add_update_or_delete X encode api text form call now names s).1
  unfolding add_update_or_delete edit_with
  add_update_or_delete-IsValid text form call now names s v =
      elim (Option-cases (operation_of text)) [
        | inl e ↦ rw (add_update_or_delete, e) v
        | inr (operation, e) ↦
            rw (add_update_or_delete, e)
              (edit_decoded-IsValid operation form _ _ _
                (get_ns_node_selector_config_map-IsGot notcache call now s v).1)
      ]

  answered_eq : {c c' : ConfigMap} → answered c ≡ answered c' → c ≡ c'
  answered_eq e = cc

  after_update_lem :
      (cm : ConfigMap) (p : ℕ) (s : Server) (a : Answer ConfigMap)
      → p < length s.heap
      → IsStored a cm p s.cached
          (after_update X encode api a (record s { heap = write_at s.heap p cm }))
  after_update_lem cm p s (failed e) h =
      (read_at-write_at s.heap p cm h, λ e' same. (cc, refl), λ c same. cc)
  after_update_lem cm p s (answered c) h = (
    read_at-append (write_at s.heap p cm) (c ∷ []) p (omega (arith, length-write_at s.heap p cm))
        ∙ read_at-write_at s.heap p cm h,
    λ e' same. cc,
    λ c' same. (
      refl,
      (
        length (write_at s.heap p cm),
        refl,
        read_at-snoc (write_at s.heap p cm) c ∙ answered_eq same,
      ),
    ),
  )

-- The config map that a request writes: the old one with the text of the changed configuration.
abbrev pub written : (NsConfig → String) → NsConfig → Dict String → ConfigMap
written encode made items = record { items = some (insert item_name (encode made) items) }

edit_with_lem :
    (X : Selectors) (encode : NsConfig → String) (api : ConfigMaps) (operation : Operation)
    (form : Form) (names : Answer (List String)) (p : ℕ) (s : Server) (config : Option NsConfig)
    (made : NsConfig) (items : Dict String)
    → get_ns_config X.decode_config (some (read_at s.heap p)) (some (namespaces_of names))
      ≡ some config
    → edit_config operation form.match_type form.namespace form.key form.value
        (or_empty_config config)
      ≡ changed made
    → (read_at s.heap p).items ≡ some items
    → edit_with X encode api operation form names p s
      ≡ after_update X encode api
          (create_or_update api (written encode made items))
          (record s { heap = write_at s.heap p (written encode made items) })
unfolding edit_with
edit_with_lem X encode api operation form names p s config made items decoded edited stored =
    ap (λ o. edit_decoded X encode api operation form o p s) decoded
    ∙ ap (λ o. store_edit X encode api o p s) edited
    ∙ ap (λ o. store X encode api made p o s) stored

pub add_update_or_delete-stored :
    (X : Selectors) (encode : NsConfig → String) (api : ConfigMaps) (text : String) (form : Form)
    (call : Call) (now : ℕ) (names : Answer (List String)) (s : Server) (operation : Operation)
    (p : ℕ) (s1 : Server) (config : Option NsConfig) (made : NsConfig) (items : Dict String)
    → operation_of text ≡ some operation
    → get_ns_node_selector_config_map notcache call now s ≡ (p, s1)
    → get_ns_config X.decode_config (some (read_at s1.heap p)) (some (namespaces_of names))
      ≡ some config
    → edit_config operation form.match_type form.namespace form.key form.value
        (or_empty_config config)
      ≡ changed made
    → (read_at s1.heap p).items ≡ some items
    → add_update_or_delete X encode api text form call now names s
      ≡ after_update X encode api
          (create_or_update api (written encode made items))
          (record s1 { heap = write_at s1.heap p (written encode made items) })
unfolding add_update_or_delete
add_update_or_delete-stored X encode api text form call now names s operation p s1 config made items
      is_op got decoded edited stored =
    let start : add_update_or_delete X encode api text form call now names s
        ≡ edit_with X encode api operation form names
            (get_ns_node_selector_config_map notcache call now s).0
            (get_ns_node_selector_config_map notcache call now s).1 =
      rw (add_update_or_delete, is_op) refl in
    start
    ∙ ap (λ (g : ℕ × Server). edit_with X encode api operation form names g.0 g.1) got
    ∙ edit_with_lem X encode api operation form names p s1 config made items decoded edited stored

-- If the config map behind the pointer that the server got has data (its map is not nil), its
-- configuration is decoded and the change is not refused, the config map behind that pointer holds the changed configuration afterwards, whether the API server takes it or not. If the
-- API server fails, the request is answered with its error and the package still has the same pointer; if
-- not, the answer is OK and the server has what the API server answered.
pub add_update_or_delete_lem :
    (X : Selectors) (encode : NsConfig → String) (api : ConfigMaps) (text : String) (form : Form)
    (call : Call) (now : ℕ) (names : Answer (List String)) (s : Server) (operation : Operation)
    (p : ℕ) (s1 : Server) (config : Option NsConfig) (made : NsConfig) (items : Dict String)
    → IsValid s
    → operation_of text ≡ some operation
    → get_ns_node_selector_config_map notcache call now s ≡ (p, s1)
    → get_ns_config X.decode_config (some (read_at s1.heap p)) (some (namespaces_of names))
      ≡ some config
    → edit_config operation form.match_type form.namespace form.key form.value
        (or_empty_config config)
      ≡ changed made
    → (read_at s1.heap p).items ≡ some items
    → IsStored
        (create_or_update api (written encode made items))
        (written encode made items)
        p
        s1.cached
        (add_update_or_delete X encode api text form call now names s)
add_update_or_delete_lem X encode api text form call now names s operation p s1 config made items v
      is_op got decoded edited stored =
    let cm = written encode made items in
    let valid =
      subst (λ (g : ℕ × Server). g.0 < length g.1.heap) got
        (get_ns_node_selector_config_map-IsGot notcache call now s v).0 in
    subst (IsStored (create_or_update api cm) cm p s1.cached)
      (sym (
        add_update_or_delete-stored X encode api text form call now names s operation p s1 config
          made items is_op got decoded edited stored))
      (after_update_lem X encode api cm p s1 (create_or_update api cm) valid)
