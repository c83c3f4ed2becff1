-- ===== src/Predicate/ConfigServer/Known.antt =====
-- pkg/algorithm/predicate/namespaces_nodeselector_httpserver.go: where the config maps come from that the
-- server and the predicate read.
use extender_scheduler.Prelude.{
  ℕ, zero, suc, ◌≡◌, refl, subst, String, Bool, true, false, Option, none, some, List, [], ◌∷◌, All,
  Option-cases, inl, inr,
}
use extender_scheduler.Prelude.Dict.{Dict, insert}
use extender_scheduler.Prelude.Keys.{All-snoc}
use extender_scheduler.Cluster.{Pod, Node, Result, ok, err}
use extender_scheduler.Predicate.NodeSelector.{
  ConfigMap, NsConfig, Call, Selectors, item_name, empty_config_map, select_with, get_ns_config,
}
use extender_scheduler.Predicate.ConfigServer.{
  Edit, changed, refused, Operation, operation_of, Answer, answered, failed, Server, write_at,
  read_at, fetch_pointer, pointer_or, get_selector_config_map, renew_own, own_or, Caching, notcache,
  cached_at, get_ns_node_selector_config_map, Current, found, not_found, unknown, ConfigMaps,
  create_or_update, Form, after_update, store, store_edit, edit_decoded, edit_with,
  add_update_or_delete, match_request, edit_config, or_empty_config, namespaces_of, Reading,
  get_request, node_selector_get,
}
use extender_scheduler.Predicate.ConfigServer.Reads.{
  Read, OwnRead, get_selector_config_map-Read, get_ns_node_selector_config_map-OwnRead,
}

-- A config map that is empty, or that the API server gave, or one of these in which the text is that of its
-- own configuration after an operation that succeeds.
pub data Known (X : Selectors) (encode : NsConfig → String) (Given : ConfigMap → Type 0)
    : ConfigMap → Type 0 where
  empty : Known X encode Given empty_config_map
  given : {cm : ConfigMap} → Given cm → Known X encode Given cm
  rewritten :
      (operation : Operation) (form : Form) (namespaces : List String) (config : Option NsConfig)
      (made : NsConfig) (items : Dict String)
      → Known X encode Given (record { items = some items })
      → get_ns_config X.decode_config (some (record { items = some items })) (some namespaces)
        ≡ some config
      → edit_config operation form.match_type form.namespace form.key form.value
          (or_empty_config config)
        ≡ changed made
      → Known X encode Given (record { items = some (insert item_name (encode made) items) })

module _ (P : ConfigMap → Type 0) where
  All-write_at :
      (xs : List ConfigMap) (i : ℕ) (cm : ConfigMap) → P cm → All P xs → All P (write_at xs i cm)
  All-write_at [] i cm p h = tt
  All-write_at (x ∷ xs) zero cm p h = (p, h.1)
  All-write_at (x ∷ xs) (suc i) cm p h = (h.0, All-write_at xs i cm p h.1)

  All-read_at : (xs : List ConfigMap) (i : ℕ) → P empty_config_map → All P xs → P (read_at xs i)
  All-read_at [] i p h = p
  All-read_at (x ∷ xs) zero p h = h.0
  All-read_at (x ∷ xs) (suc i) p h = All-read_at xs i p h.1

module _ (X : Selectors) (encode : NsConfig → String) (Given : ConfigMap → Type 0) where
  abbrev K : ConfigMap → Type 0
  K = Known X encode Given

  -- All config maps that there are.
  abbrev pub AllKnown : Server → Type 0
  AllKnown s = All K s.heap

  -- What the API server answers to a call is given.
  abbrev pub Gives : Call → Type 0
  Gives call = (cm : ConfigMap) → call.reply ≡ ok (some cm) → Given cm

  fetch_pointer-AllKnown :
      (arrival : ℕ) (r : Result (Option ConfigMap)) (s : Server)
      → ((cm : ConfigMap) → r ≡ ok (some cm) → Given cm)
      → AllKnown s
      → AllKnown (fetch_pointer arrival r s).1
  fetch_pointer-AllKnown arrival (err e) s g h = All-snoc K empty_config_map s.heap h empty
  fetch_pointer-AllKnown arrival (ok none) s g h = All-snoc K empty_config_map s.heap h empty
  fetch_pointer-AllKnown arrival (ok (some cm)) s g h = All-snoc K cm s.heap h (given (g cm refl))

  pointer_or-AllKnown :
      (o : Option ℕ) (recent : Bool) (s : Server) (fresh : ℕ × Server)
      → AllKnown s
      → AllKnown fresh.1
      → AllKnown (pointer_or o recent s fresh).1
  pointer_or-AllKnown none recent s fresh h k = k
  pointer_or-AllKnown (some p) true s fresh h k = h
  pointer_or-AllKnown (some p) false s fresh h k = k

  pub get_selector_config_map-AllKnown :
      (call : Call) (s : Server)
      → Gives call
      → AllKnown s
      → AllKnown (get_selector_config_map call s).1
  unfolding get_selector_config_map
  get_selector_config_map-AllKnown call s g h =
      pointer_or-AllKnown s.cached _ s (fetch_pointer call.arrival call.reply s) h
        (fetch_pointer-AllKnown call.arrival call.reply s g h)

  own_or-AllKnown :
      (o : Option ℕ) (old : Bool) (s : Server) (fresh : ℕ × Server)
      → AllKnown s
      → AllKnown fresh.1
      → AllKnown (own_or o old s fresh).1
  own_or-AllKnown none old s fresh h k = k
  own_or-AllKnown (some p) true s fresh h k = k
  own_or-AllKnown (some p) false s fresh h k = h

  pub get_ns_node_selector_config_map-AllKnown :
      (caching : Caching) (call : Call) (now : ℕ) (s : Server)
      → Gives call
      → AllKnown s
      → AllKnown (get_ns_node_selector_config_map caching call now s).1
  unfolding get_ns_node_selector_config_map renew_own
  get_ns_node_selector_config_map-AllKnown notcache call now s g h =
      get_selector_config_map-AllKnown call s g h
  get_ns_node_selector_config_map-AllKnown (cached_at asked) call now s g h =
      own_or-AllKnown s.own _ s (renew_own call now s) h
        (get_selector_config_map-AllKnown call s g h)

  -- What the API server answers to an update or a creation is given.
  abbrev pub Takes : ConfigMaps → Type 0
  Takes api =
      ((cm c : ConfigMap) → api.create cm ≡ answered c → Given c)
      × ((cm c : ConfigMap) → api.update cm ≡ answered c → Given c)

  module _ (api : ConfigMaps) (takes : Takes api) where
    create_or_update-Given : (cm c : ConfigMap) → create_or_update api cm ≡ answered c → Given c
    unfolding create_or_update
    create_or_update-Given cm c e = given_by api.get e
      where
        given_by :
            (current : Current)
            → elim current [
              | found current ↦ api.update (record current { items = cm.items })
              | not_found ↦ api.create cm
              | unknown e ↦ failed e
            ]
              ≡ answered c
            → Given c
        given_by (found current) e = takes.1 _ c e
        given_by not_found e = takes.0 cm c e
        given_by (unknown f) e = cc

    after_update-AllKnown :
        (a : Answer ConfigMap) (s : Server)
        → ((c : ConfigMap) → a ≡ answered c → Given c)
        → AllKnown s
        → AllKnown (after_update X encode api a s).1
    after_update-AllKnown (failed e) s g h = h
    after_update-AllKnown (answered c) s g h = All-snoc K c s.heap h (given (g c refl))

    -- What the text of the config map at a pointer becomes.
    abbrev IsChange : ConfigMap → NsConfig → Type 0
    IsChange cm made =
        (operation : Operation) × (form : Form) × (namespaces : List String) × (config : Option
          NsConfig)
        × (get_ns_config X.decode_config (some cm) (some namespaces) ≡ some config)
        × (edit_config operation form.match_type form.namespace form.key form.value
              (or_empty_config config)
            ≡ changed made)

    rewritten_by :
        (made : NsConfig) (items : Dict String)
        → K (record { items = some items })
        → IsChange (record { items = some items }) made
        → K (record { items = some (insert item_name (encode made) items) })
    rewritten_by made items k (operation, form, namespaces, config, decoded, edited) =
        rewritten operation form namespaces config made items k decoded edited

    store-AllKnown :
        (made : NsConfig) (p : ℕ) (o : Option (Dict String)) (s : Server)
        → (read_at s.heap p).items ≡ o
        → IsChange (read_at s.heap p) made
        → AllKnown s
        → AllKnown (store X encode api made p o s).1
    store-AllKnown made p none s e change h = h
    store-AllKnown made p (some items) s e change h =
        after_update-AllKnown _ _ (create_or_update-Given _) (
          All-write_at K s.heap p _
            (rewritten_by made items
              (subst (λ o. K (record { items = o })) e (All-read_at K s.heap p empty h))
              (subst (λ o. IsChange (record { items = o }) made) e change))
            h)

    store_edit-AllKnown :
        (r : Edit NsConfig) (p : ℕ) (s : Server)
        → ((made : NsConfig) → r ≡ changed made → IsChange (read_at s.heap p) made)
        → AllKnown s
        → AllKnown (store_edit X encode api r p s).1
    store_edit-AllKnown (refused m) p s change h = h
    store_edit-AllKnown (changed made) p s change h =
        store-AllKnown made p (read_at s.heap p).items s refl (change made refl) h

    edit_decoded-AllKnown :
        (operation : Operation) (form : Form) (namespaces : List String)
        (o : Option (Option NsConfig)) (p : ℕ) (s : Server)
        → get_ns_config X.decode_config (some (read_at s.heap p)) (some namespaces) ≡ o
        → AllKnown s
        → AllKnown (edit_decoded X encode api operation form o p s).1
    edit_decoded-AllKnown operation form namespaces none p s decoded h = h
    edit_decoded-AllKnown operation form namespaces (some config) p s decoded h =
        store_edit-AllKnown _ p s
          (λ made edited. (operation, form, namespaces, config, decoded, edited)) h

    pub add_update_or_delete-AllKnown :
        (text : String) (form : Form) (call : Call) (now : ℕ) (names : Answer (List String))
        (s : Server)
        → Gives call
        → AllKnown s
        → AllKnown (add_update_or_delete X encode api text form call now names s).1
    unfolding add_update_or_delete edit_with
    add_update_or_delete-AllKnown text form call now names s g h =
        elim (Option-cases (operation_of text)) [
          | inl e ↦ rw (add_update_or_delete, e) h
          | inr (operation, e) ↦
              rw (add_update_or_delete, e)
                (edit_decoded-AllKnown operation form (namespaces_of names) _ _ _ refl
                  (get_ns_node_selector_config_map-AllKnown notcache call now s g h))
        ]

  -- The predicate decides by a known config map.
  pub match_request-Known :
      (pod : Pod) (node : Node) (call : Call) (s : Server)
      → Gives call
      → AllKnown s
      → (cm : ConfigMap) × K cm
        × Read call s cm
        × ((match_request X pod node call s).0 ≡ select_with X cm pod node)
  unfolding match_request
  match_request-Known pod node call s g h = (
    read_at (get_selector_config_map call s).1.heap (get_selector_config_map call s).0,
    All-read_at K _ _ empty (get_selector_config_map-AllKnown call s g h),
    get_selector_config_map-Read call s,
    refl,
  )

  -- The server answers by a known config map.
  pub get_request-Known :
      (namespaces : Answer (List String)) (r : Reading) (s : Server)
      → Gives r.call
      → AllKnown s
      → (cm : ConfigMap) × K cm
        × OwnRead r s cm
        × ((get_request X namespaces r s).0 ≡ node_selector_get X cm namespaces)
  unfolding get_request
  get_request-Known namespaces r s g h =
      let got = get_ns_node_selector_config_map (cached_at r.asked) r.call r.now s in
      (
        read_at got.1.heap got.0,
        All-read_at K _ _ empty
            (get_ns_node_selector_config_map-AllKnown (cached_at r.asked) r.call r.now s g h),
        get_ns_node_selector_config_map-OwnRead r s,
        refl,
      )
