-- ===== src/Predicate/SelectorRoute.antt =====
-- pkg/algorithm/predicate/namespaces_nodeselector.go: the answer of the route while the package's config map
-- is recent.
use extender_scheduler.Prelude.{
  ℕ, suc, ◌+◌, ◌-◌, ◌<◌, ◌≡◌, refl, ap, subst, ◌∙◌, String, Bool, true, some, List, [], ◌∷◌, keep,
  length, leb, arith,
}
use extender_scheduler.Prelude.Dict.{lookup}
use extender_scheduler.Cluster.{Pod, Node, Result, ok}
use extender_scheduler.Informers.{World}
use extender_scheduler.Predicate.NodeSelector.{
  ConfigMap, ConfigCache, Call, Selectors, cache_time_out, cached_or, fetched, get_config_cm,
  select_with, node_selector_match,
}
use extender_scheduler.Predicate.Handler.{FilterResult, respond, filtered, predicate_route}
use extender_scheduler.Predicate.Handler.Results.{
  accepted, last_error, answers, state_after, asked_for, handler_lem,
}
use extender_scheduler.Predicate.Plugins.{select_in, node_selector_plugin}
use extender_scheduler.Predicate.Routes.{says_yes, each_result, accepted-keep}

-- The request for the config map starts within the time-out.
abbrev pub is_recent : Call → ConfigCache → Bool
is_recent call s = leb (call.start - s.updated) cache_time_out

-- After n more requests for the config map.
abbrev pub called : ℕ → World → World
called n w = record w { calls_made = w.calls_made + n }

module _ (X : Selectors) (calls : ℕ → Call) where
  -- The next n requests for the config map are within the time-out.
  abbrev pub AreRecent : ℕ → World → Type 0
  AreRecent n w = (k : ℕ) → k < n → is_recent (calls (w.calls_made + k)) w.config ≡ true

  select_in-recent :
      (cm : ConfigMap) (pod : Pod) (node : Node) (w : World)
      → w.config.config_map ≡ some cm
      → is_recent (calls w.calls_made) w.config ≡ true
      → select_in X calls pod node w
        ≡ (select_with X cm pod node, record w { calls_made = suc w.calls_made })
  unfolding select_in node_selector_match get_config_cm
  select_in-recent cm pod node w there recent =
      let call = calls w.calls_made in
      let fresh = fetched call.arrival call.reply w.config in
      ap
        (λ (g : ConfigMap × ConfigCache).
          (select_with X g.0 pod node, record w { config = g.1; calls_made = suc w.calls_made }))
        (ap (λ o. cached_or o (is_recent call w.config) w.config fresh) there
          ∙ ap (λ b. cached_or (some cm) b w.config fresh) recent)

  module _ (cm : ConfigMap) (pod : Pod) where
    answers-recent :
        (nodes : List Node) (w : World)
        → w.config.config_map ≡ some cm
        → AreRecent (length nodes) w
        → (answers (node_selector_plugin X calls) pod nodes w
            ≡ each_result (select_with X cm pod) nodes)
          × (state_after (node_selector_plugin X calls) pod nodes w ≡ called (length nodes) w)
    unfolding node_selector_plugin
    answers-recent [] w there recent = (refl, ap (λ n. record w { calls_made = n }) (omega arith))
    answers-recent (node ∷ nodes) w there recent =
        let p = node_selector_plugin X calls in
        let now =
          subst (λ n. is_recent (calls n) w.config ≡ true) (omega arith) (recent 0 (omega arith)) in
        let step = select_in-recent cm pod node w there now in
        let (rest, state) =
          answers-recent nodes (record w { calls_made = suc w.calls_made }) there
            (λ k h.
              subst (λ n. is_recent (calls n) w.config ≡ true) (omega arith)
                (recent (suc k) (omega arith))) in
        (
          ap
                (λ (g : Result Bool × World).
                  record { node = node; result = g.0 } ∷ answers p pod nodes g.1)
                step
              ∙ ap (λ l. record { node = node; result = select_with X cm pod node } ∷ l) rest,
          ap (λ (g : Result Bool × World). state_after p pod nodes g.1) step
              ∙ state
              ∙ ap (λ n. record w { calls_made = n }) (omega arith),
        )

-- While the package's config map is not older than the time-out, the route of the node selector
-- answers a decoded request by one config map for all nodes: it keeps those that this map lets the
-- pod on, in their order, has the last error for each name of a node, and leaves all but the count
-- of the requests for the config map as it was.
pub selector_filter_lem :
    (X : Selectors) (calls : ℕ → Call) (cm : ConfigMap) (pod : Pod) (nodes : List Node) (w : World)
    → w.config.config_map ≡ some cm
    → AreRecent X calls (length nodes) w
    → (r : FilterResult) × (predicate_route
          (node_selector_plugin X calls)
          (some (ok (asked_for pod nodes)))
          w
        ≡ (filtered r, called (length nodes) w))
      × (r.nodes ≡ keep (λ node. says_yes (select_with X cm pod node)) nodes)
      × ((k : String)
          → lookup k r.failed_nodes ≡ last_error k (each_result (select_with X cm pod) nodes))
unfolding predicate_route
selector_filter_lem X calls cm pod nodes w there recent =
    let (r, handled, kept, failed) = handler_lem (node_selector_plugin X calls) pod nodes w in
    let (asked, state) = answers-recent X calls cm pod nodes w there recent in
    (
      r,
      ap respond (handled ∙ ap (λ s. (some r, s)) state),
      kept ∙ ap accepted asked ∙ accepted-keep (select_with X cm pod) nodes,
      λ k. failed k ∙ ap (last_error k) asked,
    )
