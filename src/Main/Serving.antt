-- ===== src/Main/Serving.antt =====
-- pkg/main.go: how far `main` comes with the plug-ins of the two packages.
use mathlib.Core.Path.{ap₂}
use mathlib.Core.Option.{some-injective}
use extender_scheduler.Prelude.{
  ℕ, ◌≡◌, refl, sym, ap, ◌∙◌, ◌⊎◌, inl, inr, String, Bool, true, false, Option, none, some, List,
  [], ◌∷◌, if◌then◌else◌,
}
use extender_scheduler.Prelude.Text.{◌==◌}
use extender_scheduler.Prelude.Dict.{has_key}
use extender_scheduler.Cluster.{Cluster, ok}
use extender_scheduler.Informers.{Informer, World, hostpath_ready, start_all}
use extender_scheduler.Registry.{and_ready}
use extender_scheduler.Predicate.NodeSelector.{Selectors, Call}
use extender_scheduler.Predicate.Handler.{init_predicates, predicates_ready, install_predicates}
use extender_scheduler.Predicate.Plugins.{
  affinity_plugin, disk_pressure_plugin, node_selector_plugin, predicate_list, initial_predicates,
}
use extender_scheduler.Predicate.Affinity.{affinity_name}
use extender_scheduler.Predicate.DiskPressure.{disk_pressure_name}
use extender_scheduler.Prioritize.Float.{Float}
use extender_scheduler.Prioritize.Handler.{init_prioritizes, prioritizes_ready, install_prioritizes}
use extender_scheduler.Prioritize.Plugins.{
  disk_use_plugin, spread_plugin, disk_use_name, spread_name, prioritize_list, initial_prioritizes,
}
use extender_scheduler.Main.Relied.{is_synced, IsClient}
use extender_scheduler.Main.{
  Packages, Service, predicate_service, prioritize_service, common_services, serving, Flags,
  ClientGo, synced_at, init_packages, install_http_server, get_clientset, wait_again, wait_ready,
  after_wait, after_init, serve_or_exit, policy_of, with_clientset, past_backend, in_mode,
  is_run_mode, main,
}

abbrev idle : Informer
idle = record { requested = false; running = false; synced = false }

-- The state when `main` starts.
abbrev pub initial_world : Cluster → World
initial_world c = record {
  pvs = idle;
  pvcs = idle;
  pods = idle;
  cluster = c;
  initialised = [];
  config = record { config_map = none; updated = 0 };
  calls_made = 0;
}

abbrev pub plugin_names : List String
plugin_names =
    "hostpathpvaffinity" ∷ "hostpathpvdiskpressure" ∷ "namespacenodeselector" ∷ "hostpathpvdiskuse"
    ∷ "hostpathpvspread" ∷ []

abbrev asked : Informer
asked = record { requested = true; running = false; synced = false }

-- The state after `initAll`.
abbrev initialised_world : Cluster → World
initialised_world c = record (initial_world c) {
  pvs = asked;
  pvcs = asked;
  pods = asked;
  initialised = plugin_names;
}

some_ne_none : {B : Type 0} {b : Bool} → some b ≡ none → B
some_ne_none h = cc

both_ready : (b : Bool) → and_ready (some b) (and_ready (some b) (some true)) ≡ some b
both_ready true = refl
both_ready false = refl

module _ (X : Selectors) (calls : ℕ → Call) (F : Float) where
  -- The packages when `main` starts, and after `initAll`.
  abbrev pub packages : Packages
  packages = record { predicates = initial_predicates X calls; prioritizes = initial_prioritizes F }

  abbrev pub inited_packages : Packages
  inited_packages = record {
    predicates = record { plugins = predicate_list X calls; inited = true };
    prioritizes = record { plugins = prioritize_list F; inited = true };
  }

  init_packages-packages :
      (c : Cluster)
      → init_packages packages (initial_world c) ≡ (none, inited_packages, initialised_world c)
  unfolding initial_predicates initial_prioritizes init_packages init_predicates init_prioritizes
  init_packages-packages c = refl

  -- Once the fields are set, every plug-in with informers says whether these have synced.
  hostpath_ready-eq :
      (name : String) (w : World)
      → w.initialised ≡ plugin_names
      → has_key name plugin_names ≡ true
      → hostpath_ready name w ≡ some (is_synced w)
  unfolding hostpath_ready
  hostpath_ready-eq name w e h =
      ap (λ l. if has_key name l then some (is_synced w) else none) e
      ∙ ap (λ b. if b then some (is_synced w) else none) h

  predicates_ready-eq :
      (w : World)
      → w.initialised ≡ plugin_names
      → predicates_ready inited_packages.predicates w ≡ some (is_synced w)
  unfolding predicates_ready has_key affinity_plugin disk_pressure_plugin node_selector_plugin
  predicates_ready-eq w e =
      ap₂ (λ x y. and_ready x (and_ready y (some true))) (hostpath_ready-eq affinity_name w e refl)
        (hostpath_ready-eq disk_pressure_name w e refl)
      ∙ both_ready (is_synced w)

  prioritizes_ready-eq :
      (w : World)
      → w.initialised ≡ plugin_names
      → prioritizes_ready inited_packages.prioritizes w ≡ some (is_synced w)
  unfolding prioritizes_ready has_key disk_use_plugin spread_plugin
  prioritizes_ready-eq w e =
      ap₂ (λ x y. and_ready x (and_ready y (some true))) (hostpath_ready-eq disk_use_name w e refl)
        (hostpath_ready-eq spread_name w e refl)
      ∙ both_ready (is_synced w)

  abbrev pub all_services : List (String × Service)
  all_services =
      ("/scheduler/predicates/hostpathpvaffinity", predicate_service affinity_plugin)
      ∷ ("/scheduler/predicates/hostpathpvdiskpressure", predicate_service disk_pressure_plugin)
      ∷ (
        "/scheduler/predicates/namespacenodeselector",
        predicate_service (node_selector_plugin X calls),
      )
      ∷ ("/scheduler/priorities/hostpathpvdiskuse", prioritize_service (disk_use_plugin F))
      ∷ ("/scheduler/priorities/hostpathpvspread", prioritize_service (spread_plugin F))
      ∷ common_services

  install_http_server-services : install_http_server inited_packages ≡ ok all_services
  unfolding install_http_server install_predicates install_prioritizes affinity_plugin
      disk_pressure_plugin node_selector_plugin disk_use_plugin spread_plugin
  install_http_server-services = refl

  module _ (K : ClientGo) (L : IsClient K) (c : Cluster) where
    -- A call of `WaitForCacheSync` returns, when the informers have synced.
    wait_for-synced :
        (ready : World → Option Bool) (v : World)
        → v.initialised ≡ plugin_names
        → ((w : World) → w.initialised ≡ plugin_names → ready w ≡ some (is_synced w))
        → (w : World) × L.Later v w × (is_synced w ≡ true)
        → (u : World) × (K.wait_for_cache_sync ready v ≡ synced_at u)
          × (u.initialised ≡ plugin_names)
          × (is_synced u ≡ true)
    wait_for-synced ready v names answer (w, later, synced) =
        let (u, e) =
          L.wait_returns ready v w later
            (λ x h.
              answer x (kept x (L.later_trans v w x later h))
              ∙ ap some (L.synced_kept w x h synced))
            (λ x h none'. some_ne_none (sym (answer x (kept x h)) ∙ none')) in
        let (passed, said) = L.wait_only_ready ready v u e in
        (u, e, kept u passed, some-injective _ _ (sym (answer u (kept u passed)) ∙ said))
      where
        kept : (x : World) → L.Later v x → x.initialised ≡ plugin_names
        kept x h = L.initialised_kept v x h ∙ names

    wait_ready-synced :
        (u : World) × (wait_ready K inited_packages (initialised_world c) ≡ synced_at u)
        × (u.initialised ≡ plugin_names)
        × (is_synced u ≡ true)
    unfolding wait_ready
    wait_ready-synced =
        let started = start_all (initialised_world c) in
        let (v, e, names, synced) =
          wait_for-synced (predicates_ready inited_packages.predicates) started refl
            predicates_ready-eq (L.will_sync started refl) in
        let (u, e', names', synced') =
          wait_for-synced (prioritizes_ready inited_packages.prioritizes) v names
            prioritizes_ready-eq (v, L.later_refl v, synced) in
        (
          u,
          ap (wait_again K (prioritizes_ready inited_packages.prioritizes)) e ∙ e',
          names',
          synced',
        )

-- The run modes with the extender.
abbrev pub IsScheduling : String → Type 0
IsScheduling mode = (mode ≡ "all") ⊎ (mode ≡ "scheduleronly")

scheduling_mode :
    (mode : String)
    → IsScheduling mode
    → (is_run_mode mode ≡ true) × ((mode == "backendonly") ≡ false)
scheduling_mode mode (inl e) = (ap is_run_mode e, ap (λ m. m == "backendonly") e)
scheduling_mode mode (inr e) = (ap is_run_mode e, ap (λ m. m == "backendonly") e)

-- In the run modes with the extender, with a clientset, and if the started informers have the objects
-- some time, `main` comes to serve: below seven paths, three of predicates, two of priorities and those
-- of the version and the health, with both packages initialised, and not before all informers that the
-- plug-ins asked for have synced. Beside it runs the configuration server that the mode and the flags
-- give.
pub main_serves :
    (K : ClientGo) (L : IsClient K) (X : Selectors) (calls : ℕ → Call) (F : Float) (c : Cluster)
    (flags : Flags) (clientset : K.Clientset)
    → get_clientset K flags ≡ ok clientset
    → IsScheduling flags.run_mode
    → (w : World) × (main K flags (packages X calls F) (initial_world c)
        ≡ serving
            (policy_of K flags)
            flags.address
            (all_services X calls F)
            (inited_packages X calls F)
            w)
      × (is_synced w ≡ true)
      × (w.initialised ≡ plugin_names)
unfolding main after_init after_wait
main_serves K L X calls F c flags clientset client mode =
    let (w, waited, names, synced) = wait_ready-synced X calls F K L c in
    let (known, other) = scheduling_mode flags.run_mode mode in
    let ps = packages X calls F in
    let policy = policy_of K flags in
    (
      w,
      ap (in_mode K flags ps (initial_world c)) known
          ∙ ap (with_clientset K flags ps (initial_world c)) client
          ∙ ap (past_backend K flags ps (initial_world c)) other
          ∙ ap (after_init K flags policy) (init_packages-packages X calls F c)
          ∙ ap (after_wait K flags policy (inited_packages X calls F)) waited
          ∙ ap (λ r. serve_or_exit K flags policy r (inited_packages X calls F) w)
              (install_http_server-services X calls F),
      synced,
      names,
    )
