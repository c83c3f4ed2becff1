-- ===== src/Main/Start.antt =====
-- pkg/main.go: `main` and the functions it is made of.
use extender_scheduler.Prelude.{
  ℕ, String, Bool, not, ◌||◌, Option, none, some, List, [], ◌∷◌, ◌++◌, map, if◌then◌else◌,
}
use extender_scheduler.Prelude.Text.{◌==◌}
use extender_scheduler.Cluster.{Error, Result, ok, err, ◌>>=◌, wait_timeout, install_failed}
use extender_scheduler.Informers.{World, start_all}
use extender_scheduler.Registry.{Registry}
use extender_scheduler.Predicate.Handler.{
  Predicate, init_predicates, predicates_ready, install_predicates,
}
use extender_scheduler.Prioritize.Handler.{
  Prioritize, init_prioritizes, prioritizes_ready, install_prioritizes,
}
use extender_scheduler.Predicate.ConfigServer.{PolicyServer, start_policy_server}
use extender_scheduler.Main.Environment.{
  Flags, Waited, synced_at, stopped, unending, ready_panic, ClientGo,
}

abbrev pub api_prefix : String
api_prefix = "scheduler"

abbrev pub version : String
version = "v0.1.0"

-- The variables of the two packages.
pub record Packages : Type 0 where
  pub predicates : Registry (Predicate World)
  pub prioritizes : Registry (Prioritize World)

-- What answers below a path.
pub data Service : Type 0 where
  predicate_service : Predicate World → Service
  prioritize_service : Prioritize World → Service
  -- A GET is answered with a text.
  text_service : String → Service

-- Where `main` gets to.
pub data Ending : Type 0 where
  -- `glog.Fatalf` for a run mode.
  fatal_mode : String → Ending
  -- `os.Exit`, after the error is logged
  exited : ℕ → Error → Ending
  -- It waits at the channel that nothing closes, and the configuration server runs.
  only_policy : Option PolicyServer → Ending
  -- It never stops waiting for the informers.
  not_synced : Option PolicyServer → Ending
  panicked : Option PolicyServer → Ending
  -- It is in `ListenAndServe`.
  serving :
      Option PolicyServer → (address : String) → List (String × Service) → Packages → World → Ending

abbrev pub init_second :
    Packages → Option Error × Registry (Predicate World) × World → Option Error × Packages × World
init_second ps (some e, predicates, w) = (some e, record ps { predicates = predicates }, w)
init_second ps (none, predicates, w) =
    let (failure, prioritizes, w') = init_prioritizes ps.prioritizes w in
    (failure, record { predicates = predicates; prioritizes = prioritizes }, w')

-- `initAll`
unfoldable pub init_packages : Packages → World → Option Error × Packages × World
unfolding init_predicates init_prioritizes
init_packages ps w = init_second ps (init_predicates ps.predicates w)

abbrev pub common_services : List (String × Service)
common_services = ("/version", text_service version) ∷ ("/health", text_service "OK") ∷ []

abbrev pub services_of :
    List (String × Predicate World) → List (String × Prioritize World) → List (String × Service)
services_of predicates prioritizes =
    map (λ (path, p). (path, predicate_service p)) predicates
    ++ (map (λ (path, p). (path, prioritize_service p)) prioritizes ++ common_services)

abbrev pub installed :
    Result (List (String × Predicate World))
    → Result (List (String × Prioritize World))
    → Result (List (String × Service))
installed (err e) prioritizes = err (install_failed "predicates" e)
installed (ok predicates) (err e) = err (install_failed "prioritizes" e)
installed (ok predicates) (ok prioritizes) = ok (services_of predicates prioritizes)

-- `installHttpServer`, with `installCommonHttpServer`
unfoldable pub install_http_server : Packages → Result (List (String × Service))
unfolding install_predicates install_prioritizes
install_http_server ps =
    installed (install_predicates api_prefix ps.predicates)
      (install_prioritizes api_prefix ps.prioritizes)

abbrev pub is_run_mode : String → Bool
is_run_mode mode = mode == "all" || mode == "scheduleronly" || mode == "backendonly"

module _ (K : ClientGo) where
  -- `buildConfig`
  abbrev pub build_config : String → Result K.Config
  build_config path = if not (path == "") then K.config_from_flags path else K.in_cluster_config

  -- `getClientset`
  unfoldable pub get_clientset : Flags → Result K.Clientset
  get_clientset flags = build_config flags.kube_config >>= K.new_for_config

  -- `waitReady`
  abbrev pub wait_again : (World → Option Bool) → Waited → Waited
  wait_again ready (synced_at w) = K.wait_for_cache_sync ready w
  wait_again ready stopped = stopped
  wait_again ready unending = unending
  wait_again ready ready_panic = ready_panic

  unfoldable pub wait_ready : Packages → World → Waited
  unfolding predicates_ready prioritizes_ready
  wait_ready ps w =
      wait_again (prioritizes_ready ps.prioritizes)
        (K.wait_for_cache_sync (predicates_ready ps.predicates) (start_all w))

  module _ (flags : Flags) (policy : Option PolicyServer) where
    abbrev pub serve_or_exit : Result (List (String × Service)) → Packages → World → Ending
    serve_or_exit (err e) ps w = exited 4 e
    serve_or_exit (ok services) ps w = serving policy flags.address services ps w

    unfoldable pub after_wait : Packages → Waited → Ending
    unfolding install_http_server
    after_wait ps (synced_at w) = serve_or_exit (install_http_server ps) ps w
    after_wait ps stopped = exited 3 wait_timeout
    after_wait ps unending = not_synced policy
    after_wait ps ready_panic = panicked policy

    unfoldable pub after_init : Option Error × Packages × World → Ending
    unfolding wait_ready after_wait
    after_init (some e, ps, w) = exited 2 e
    after_init (none, ps, w) = after_wait ps (wait_ready ps w)

  abbrev pub policy_of : Flags → Option PolicyServer
  policy_of flags =
      if flags.run_mode == "all" || flags.run_mode == "backendonly"
      then start_policy_server K.new_csv flags.server_address flags.cert_file flags.key_file
          flags.basic_auth_file
      else none

  -- `main` past the modes without the extender itself
  abbrev pub schedule : Flags → Packages → World → Ending
  schedule flags ps w = after_init flags (policy_of flags) (init_packages ps w)

  abbrev pub past_backend : Flags → Packages → World → Bool → Ending
  past_backend flags ps w backend =
      if backend then only_policy (policy_of flags) else schedule flags ps w

  abbrev pub with_clientset : Flags → Packages → World → Result K.Clientset → Ending
  with_clientset flags ps w (err e) = exited 1 e
  with_clientset flags ps w (ok clientset) =
      past_backend flags ps w (flags.run_mode == "backendonly")

  abbrev pub in_mode : Flags → Packages → World → Bool → Ending
  in_mode flags ps w known =
      if not known
      then fatal_mode flags.run_mode
      else with_clientset flags ps w (get_clientset flags)

  -- `main`
  unfoldable pub main : Flags → Packages → World → Ending
  unfolding get_clientset start_policy_server init_packages after_init
  main flags ps w = in_mode flags ps w (is_run_mode flags.run_mode)
