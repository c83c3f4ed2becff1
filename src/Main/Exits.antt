-- ===== src/Main/Exits.antt =====
-- pkg/main.go: the exit codes of `main`.
use mathlib.Core.Path.{ap₂}
use extender_scheduler.Prelude.{
  ℕ, ◌≡◌, refl, sym, ap, ◌∙◌, ◌⊎◌, inl, inr, String, Bool, true, false, Option, none, some, List,
  map,
}
use extender_scheduler.Prelude.Text.{◌==◌}
use extender_scheduler.Cluster.{Error, Result, ok, err, wait_timeout}
use extender_scheduler.Informers.{World}
use extender_scheduler.Registry.{
  Plugin, Registry, init_loop, init_all, mark_inited, install, route_path,
}
use extender_scheduler.Predicate.Handler.{
  Predicate, init_predicates, install_predicates, predicate_plugin,
}
use extender_scheduler.Prioritize.Handler.{init_prioritizes, install_prioritizes, prioritize_plugin}
use extender_scheduler.Main.{
  Packages, Service, exited, serving, only_policy, fatal_mode, Flags, ClientGo, Waited, synced_at,
  stopped, unending, ready_panic, init_packages, install_http_server, get_clientset, api_prefix,
  services_of, installed, is_run_mode, init_second, after_wait, after_init, wait_ready,
  with_clientset, schedule, past_backend, in_mode, serve_or_exit, policy_of, main,
}
use extender_scheduler.Predicate.ConfigServer.{PolicyServer}

module _ {P S : Type 0} (I : Plugin P S) where
  -- A package whose initialisation succeeds is initialised.
  mark_inited-inited :
      (failure : Option Error) (r : Registry P)
      → failure ≡ none
      → (mark_inited I failure r).inited ≡ true
  mark_inited-inited none r e = refl
  mark_inited-inited (some f) r e = cc

  init_all-inited :
      (r : Registry P) (s : S) → (init_all I r s).0 ≡ none → (init_all I r s).1.inited ≡ true
  unfolding init_all
  init_all-inited r s e = mark_inited-inited (init_loop I r.plugins s).0 r e

install-ok :
    {P S : Type 0} (I : Plugin P S) (api_prefix part : String) (r : Registry P)
    → r.inited ≡ true
    → (routes : List (String × P)) × (install I api_prefix part r ≡ ok routes)
unfolding install
install-ok I api_prefix part r e = (map (λ p. (route_path I api_prefix part p, p)) r.plugins, rw e)

abbrev AllInited : Packages → Type 0
AllInited ps = (ps.predicates.inited ≡ true) × (ps.prioritizes.inited ≡ true)

install_http_server-ok :
    (ps : Packages)
    → AllInited ps
    → (services : List (String × Service)) × (install_http_server ps ≡ ok services)
unfolding install_http_server install_predicates install_prioritizes
install_http_server-ok ps h =
    let (predicates, e) = install-ok predicate_plugin api_prefix "predicates" ps.predicates h.0 in
    let (prioritizes, e') =
      install-ok prioritize_plugin api_prefix "priorities" ps.prioritizes h.1 in
    (services_of predicates prioritizes, ap₂ installed e e')

init_second-AllInited :
    (ps : Packages) (r : Option Error × Registry (Predicate World) × World)
    → (r.0 ≡ none → r.1.inited ≡ true)
    → (init_second ps r).0 ≡ none
    → AllInited (init_second ps r).1
unfolding init_prioritizes
init_second-AllInited ps (some e, predicates, w) h n = cc
init_second-AllInited ps (none, predicates, w) h n =
    (h refl, init_all-inited prioritize_plugin ps.prioritizes w n)

init_packages-AllInited :
    (ps : Packages) (w : World) → (init_packages ps w).0 ≡ none → AllInited (init_packages ps w).1
unfolding init_packages init_predicates
init_packages-AllInited ps w =
    init_second-AllInited ps (init_predicates ps.predicates w)
      (init_all-inited predicate_plugin ps.predicates w)

exited-injective : {n m : ℕ} {e f : Error} → exited m f ≡ exited n e → (n ≡ m) × (e ≡ f)
exited-injective h = (cc, cc)

serving-ne-exited :
    {B : Type 0} {policy : Option PolicyServer} {address : String}
    {services : List (String × Service)} {ps : Packages} {w : World} {n : ℕ} {e : Error}
    → serving policy address services ps w ≡ exited n e
    → B
serving-ne-exited h = cc

only_policy-ne-exited :
    {B : Type 0} {policy : Option PolicyServer} {n : ℕ} {e : Error}
    → only_policy policy ≡ exited n e
    → B
only_policy-ne-exited h = cc

fatal_mode-ne-exited :
    {B : Type 0} {mode : String} {n : ℕ} {e : Error} → fatal_mode mode ≡ exited n e → B
fatal_mode-ne-exited h = cc

module _ (K : ClientGo) (flags : Flags) where
  -- `os.Exit` after the wait: the code is 3.
  abbrev pub Is3 : ℕ → Error → Type 0
  Is3 n e = (n ≡ 3) × (e ≡ wait_timeout)

  module _ (policy : Option PolicyServer) where
    exit_after_wait :
        (ps : Packages) (r : Waited) (n : ℕ) (e : Error)
        → AllInited ps
        → after_wait K flags policy ps r ≡ exited n e
        → Is3 n e
    unfolding after_wait
    exit_after_wait ps (synced_at w) n e h x =
        let (services, same) = install_http_server-ok ps h in
        serving-ne-exited (sym (ap (λ r. serve_or_exit K flags policy r ps w) same) ∙ x)
    exit_after_wait ps stopped n e h x = exited-injective x
    exit_after_wait ps unending n e h x = cc
    exit_after_wait ps ready_panic n e h x = cc

    exit_after_init :
        (r : Option Error × Packages × World) (n : ℕ) (e : Error)
        → (r.0 ≡ none → AllInited r.1)
        → after_init K flags policy r ≡ exited n e
        → ((n ≡ 2) × (r.0 ≡ some e)) ⊎ Is3 n e
    unfolding after_init
    exit_after_init (some f, ps, w) n e h x =
        let (same, e') = exited-injective x in inl (same, ap some (sym e'))
    exit_after_init (none, ps, w) n e h x =
        inr (exit_after_wait ps (wait_ready K ps w) n e (h refl) x)

  module _ (ps : Packages) (w : World) where
    abbrev pub Cause : ℕ → Error → Type 0
    Cause n e =
        ((n ≡ 1) × (get_clientset K flags ≡ err e))
        ⊎ (((n ≡ 2) × ((init_packages ps w).0 ≡ some e)) ⊎ Is3 n e)

    exit_of :
        (r : Result K.Clientset) (n : ℕ) (e : Error)
        → get_clientset K flags ≡ r
        → with_clientset K flags ps w r ≡ exited n e
        → Cause n e
    exit_of (err f) n e same x =
        let (code, e') = exited-injective x in inl (code, same ∙ ap err (sym e'))
    exit_of (ok clientset) n e same x = inr (
        exit_after_init (policy_of K flags) (init_packages ps w) n e (init_packages-AllInited ps w)
          (exit_past_backend (flags.run_mode == "backendonly") x))
      where
        exit_past_backend :
            (b : Bool)
            → past_backend K flags ps w b ≡ exited n e
            → schedule K flags ps w ≡ exited n e
        exit_past_backend true x = only_policy-ne-exited x
        exit_past_backend false x = x

    past_mode : (b : Bool) (n : ℕ) (e : Error) → in_mode K flags ps w b ≡ exited n e → Cause n e
    past_mode true n e x = exit_of (get_clientset K flags) n e refl x
    past_mode false n e x = fatal_mode-ne-exited x

    -- A run mode that is none of the three ends the program at once, and without a clientset it exits with 1.
    -- Whenever it exits, the code tells why: 1 that there is no clientset, 2 that a plug-in's initialisation
    -- failed, and 3 that the wait for the informers was stopped. It never exits with 4: after
    -- a successful initialisation the installation of the services cannot fail.
    pub main_exits :
        (is_run_mode flags.run_mode ≡ false → main K flags ps w ≡ fatal_mode flags.run_mode)
        × ((e : Error)
            → is_run_mode flags.run_mode ≡ true
            → get_clientset K flags ≡ err e
            → main K flags ps w ≡ exited 1 e)
        × ((n : ℕ) (e : Error) → main K flags ps w ≡ exited n e → Cause n e)
    unfolding main
    main_exits = (
      λ h. ap (in_mode K flags ps w) h,
      λ e h failed. ap (in_mode K flags ps w) h ∙ ap (with_clientset K flags ps w) failed,
      past_mode (is_run_mode flags.run_mode),
    )
