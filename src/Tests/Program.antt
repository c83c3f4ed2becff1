-- ===== src/Tests/Program.antt =====
-- Runs of the program, and the theorems on it at concrete data.
use extender_scheduler.Prelude.{
  String, [], ◌<>◌, ◌++◌, map, List, ◌∷◌, ℕ, ◌≡◌, refl, inr, true, false, none,
}
use extender_scheduler.Cluster.{Error, ok, err, external}
use extender_scheduler.Informers.{World}
use extender_scheduler.Predicate.NodeSelector.{Call}
use extender_scheduler.Predicate.ConfigServer.{start_policy_server}
use extender_scheduler.Prioritize.Float.Whole.{whole}
use extender_scheduler.Main.{
  Flags, fatal_mode, exited, serving, only_policy, get_clientset, is_run_mode, main,
}
use extender_scheduler.Main.Relied.{is_synced}
use extender_scheduler.Main.Serving.{
  packages, inited_packages, initial_world, all_services, plugin_names, main_serves,
}
use extender_scheduler.Main.Exits.{Cause, main_exits}
use extender_scheduler.Tests.Samples.{cluster}
use extender_scheduler.Tests.Client.{client, client-IsClient}
use extender_scheduler.Tests.Servers.{selectors}

abbrev calls : ℕ → Call
calls n = record { start = n; reply = ok none; arrival = n }

abbrev flags : Flags
flags = record {
  address = ":8000";
  server_address = ":8001";
  cert_file = "";
  key_file = "";
  basic_auth_file = "";
  kube_config = "config";
  run_mode = "scheduleronly";
}

main_serves_example :
    (w : World) × (main client flags (packages selectors calls whole) (initial_world cluster)
      ≡ serving none ":8000"
          (all_services selectors calls whole)
          (inited_packages selectors calls whole)
          w)
    × (is_synced w ≡ true)
    × (w.initialised ≡ plugin_names)
unfolding get_clientset
main_serves_example =
    main_serves client client-IsClient selectors calls whole cluster flags "config" refl (inr refl)

abbrev world : World
world = initial_world cluster

-- A mode that there is not, a clientset that cannot be made, and the mode without the extender.
modes_run :
    (main client (record flags { run_mode = "none" }) (packages selectors calls whole) world
      ≡ fatal_mode "none")
    × (main client (record flags { kube_config = "" }) (packages selectors calls whole) world
        ≡ exited 1 (external "not in a cluster"))
    × (main client
          (record flags { run_mode = "backendonly"; basic_auth_file = "users" })
          (packages selectors calls whole)
          world
        ≡ only_policy none)
unfolding main get_clientset start_policy_server
modes_run = (refl, refl, refl)

main_exits_example :
    (is_run_mode "scheduleronly" ≡ false
      → main client flags (packages selectors calls whole) world ≡ fatal_mode "scheduleronly")
    × ((e : Error)
        → is_run_mode "scheduleronly" ≡ true
        → get_clientset client flags ≡ err e
        → main client flags (packages selectors calls whole) world ≡ exited 1 e)
    × ((n : ℕ) (e : Error)
        → main client flags (packages selectors calls whole) world ≡ exited n e
        → Cause client flags (packages selectors calls whole) world n e)
main_exits_example = main_exits client flags (packages selectors calls whole) world

-- The verbs of the extenders in deploy/enndata-scheduler.yaml, in the order in which the plug-ins are
-- registered.
abbrev verbs : List String
verbs =
    "predicates/hostpathpvaffinity" ∷ "predicates/hostpathpvdiskpressure"
    ∷ "predicates/namespacenodeselector" ∷ "priorities/hostpathpvdiskuse"
    ∷ "priorities/hostpathpvspread" ∷ []

verbs_run :
    map (λ (path, service). path) (all_services selectors calls whole)
    ≡ map (λ verb. "/scheduler/" <> verb) verbs ++ "/version" ∷ "/health" ∷ []
verbs_run = refl
