-- ===== src/Predicate/ConfigServer/Policy.antt =====
-- pkg/algorithm/predicate/namespaces_nodeselector_httpserver.go: `StartPolicyHttpServer` and the routes of
-- the server.
use extender_scheduler.Prelude.{
  ℕ, String, ◌<>◌, Bool, true, false, not, ◌&&◌, Option, none, some, List, [], ◌∷◌, map,
  if◌then◌else◌,
}
use extender_scheduler.Prelude.Text.{◌==◌}
use extender_scheduler.Cluster.{Result, ok, err}

-- The handlers of the server.
pub data Handles : Type 0 where
  gets : Handles
  checks : Handles
  changes : Handles
  lists_labels : Handles
  refreshes : Handles

-- The paths of the GET requests, below `/nsnodeselector`.
abbrev pub policy_routes : List (String × Handles)
policy_routes =
    ("/", gets)
    ∷ ("/check/{namespace}", checks)
    ∷ ("/{addupdateordelete}/", changes)
    ∷ ("/nodelabels/", lists_labels)
    ∷ ("/refresh/{namespace}", refreshes)
    ∷ []

-- A server that was started; its time-out is that of its config map, in nanoseconds.
pub record PolicyServer : Type 0 where
  pub listens_at : String
  pub routes : List (String × Handles)
  pub authenticates : Bool
  pub over_tls : Bool
  pub time_out : ℕ

-- The time-out that `main` passes.
abbrev pub policy_time_out : ℕ
policy_time_out = 10000000000

module _ {Authenticator : Type 0} (new_csv : String → Result Authenticator) where
  abbrev pub policy_server : String → String → String → Bool → PolicyServer
  policy_server addr cert_file key_file authenticates = record {
    listens_at = addr;
    routes = map (λ (path, handles). ("/nsnodeselector" <> path, handles)) policy_routes;
    authenticates = authenticates;
    over_tls = not (cert_file == "") && not (key_file == "");
    time_out = policy_time_out;
  }

  -- With an authenticator all requests go through `WithAuthentication`. At an error no server starts.
  abbrev pub with_authenticator :
      String → String → String → Result Authenticator → Option PolicyServer
  with_authenticator addr cert_file key_file (err e) = none
  with_authenticator addr cert_file key_file (ok authenticator) =
      some (policy_server addr cert_file key_file true)

  -- `StartPolicyHttpServer`
  unfoldable pub start_policy_server :
      (addr cert_file key_file basic_auth_file : String) → Option PolicyServer
  start_policy_server addr cert_file key_file basic_auth_file =
      if not (basic_auth_file == "")
      then with_authenticator addr cert_file key_file (new_csv basic_auth_file)
      else some (policy_server addr cert_file key_file false)
