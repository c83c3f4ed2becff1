-- ===== src/Main/Environment.antt =====
-- pkg/main.go: the flags, and the parts of client-go and of the API server's library that `main` calls.
use extender_scheduler.Prelude.{String, Bool, Option}
use extender_scheduler.Cluster.{Result}
use extender_scheduler.Informers.{World}

-- The flags. The one for the metrics' address is not used.
pub record Flags : Type 0 where
  pub address : String
  pub server_address : String
  pub cert_file : String
  pub key_file : String
  pub basic_auth_file : String
  pub kube_config : String
  pub run_mode : String

-- How a call of `cache.WaitForCacheSync` ends, with the state at that time.
pub data Waited : Type 0 where
  synced_at : World → Waited
  -- It returned false.
  stopped : Waited
  -- It goes on for ever.
  unending : Waited
  -- The function that it calls panicked.
  ready_panic : Waited

pub record ClientGo : Type 1 where
  pub Config : Type 0
  pub Clientset : Type 0
  pub Authenticator : Type 0
  -- `clientcmd.BuildConfigFromFlags("", path)`
  pub config_from_flags : String → Result Config
  -- `rest.InClusterConfig()`
  pub in_cluster_config : Result Config
  -- `kubernetes.NewForConfig`
  pub new_for_config : Config → Result Clientset
  -- `passwordfile.NewCSV` and `basicauth.New`
  pub new_csv : String → Result Authenticator
  -- `cache.WaitForCacheSync`, on a channel that nothing closes
  pub wait_for_cache_sync : (World → Option Bool) → World → Waited
