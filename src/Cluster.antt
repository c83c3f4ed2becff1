-- ===== src/Cluster.antt =====
-- What the program is given: the API objects with the fields that it reads, and the answers of the
-- listers, of the API server and of the JSON decoder, which are parameters of the model.
mod Objects
mod Errors
unfoldable pub use Objects.*
pub use Errors.*
use extender_scheduler.Prelude.{String, Option, List}
use extender_scheduler.Prelude.Int.{ℤ}

pub record Cluster : Type 0 where
  -- `PodLister.List(labels.Everything())`
  pub list_pods : Result (List Pod)
  -- `PersistentVolumeLister.List(labels.Everything())`
  pub list_pvs : Result (List Pv)
  -- `PersistentVolumeLister.Get(name)`: the pointer may be nil.
  pub get_pv : String → Result (Option Pv)
  -- `PersistentVolumeClaims(namespace).Get(name)`
  pub get_pvc : String → String → Result (Option Pvc)
  -- `clientset.Core().Pods(namespace).Get(name)`: the pod that the API server has now.
  pub live_pod : String → String → Result Pod
  -- `json.Unmarshal` of the annotation with the mounts of a volume.
  pub decode_mounts : String → Result (List NodeMounts)
  -- `json.Unmarshal` of the annotation with the quota disks of a node.
  pub decode_disks : String → Result (List NodeDisk)
