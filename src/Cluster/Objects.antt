-- ===== src/Cluster/Objects.antt =====
-- The objects of the Kubernetes API and of the hostpath CSI plugin, with the fields that the
-- program reads. A map that may be nil is an option.
use extender_scheduler.Prelude.{String, Bool, Option, List}
use extender_scheduler.Prelude.Int.{ℤ}
use extender_scheduler.Prelude.Dict.{Dict}

pub data Phase : Type 0 where
  pending running succeeded failed unknown : Phase

-- A volume of a pod: the name of its claim, if it has one.
pub record Volume : Type 0 where
  pub claim_name : Option String

pub record Pod : Type 0 where
  pub name : String
  pub namespace : String
  pub node_name : String
  pub volumes : List Volume
  pub phase : Phase
  -- `DeletionTimestamp != nil`
  pub deleting : Bool

pub record ClaimRef : Type 0 where
  pub namespace : String
  pub name : String

-- A persistent volume.
pub record Pv : Type 0 where
  pub name : String
  pub annotations : Option (Dict String)
  -- `Spec.HostPath != nil`
  pub host_path : Bool
  -- The driver of `Spec.CSI`, if that is not nil.
  pub csi_driver : Option String
  pub claim_ref : Option ClaimRef
  -- The value of the quantity `Spec.Capacity["storage"]`, if the key is there.
  pub storage : Option ℤ

pub data ClaimPhase : Type 0 where
  claim_pending claim_bound claim_lost : ClaimPhase

-- A persistent volume claim.
pub record Pvc : Type 0 where
  pub phase : ClaimPhase
  pub volume_name : String

pub record Node : Type 0 where
  pub name : String
  pub annotations : Option (Dict String)
  pub labels : Dict String

-- `hostpath.MountInfo`
pub record MountInfo : Type 0 where
  pub host_path : String
  pub volume_quota_size : ℤ

-- `hostpath.HostPathPVMountInfo`
pub record NodeMounts : Type 0 where
  pub node_name : String
  pub mount_infos : List MountInfo

-- `xfsquotamanager.NodeDiskQuotaInfo`
pub record NodeDisk : Type 0 where
  pub mount_path : String
  pub allocable : ℤ
  pub disabled : Bool

-- Keys of annotations, of the hostpath CSI plugin.
abbrev pub mount_node_ann : String
mount_node_ann = "io.enndata.kubelet/alpha-pvchostpathnode"

abbrev pub mount_policy_ann : String
mount_policy_ann = "io.enndata.user/alpha-pvhostpathmountpolicy"

abbrev pub node_disk_ann : String
node_disk_ann = "io.enndata.kubelet/alpha-nodediskquotainfo"

abbrev pub capacity_ann : String
capacity_ann = "io.enndata.user/alpha-pvhostpathcapcity"

abbrev pub one_pod_ann : String
one_pod_ann = "io.enndata.user/alpha-pvhostpathquotaforonepod"
