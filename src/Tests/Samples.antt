-- ===== src/Tests/Samples.antt =====
-- Concrete objects for the tests: two nodes, a volume with a directory for each pod, one that pods
-- share, and a decoder that knows a few texts.
use extender_scheduler.Prelude.{
  subst, String, false, none, some, List, [], ◌∷◌, All, arith, Bool-cases, inl, inr, if◌then◌else◌,
}
use extender_scheduler.Prelude.Int.{pos, IsInt64, sub64, add64, wrap64, ◌+ℤ◌, ◌-ℤ◌}
use extender_scheduler.Prelude.Text.{◌==◌, contains_lower, parse_int, format_int}
use extender_scheduler.Prelude.Text.Paths.{clean}
use extender_scheduler.Prelude.Dict.{lookup, insert, has_key, add_key}
use extender_scheduler.Cluster.{
  Cluster, Pod, Volume, Pv, Pvc, Node, NodeMounts, MountInfo, NodeDisk, running, succeeded,
  claim_bound, external, ok, err, ok-injective, err-ne-ok, mount_node_ann, node_disk_ann,
  capacity_ann, one_pod_ann,
}
use extender_scheduler.Algorithm.PodInfo.{
  on_node_with_pvc, is_pod_use_pvc, is_pod_ready, filter_by_node_and_pvc,
}
use extender_scheduler.Algorithm.HostPath.{
  has_empty_item, free_item, is_mount_on_node, is_common_host_path_pv, is_shared_host_path_pv,
  is_keep_host_path_pv, annotation, get_capacity, set_capacity, get_node_disk_info, mount_info_list,
  used_node_map, used_pod_map, pod_key, has_empty_item_for_node, pod_volume_pv, node_mount_info,
  add_mount, add_mounts, unplaced_mounts, add_node_mounts, add_pv, add_pvs,
}
use extender_scheduler.Predicate.DiskPressure.{
  add_request, add_volume_pv, request_loop, sort, pod_disks, node_disks, left_on, can_request_match,
  disk_pressure_match,
}
use extender_scheduler.Predicate.DiskPressure.Decision.{DecodesInt64}
use extender_scheduler.Predicate.Affinity.{pod_pv_match_node, affinity_match}

abbrev pub claims : String → List Volume
claims name = record { claim_name = some name } ∷ []

abbrev pub user : String → String → Pod
user name node = record {
  name = name;
  namespace = "shop";
  node_name = node;
  volumes = claims "data";
  phase = running;
  deleting = false;
}

-- The pod that is to be scheduled.
abbrev pub web : Pod
web = user "web" ""

abbrev pub data_pv : Pv
data_pv = record {
  name = "data-pv";
  annotations =
      some ((mount_node_ann, "data mounts") ∷ (capacity_ann, "50") ∷ (one_pod_ann, "true") ∷ []);
  host_path = false;
  csi_driver = some "com.example.HostPath";
  claim_ref = some (record { namespace = "shop"; name = "data" });
  storage = none;
}

abbrev pub data_pvc : Pvc
data_pvc = record { phase = claim_bound; volume_name = "data-pv" }

abbrev pub directory : MountInfo
directory = record { host_path = "/mnt/disk1//a/"; volume_quota_size = pos 40 }

abbrev pub other_directory : MountInfo
other_directory = record { host_path = "/mnt/disk2/b"; volume_quota_size = pos 50 }

abbrev pub data_mounts : List NodeMounts
data_mounts = record { node_name = "n1"; mount_infos = directory ∷ other_directory ∷ [] } ∷ []

abbrev pub two_disks : List NodeDisk
two_disks =
    record { mount_path = "/mnt/disk1"; allocable = pos 100; disabled = false }
    ∷ record { mount_path = "/mnt/disk2"; allocable = pos 60; disabled = false }
    ∷ []

abbrev pub node : String → Node
node name = record {
  name = name;
  annotations = some ((node_disk_ann, "two disks") ∷ []);
  labels = [];
}

abbrev pub cluster : Cluster
cluster = record {
  list_pods = ok (user "old" "n1" ∷ record (user "gone" "n1") { phase = succeeded } ∷ []);
  list_pvs = ok (data_pv ∷ []);
  get_pv = λ name. ok (if name == "data-pv" then some data_pv else none);
  get_pvc = λ namespace name. ok (if name == "data" then some data_pvc else none);
  live_pod = λ namespace name. err (external "not found");
  decode_mounts =
      λ text. if text == "data mounts" then ok data_mounts else err (external "no json");
  decode_disks = λ text. if text == "two disks" then ok two_disks else err (external "no json");
}

pub cluster-DecodesInt64 : DecodesInt64 cluster
cluster-DecodesInt64 text disks h = elim (Bool-cases (text == "two disks")) [
  | inl e ↦ subst (All (λ d. IsInt64 d.allocable)) (ok-injective (rw e at h)) (omega arith)
  | inr e ↦ err-ne-ok (rw e at h)
]

-- The definitions that the runs evaluate.
unfoldable pub program : Unit {0}
unfolding has_empty_item free_item is_mount_on_node add_request add_volume_pv request_loop sort ◌-ℤ◌
    on_node_with_pvc is_pod_use_pvc is_pod_ready sub64 add64 wrap64 ◌+ℤ◌ contains_lower parse_int
    format_int clean lookup insert has_key add_key filter_by_node_and_pvc is_common_host_path_pv
    is_shared_host_path_pv is_keep_host_path_pv annotation get_capacity set_capacity
    get_node_disk_info mount_info_list used_node_map used_pod_map pod_key has_empty_item_for_node
    pod_volume_pv node_mount_info add_mount add_mounts unplaced_mounts add_node_mounts add_pv
    add_pvs pod_disks node_disks left_on can_request_match disk_pressure_match pod_pv_match_node
    affinity_match
program = tt
