-- ===== src/Algorithm/HostPath/Capacity.antt =====
-- pkg/algorithm/hostpathpv.go: the capacity of a volume, and `GetNodeDiskInfo`.
use extender_scheduler.Prelude.{String, not, Option, none, some, List, [], if◌then◌else◌}
use extender_scheduler.Prelude.Int.{ℤ, pos, ltb_ℤ}
use extender_scheduler.Prelude.Text.{◌==◌, parse_int, format_int}
use extender_scheduler.Prelude.Dict.{Dict, insert}
use extender_scheduler.Cluster.{
  Cluster, Pv, Node, NodeDisk, Result, ok, err, capacity_undefined, capacity_too_small,
  not_hostpath, disks_unmarshal, or_error, node_disk_ann, capacity_ann,
}
use extender_scheduler.Algorithm.HostPath.Kinds.{is_common_host_path_pv, annotation}

abbrev or_zero : Option ℤ → ℤ
or_zero none = pos 0
or_zero (some v) = v

-- The annotation's number, if it parses.
abbrev annotated : ℤ → Option ℤ → ℤ
annotated capacity none = capacity
annotated capacity (some v) = v

abbrev declared : String → Option ℤ → Result ℤ
declared name none = err (capacity_undefined name)
declared name (some v) = ok v

unfoldable pub get_capacity : Pv → Result ℤ
unfolding is_common_host_path_pv annotation
get_capacity pv =
    let text = annotation pv.annotations capacity_ann in
    if is_common_host_path_pv (some pv)
    then (if not (text == "")
        then ok (annotated (or_zero pv.storage) (parse_int text))
        else declared pv.name pv.storage)
    else ok (pos 0)

abbrev pub or_empty : Option (Dict String) → Dict String
or_empty none = []
or_empty (some m) = m

-- The volume with its new annotation; at an error it is left alone.
unfoldable pub set_capacity : Pv → ℤ → Result Pv
unfolding is_common_host_path_pv insert format_int
set_capacity pv size =
    if ltb_ℤ size (pos 10)
    then err (capacity_too_small "set pv size should not less than 10M")
    else if is_common_host_path_pv (some pv)
    then ok (record pv {
      annotations = some (insert capacity_ann (format_int size) (or_empty pv.annotations));
    })
    else err (not_hostpath pv.name)

unfoldable pub get_node_disk_info : Cluster → Node → Result (List NodeDisk)
unfolding annotation
get_node_disk_info c node =
    let text = annotation node.annotations node_disk_ann in
    if not (text == "") then or_error disks_unmarshal (c.decode_disks text) else ok []
