-- ===== src/Predicate/DiskPressure/Sort.antt =====
-- pkg/algorithm/predicate/hostpathpv_disk_pressure.go: the order of `DiskInfoList`, and
-- `sort.Sort` by it, as an insertion sort. Entries that differ neither in size nor in path may come
-- in any order from Go's.
use extender_scheduler.Prelude.{Bool, ◌&&◌, not, List, [], ◌∷◌, if◌then◌else◌}
use extender_scheduler.Prelude.Int.{ltb_ℤ, leb_ℤ}
use extender_scheduler.Prelude.Text.{str_ltb}
use extender_scheduler.Cluster.{DiskInfo}

-- `Less`
unfoldable pub less : DiskInfo → DiskInfo → Bool
less a b =
    if not (leb_ℤ a.size b.size && leb_ℤ b.size a.size)
    then ltb_ℤ a.size b.size
    else str_ltb a.path b.path

unfoldable pub insert_disk : DiskInfo → List DiskInfo → List DiskInfo
insert_disk d [] = d ∷ []
insert_disk d (e ∷ es) = if less d e then d ∷ e ∷ es else e ∷ insert_disk d es

unfoldable pub sort : List DiskInfo → List DiskInfo
unfolding insert_disk less
sort [] = []
sort (d ∷ ds) = insert_disk d (sort ds)
