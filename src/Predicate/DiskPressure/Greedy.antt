-- ===== src/Predicate/DiskPressure/Greedy.antt =====
-- pkg/algorithm/predicate/hostpathpv_disk_pressure.go: `canRequestMatch`.
use extender_scheduler.Prelude.{Bool, true, false, List, [], ◌∷◌}
use extender_scheduler.Prelude.Int.{leb_ℤ, sub64}
use extender_scheduler.Cluster.{DiskInfo}

-- The loop over the two indices, on what lies at and behind them: a request is taken from the
-- current disk, or the disk is passed over. The second result is `haveNow` as the loop leaves it.
unfoldable pub can_request_match : List DiskInfo → List DiskInfo → Bool × List DiskInfo
unfolding sub64
can_request_match [] disks = (true, disks)
can_request_match (r ∷ rs) [] = (false, [])
can_request_match (r ∷ rs) (d ∷ ds) = elim (leb_ℤ r.size d.size) [
  | true ↦ can_request_match rs (record d { size = sub64 d.size r.size } ∷ ds)
  | false ↦ let (matched, left) = can_request_match (r ∷ rs) ds in (matched, d ∷ left)
]
