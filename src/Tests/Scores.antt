-- ===== src/Tests/Scores.antt =====
-- Runs of the priorities, and their theorems at concrete data. Whole numbers stand for `float64`.
use mathlib.Core.List.{Perm}
use extender_scheduler.Prelude.{
  ℕ, ◌≡◌, ◌≢◌, refl, String, some, List, [], ◌∷◌, map, get_elem?, All, arith,
}
use extender_scheduler.Prelude.Int.{ℤ, pos, ◌≤ℤ◌}
use extender_scheduler.Cluster.{Error, external}
use extender_scheduler.Prioritize.Float.Whole.{whole, whole-IsRounding}
use extender_scheduler.Prioritize.Scoring.{
  HostPriority, Scored, Shared, add_error, write_slot, Steps, here, next, started, finish,
}
use extender_scheduler.Prioritize.Scoring.Interleaving.{finish_lem}
use extender_scheduler.Prioritize.Scoring.Interleaving.Slots.{priorities_of, errors_of}
use extender_scheduler.Prioritize.Spread.{
  spread_score, spread_reduce, spread_map, count_volumes, count_pv, pods_counted,
}
use extender_scheduler.Prioritize.Spread.Reduced.{spread_reduce_lem}
use extender_scheduler.Prioritize.DiskUse.{disk_use_reduce, disk_use_map, disk_use, free_percent}
use extender_scheduler.Prioritize.DiskUse.Reduced.{disk_use_reduce_lem}
use extender_scheduler.Tests.Samples.{web, node, cluster, program}

abbrev scored : String → ℕ → HostPriority
scored host score = record { host = host; score = pos score }

abbrev counts : List HostPriority
counts = scored "n1" 4 ∷ scored "n2" 0 ∷ scored "n3" 2 ∷ []

-- Fewer pods score higher.
spread_run : spread_reduce whole counts ≡ scored "n1" 0 ∷ scored "n2" 10 ∷ scored "n3" 0 ∷ []
unfolding spread_reduce spread_score
spread_run = refl

spread_reduce_lem_example :
    (map (λ q. q.host) (spread_reduce whole counts) ≡ "n1" ∷ "n2" ∷ "n3" ∷ [])
    × All (λ q. (pos 0 ≤ℤ q.score) × (q.score ≤ℤ pos 10)) (spread_reduce whole counts)
    × ((i : ℕ) (p : HostPriority)
        → get_elem? counts i ≡ some p
        → p.score ≡ pos 0
        → get_elem? (spread_reduce whole counts) i ≡ some (record p { score = pos 10 }))
    × ((i j : ℕ) (p q : HostPriority)
        → get_elem? counts i ≡ some p
        → get_elem? counts j ≡ some q
        → p.score ≤ℤ q.score
        → (x : ℤ) × (y : ℤ) × (get_elem? (spread_reduce whole counts) i
            ≡ some (record p { score = x }))
          × (get_elem? (spread_reduce whole counts) j ≡ some (record q { score = y }))
          × (y ≤ℤ x))
spread_reduce_lem_example = spread_reduce_lem whole whole-IsRounding counts (omega arith)

disk_use_reduce_lem_example :
    (map (λ q. q.host) (disk_use_reduce whole counts) ≡ "n1" ∷ "n2" ∷ "n3" ∷ [])
    × All (λ q. (pos 0 ≤ℤ q.score) × (q.score ≤ℤ pos 10)) (disk_use_reduce whole counts)
    × ((i : ℕ) (p : HostPriority)
        → get_elem? counts i ≡ some p
        → pos 1 ≤ℤ p.score
        → All (λ q. q.score ≤ℤ p.score) counts
        → get_elem? (disk_use_reduce whole counts) i ≡ some (record p { score = pos 10 }))
    × ((i j : ℕ) (p q : HostPriority)
        → get_elem? counts i ≡ some p
        → get_elem? counts j ≡ some q
        → p.score ≤ℤ q.score
        → (x : ℤ) × (y : ℤ) × (get_elem? (disk_use_reduce whole counts) i
            ≡ some (record p { score = x }))
          × (get_elem? (disk_use_reduce whole counts) j ≡ some (record q { score = y }))
          × (x ≤ℤ y))
disk_use_reduce_lem_example = disk_use_reduce_lem whole whole-IsRounding counts (omega arith)

spread_map_run :
    spread_map cluster web (node "n1") ≡ record { errors = []; priority = scored "n1" 1 }
unfolding program spread_map count_volumes count_pv pods_counted
spread_map_run = refl

disk_use_run :
    disk_use_map whole cluster (node "n1") ≡ record { errors = []; priority = scored "n1" 43 }
unfolding program disk_use_map disk_use free_percent
disk_use_run = refl

abbrev no_lister : Error
no_lister = external "no lister"

abbrev two : List Scored
two =
    record { errors = no_lister ∷ []; priority = scored "n1" 4 }
    ∷ record { errors = []; priority = scored "n2" 1 }
    ∷ []

abbrev done : Shared
done = record {
  priorities = scored "n1" 4 ∷ scored "n2" 1 ∷ [];
  errs = no_lister ∷ [];
  routines = [];
}

-- The second goroutine is done before the first one starts.
two-Steps : Steps (started two) done
two-Steps =
    next
      (next
        (next here (
          write_slot
            (record {
              slot = 0;
              left = record { errors = no_lister ∷ []; priority = scored "n1" 4 };
            }
              ∷ [])
            [] (record { slot = 1; left = record { errors = []; priority = scored "n2" 1 } }) refl
            refl))
        (add_error [] []
          (record { slot = 0; left = record { errors = no_lister ∷ []; priority = scored "n1" 4 } })
          no_lister [] refl refl))
      (write_slot [] []
        (record { slot = 0; left = record { errors = []; priority = scored "n1" 4 } }) refl refl)

finish_lem_example :
    (errors_of two ≡ []
      → finish (spread_reduce whole) done
        ≡ record { priority_list = spread_reduce whole (priorities_of two); failed = [] })
    × (errors_of two ≢ []
        → ((finish (spread_reduce whole) done).priority_list ≡ priorities_of two)
          × ((finish (spread_reduce whole) done).failed ≢ [])
          × Perm (finish (spread_reduce whole) done).failed (errors_of two))
finish_lem_example = finish_lem (spread_reduce whole) two done two-Steps refl
