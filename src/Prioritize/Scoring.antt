-- ===== src/Prioritize/Scoring.antt =====
-- pkg/algorithm/prioritize/hostpathpv_spread.go and hostpathpv_diskuse.go: `NodesScoring`, whose
-- goroutines, one for each node, add their errors to one list under a mutex and write one slot each
-- of the list of scores. An error that is added and a slot that is written are one step each, and the
-- goroutines take their steps in any order. The calls of the mutex and the wait group are not modelled.
pub mod Interleaving
pub mod InOrder
pub mod Largest
use extender_scheduler.Prelude.{
  ℕ, zero, suc, ◌≡◌, String, Bool, true, false, Option, none, some, List, [], ◌∷◌, ◌++◌, map,
  length, replicate, if◌then◌else◌,
}
use extender_scheduler.Prelude.Int.{ℤ, pos, ltb_ℤ}
use extender_scheduler.Cluster.{Node, Error}

-- `schedulerapi.HostPriority`
pub record HostPriority : Type 0 where
  pub host : String
  pub score : ℤ

-- What `mapScoringNode` does for a node: the errors that it adds, in order, and what it writes.
pub record Scored : Type 0 where
  pub errors : List Error
  pub priority : HostPriority

-- A goroutine: its slot, and what it still has to do.
pub record Routine : Type 0 where
  pub slot : ℕ
  pub left : Scored

pub record Shared : Type 0 where
  pub priorities : List HostPriority
  pub errs : List Error
  pub routines : List Routine

-- A write to a slot of the list.
abbrev pub set_slot : List HostPriority → ℕ → HostPriority → List HostPriority
set_slot [] i p = []
set_slot (q ∷ qs) zero p = p ∷ qs
set_slot (q ∷ qs) (suc i) p = q ∷ set_slot qs i p

abbrev pub spend : Routine → List Error → Routine
spend r es = record r { left = record { errors = es; priority = r.left.priority } }

pub data Step (s : Shared) : Shared → Type 0 where
  add_error :
      (before after : List Routine) (r : Routine) (e : Error) (es : List Error)
      → s.routines ≡ before ++ r ∷ after
      → r.left.errors ≡ e ∷ es
      → Step s (record s { errs = s.errs ++ e ∷ []; routines = before ++ spend r es ∷ after })
  write_slot :
      (before after : List Routine) (r : Routine)
      → s.routines ≡ before ++ r ∷ after
      → r.left.errors ≡ []
      → Step s (record s {
        priorities = set_slot s.priorities r.slot r.left.priority;
        routines = before ++ after;
      })

pub data Steps (s : Shared) : Shared → Type 0 where
  here : Steps s s
  next : {t u : Shared} → Steps s t → Step t u → Steps s u

abbrev pub no_priority : HostPriority
no_priority = record { host = ""; score = pos 0 }

abbrev pub routines_from : ℕ → List Scored → List Routine
routines_from i [] = []
routines_from i (x ∷ xs) = record { slot = i; left = x } ∷ routines_from (suc i) xs

-- The state in which the goroutines start.
abbrev pub started : List Scored → Shared
started xs = record {
  priorities = replicate (length xs) no_priority;
  errs = [];
  routines = routines_from 0 xs;
}

-- The list of scores, and the errors of `errors.NewAggregate` if there are any.
pub record Scores : Type 0 where
  pub priority_list : List HostPriority
  pub failed : List Error

-- `errors.NewAggregate` is nil when there are no errors.
abbrev pub with_errors :
    (List HostPriority → List HostPriority) → List HostPriority → List Error → Scores
with_errors reduce ps [] = record { priority_list = reduce ps; failed = [] }
with_errors reduce ps (e ∷ es) = record { priority_list = ps; failed = e ∷ es }

-- What `NodesScoring` returns when `wg.Wait` is over. `reduceScoringNode` returns no error.
abbrev pub finish : (List HostPriority → List HostPriority) → Shared → Scores
finish reduce s = with_errors reduce s.priorities s.errs

-- The run in which the goroutines go to work one after another, in the order of the nodes.
abbrev pub one_by_one : List Routine → Shared → Shared
one_by_one [] s = record s { routines = [] }
one_by_one (r ∷ rs) s = one_by_one rs (record {
  priorities = set_slot s.priorities r.slot r.left.priority;
  errs = s.errs ++ r.left.errors;
  routines = rs;
})

-- `NodesScoring`, in that run.
unfoldable pub run_nodes_scoring :
    (List HostPriority → List HostPriority) → (Node → Scored) → List Node → Scores
run_nodes_scoring reduce map_node nodes =
    let xs = map map_node nodes in finish reduce (one_by_one (started xs).routines (started xs))

-- The largest score, or 0.
unfoldable pub max_score : ℤ → List HostPriority → ℤ
max_score m [] = m
max_score m (p ∷ ps) = max_score (if ltb_ℤ m p.score then p.score else m) ps
