-- ===== src/Prioritize/Scoring/InOrder.antt =====
-- pkg/algorithm/prioritize/hostpathpv_spread.go and hostpathpv_diskuse.go: the run of `NodesScoring` in
-- which the goroutines go to work one after another, and the answer to a scoring request.
use mathlib.Core.List.{append_assoc, append-nil}
use extender_scheduler.Prelude.{ℕ, ◌≡◌, ◌≢◌, refl, sym, subst, List, [], ◌∷◌, ◌++◌, map}
use extender_scheduler.Cluster.{Node, Error}
use extender_scheduler.Prioritize.Scoring.{
  HostPriority, Scored, Routine, Shared, set_slot, add_error, write_slot, Steps, here, next,
  started, one_by_one, run_nodes_scoring,
}
use extender_scheduler.Prioritize.Scoring.Interleaving.{finish_lem}
use extender_scheduler.Prioritize.Scoring.Interleaving.Slots.{priorities_of, errors_of}

abbrev state : List HostPriority → List Error → List Routine → Shared
state ps errs rs = record { priorities = ps; errs = errs; routines = rs }

abbrev routine : ℕ → HostPriority → List Error → Routine
routine slot p es = record { slot = slot; left = record { errors = es; priority = p } }

joined : {s t u : Shared} → Steps s t → Steps t u → Steps s u
joined first here = first
joined first (next steps step) = next (joined first steps) step

-- A goroutine takes all its steps.
routine-Steps :
    (slot : ℕ) (p : HostPriority) (rs : List Routine) (ps : List HostPriority)
    (es errs : List Error)
    → Steps (state ps errs (routine slot p es ∷ rs)) (state (set_slot ps slot p) (errs ++ es) rs)
routine-Steps slot p rs ps [] errs =
    subst (λ l. Steps (state ps errs (routine slot p [] ∷ rs)) (state (set_slot ps slot p) l rs))
      (sym (append-nil errs)) (next here (write_slot [] rs (routine slot p []) refl refl))
routine-Steps slot p rs ps (e ∷ es) errs =
    joined (next here (add_error [] rs (routine slot p (e ∷ es)) e es refl refl)) (
      subst
        (λ l.
          Steps (state ps (errs ++ e ∷ []) (routine slot p es ∷ rs))
            (state (set_slot ps slot p) l rs))
        (append_assoc errs (e ∷ []) es) (routine-Steps slot p rs ps es (errs ++ e ∷ [])))

one_by_one-Steps :
    (rs : List Routine) (ps : List HostPriority) (errs : List Error)
    → Steps (state ps errs rs) (one_by_one rs (state ps errs rs))
one_by_one-Steps [] ps errs = here
one_by_one-Steps (r ∷ rs) ps errs =
    joined (routine-Steps r.slot r.left.priority rs ps r.left.errors errs)
      (one_by_one-Steps rs (set_slot ps r.slot r.left.priority) (errs ++ r.left.errors))

one_by_one-finished : (rs : List Routine) (s : Shared) → (one_by_one rs s).routines ≡ []
one_by_one-finished [] s = refl
one_by_one-finished (r ∷ rs) s = one_by_one-finished rs _

-- What the run that is modelled returns.
module _ (reduce : List HostPriority → List HostPriority) (map_node : Node → Scored)
    (nodes : List Node) where
  abbrev xs : List Scored
  xs = map map_node nodes

  pub run_nodes_scoring_lem :
      (errors_of xs ≡ []
        → run_nodes_scoring reduce map_node nodes
          ≡ record { priority_list = reduce (priorities_of xs); failed = [] })
      × (errors_of xs ≢ [] → (run_nodes_scoring reduce map_node nodes).failed ≢ [])
  unfolding run_nodes_scoring
  run_nodes_scoring_lem =
      let rs = (started xs).routines in
      let (none, some) =
        finish_lem reduce xs (one_by_one rs (started xs)) (one_by_one-Steps rs _ [])
          (one_by_one-finished rs (started xs)) in
      (none, λ h. (some h).1)
