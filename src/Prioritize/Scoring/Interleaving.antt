-- ===== src/Prioritize/Scoring/Interleaving.antt =====
-- pkg/algorithm/prioritize/hostpathpv_spread.go and hostpathpv_diskuse.go: the order of the steps
-- of the goroutines of `NodesScoring`.
pub mod Slots
pub mod Started
use mathlib.Core.List.Perm
use mathlib.Core.List.{Perm, cons≢nil, perm_middle, append_assoc, append-nil}
use mathlib.Core.Path.{ap₂}
use mathlib.Core.Option.{some-injective}
use native.Mathlib.Decide.{dec_lt}
use extender_scheduler.Prelude.{
  ℕ, zero, suc, ◌+◌, ◌≤◌, ◌<◌, ◌≡◌, ◌≢◌, refl, sym, ap, subst, ◌∙◌, ◌⊎◌, inl, inr, none, some, List,
  [], ◌∷◌, ◌++◌, map, length, replicate, get_elem?, All, arith,
}
use extender_scheduler.Cluster.{Error}
use extender_scheduler.Prioritize.Scoring.{
  HostPriority, Scored, Routine, Shared, set_slot, spend, Step, add_error, write_slot, Steps, here,
  next, no_priority, routines_from, started, with_errors, finish,
}
use extender_scheduler.Prioritize.Scoring.Interleaving.Slots.{
  priorities_of, errors_of, pending_errors, Waits, All-replace, All-remove, Waits-replace,
  Waits-remove, length-set_slot, get_elem?-set_slot, add_error-pending, write_slot-pending,
}
use extender_scheduler.Prioritize.Scoring.Interleaving.Started.{
  routines-errors, routines-routed, started-written, length-priorities_of, length-replicate,
}

record Invariant (xs : List Scored) (s : Shared) : Type 0 where
  sized : length s.priorities ≡ length (priorities_of xs)
  routed : All (λ r. get_elem? (priorities_of xs) r.slot ≡ some r.left.priority) s.routines
  written :
      (i : ℕ) → (get_elem? s.priorities i ≡ get_elem? (priorities_of xs) i) ⊎ Waits i s.routines
  reported : Perm (s.errs ++ pending_errors s.routines) (errors_of xs)

module _ (xs : List Scored) where
  add_error-Invariant :
      (s : Shared) (before after : List Routine) (r : Routine) (e : Error) (es : List Error)
      → s.routines ≡ before ++ r ∷ after
      → r.left.errors ≡ e ∷ es
      → Invariant xs s
      → Invariant xs (record s { errs = s.errs ++ e ∷ []; routines = before ++ spend r es ∷ after })
  add_error-Invariant s before after r e es split h v = record {
    sized = v.sized;
    routed =
        All-replace (λ q. get_elem? (priorities_of xs) q.slot ≡ some q.left.priority) before after r
          (spend r es) (λ p. p) (subst (All _) split v.routed);
    written = λ i. elim (v.written i) [
      | inl done ↦ inl done
      | inr waits ↦
          inr (Waits-replace i before after r (spend r es) refl (subst (Waits i) split waits))
    ];
    reported =
        Perm.trans (add_error-pending before after r s.errs e es h)
          (subst (λ l. Perm (s.errs ++ pending_errors l) (errors_of xs)) split v.reported);
  }

  write_slot-Invariant :
      (s : Shared) (before after : List Routine) (r : Routine)
      → s.routines ≡ before ++ r ∷ after
      → r.left.errors ≡ []
      → Invariant xs s
      → Invariant xs (record s {
        priorities = set_slot s.priorities r.slot r.left.priority;
        routines = before ++ after;
      })
  write_slot-Invariant s before after r split h v =
      let routes =
        All-remove (λ q. get_elem? (priorities_of xs) q.slot ≡ some q.left.priority) before after r
          (subst (All _) split v.routed) in
      record {
        sized = length-set_slot s.priorities r.slot r.left.priority ∙ v.sized;
        routed = routes.1;
        written = λ i.
            elim (get_elem?-set_slot s.priorities (priorities_of xs) r.slot i r.left.priority
              v.sized routes.0) [
                | inl here' ↦ inl here'.1
                | inr other ↦ elim (v.written i) [
                  | inl done ↦ inl (other.1 ∙ done)
                  | inr waits ↦ elim (Waits-remove i before after r (subst (Waits i) split waits)) [
                    | inl same ↦ absurd (other.0 same)
                    | inr w ↦ inr w
                  ]
                ]
              ];
        reported =
            subst (λ l. Perm (s.errs ++ l) (errors_of xs))
              (ap pending_errors split ∙ write_slot-pending before after r h) v.reported;
      }

  Step-Invariant : {s t : Shared} → Step s t → Invariant xs s → Invariant xs t
  Step-Invariant {s} (add_error before after r e es split h) v =
      add_error-Invariant s before after r e es split h v
  Step-Invariant {s} (write_slot before after r split h) v =
      write_slot-Invariant s before after r split h v

  Steps-Invariant : {s t : Shared} → Steps s t → Invariant xs s → Invariant xs t
  Steps-Invariant here v = v
  Steps-Invariant (next steps step) v = Step-Invariant step (Steps-Invariant steps v)

started-Invariant : (xs : List Scored) → Invariant xs (started xs)
started-Invariant xs = record {
  sized = length-replicate (length xs) ∙ sym (length-priorities_of xs);
  routed =
      routines-routed (priorities_of xs) 0 xs
        (λ j. ap (get_elem? (priorities_of xs)) (omega arith));
  written = started-written xs;
  reported = subst (λ l. Perm l (errors_of xs)) (sym (routines-errors 0 xs)) Perm.rfl;
}

list_ext :
    (ps qs : List HostPriority)
    → length ps ≡ length qs
    → ((i : ℕ) → get_elem? ps i ≡ get_elem? qs i)
    → ps ≡ qs
list_ext [] [] l h = refl
list_ext [] (q ∷ qs) l h = absurd (omega arith)
list_ext (p ∷ ps) [] l h = absurd (omega arith)
list_ext (p ∷ ps) (q ∷ qs) l h =
    ap₂ ◌∷◌ (some-injective p q (h 0)) (list_ext ps qs (omega arith) (λ i. h (suc i)))

-- However the goroutines take their steps, when none is left the list has for each node, in the
-- order of the nodes, the score that its goroutine computed, and the errors are those of all
-- goroutines, each as often as it was added.
Steps-finished :
    (xs : List Scored) (s : Shared)
    → Steps (started xs) s
    → s.routines ≡ []
    → (s.priorities ≡ priorities_of xs) × Perm s.errs (errors_of xs)
Steps-finished xs s steps over =
    let v = Steps-Invariant xs steps (started-Invariant xs) in
    (
      list_ext s.priorities (priorities_of xs) v.sized
          (λ i. elim (v.written i) [ inl e ↦ e | inr w ↦ absurd (subst (Waits i) over w) ]),
      subst (λ l. Perm l (errors_of xs)) (append-nil s.errs)
          (subst (λ rs. Perm (s.errs ++ pending_errors rs) (errors_of xs)) over v.reported),
    )

module _ (reduce : List HostPriority → List HostPriority) (ps : List HostPriority) where
  with_errors-none :
      (errs : List Error)
      → errs ≡ []
      → with_errors reduce ps errs ≡ record { priority_list = reduce ps; failed = [] }
  with_errors-none errs e = ap (with_errors reduce ps) e

  with_errors-some :
      (errs total : List Error)
      → total ≢ []
      → Perm errs total
      → ((with_errors reduce ps errs).priority_list ≡ ps)
        × ((with_errors reduce ps errs).failed ≢ [])
        × Perm (with_errors reduce ps errs).failed total
  with_errors-some [] total n p = absurd (n (sym (Perm.nil-eq p)))
  with_errors-some (e ∷ es) total n p = (refl, cons≢nil, p)

-- What `NodesScoring` returns does not depend on the order of the goroutines' steps. With no error it
-- is the reduced list of the computed scores. With errors it is that list not reduced, and an error
-- that aggregates them all.
pub finish_lem :
    (reduce : List HostPriority → List HostPriority) (xs : List Scored) (s : Shared)
    → Steps (started xs) s
    → s.routines ≡ []
    → (errors_of xs ≡ []
        → finish reduce s ≡ record { priority_list = reduce (priorities_of xs); failed = [] })
      × (errors_of xs ≢ []
          → ((finish reduce s).priority_list ≡ priorities_of xs)
            × ((finish reduce s).failed ≢ [])
            × Perm (finish reduce s).failed (errors_of xs))
finish_lem reduce xs s steps over =
    let (written, reported) = Steps-finished xs s steps over in
    (
      λ e.
          with_errors-none reduce s.priorities s.errs (Perm.eq-nil (subst (Perm s.errs) e reported))
          ∙ ap (λ l. record { priority_list = reduce l; failed = [] }) written,
      λ n.
          let (same, failed, all) =
            with_errors-some reduce s.priorities s.errs (errors_of xs) n reported in
          (same ∙ written, failed, all),
    )
