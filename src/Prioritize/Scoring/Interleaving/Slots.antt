-- ===== src/Prioritize/Scoring/Interleaving/Slots.antt =====
-- pkg/algorithm/prioritize/hostpathpv_spread.go and hostpathpv_diskuse.go: what a step of a goroutine of
-- `NodesScoring` does to the slots, the errors and the goroutines that are left.
use mathlib.Core.List.Perm
use mathlib.Core.List.{Perm, perm_middle, append_assoc}
use extender_scheduler.Prelude.{
  ℕ, zero, suc, ◌≡◌, ◌≢◌, refl, sym, ap, ◌∙◌, ◌⊎◌, inl, inr, some, List, [], ◌∷◌, ◌++◌, map, length,
  get_elem?, All, arith,
}
use extender_scheduler.Cluster.{Error}
use extender_scheduler.Prioritize.Scoring.{HostPriority, Scored, Routine, set_slot, spend}

-- The list of scores that the goroutines are to write, and all of their errors.
abbrev pub priorities_of : List Scored → List HostPriority
priorities_of = map (λ x. x.priority)

abbrev pub errors_of : List Scored → List Error
errors_of [] = []
errors_of (x ∷ xs) = x.errors ++ errors_of xs

abbrev pub pending_errors : List Routine → List Error
pending_errors [] = []
pending_errors (r ∷ rs) = r.left.errors ++ pending_errors rs

abbrev pub Waits : ℕ → List Routine → Type 0
Waits i [] = ⊥
Waits i (r ∷ rs) = (r.slot ≡ i) ⊎ Waits i rs

module _ (P : Routine → Type 0) where
  pub All-replace :
      (before after : List Routine) (r q : Routine)
      → (P r → P q)
      → All P (before ++ r ∷ after)
      → All P (before ++ q ∷ after)
  All-replace [] after r q f h = (f h.0, h.1)
  All-replace (b ∷ before) after r q f h = (h.0, All-replace before after r q f h.1)

  pub All-remove :
      (before after : List Routine) (r : Routine)
      → All P (before ++ r ∷ after)
      → P r × All P (before ++ after)
  All-remove [] after r h = h
  All-remove (b ∷ before) after r h =
      let (p, rest) = All-remove before after r h.1 in (p, (h.0, rest))

pub Waits-replace :
    (i : ℕ) (before after : List Routine) (r q : Routine)
    → r.slot ≡ q.slot
    → Waits i (before ++ r ∷ after)
    → Waits i (before ++ q ∷ after)
Waits-replace i [] after r q e (inl h) = inl (sym e ∙ h)
Waits-replace i [] after r q e (inr w) = inr w
Waits-replace i (b ∷ before) after r q e (inl h) = inl h
Waits-replace i (b ∷ before) after r q e (inr w) = inr (Waits-replace i before after r q e w)

pub Waits-remove :
    (i : ℕ) (before after : List Routine) (r : Routine)
    → Waits i (before ++ r ∷ after)
    → (r.slot ≡ i) ⊎ Waits i (before ++ after)
Waits-remove i [] after r (inl h) = inl h
Waits-remove i [] after r (inr w) = inr w
Waits-remove i (b ∷ before) after r (inl h) = inr (inl h)
Waits-remove i (b ∷ before) after r (inr w) = elim (Waits-remove i before after r w) [
  | inl h ↦ inl h
  | inr v ↦ inr (inr v)
]

pending_errors-append :
    (rs qs : List Routine) → pending_errors (rs ++ qs) ≡ pending_errors rs ++ pending_errors qs
pending_errors-append [] qs = refl
pending_errors-append (r ∷ rs) qs =
    rw (pending_errors-append rs qs)
      (sym (append_assoc r.left.errors (pending_errors rs) (pending_errors qs)))

pub length-set_slot :
    (ps : List HostPriority) (i : ℕ) (p : HostPriority) → length (set_slot ps i p) ≡ length ps
length-set_slot [] i p = refl
length-set_slot (q ∷ qs) zero p = refl
length-set_slot (q ∷ qs) (suc i) p = ap suc (length-set_slot qs i p)

-- A slot that is written holds what the goal has there, and the others are as before.
pub get_elem?-set_slot :
    (ps goal : List HostPriority) (i j : ℕ) (p : HostPriority)
    → length ps ≡ length goal
    → get_elem? goal i ≡ some p
    → ((i ≡ j) × (get_elem? (set_slot ps i p) j ≡ get_elem? goal j))
      ⊎ ((i ≢ j) × (get_elem? (set_slot ps i p) j ≡ get_elem? ps j))
get_elem?-set_slot [] [] i j p l g = cc
get_elem?-set_slot [] (g ∷ goal) i j p l h = absurd (omega arith)
get_elem?-set_slot (q ∷ qs) [] i j p l h = absurd (omega arith)
get_elem?-set_slot (q ∷ qs) (g ∷ goal) zero zero p l h = inl (refl, sym h)
get_elem?-set_slot (q ∷ qs) (g ∷ goal) zero (suc j) p l h = inr (omega arith, refl)
get_elem?-set_slot (q ∷ qs) (g ∷ goal) (suc i) zero p l h = inr (omega arith, refl)
get_elem?-set_slot (q ∷ qs) (g ∷ goal) (suc i) (suc j) p l h =
    elim (get_elem?-set_slot qs goal i j p (omega arith) h) [
      | inl e ↦ inl (ap suc e.0, e.1)
      | inr n ↦ inr (λ e. n.0 (omega arith), n.1)
    ]

move_error :
    (errs B C : List Error) (e : Error) → Perm ((errs ++ e ∷ []) ++ (B ++ C)) (errs ++ (B ++ e ∷ C))
move_error errs B C e =
    rw (append_assoc errs (e ∷ []) (B ++ C)) (Perm.append_left errs (Perm.symm (perm_middle B C)))

pub add_error-pending :
    (before after : List Routine) (r : Routine) (errs : List Error) (e : Error) (es : List Error)
    → r.left.errors ≡ e ∷ es
    → Perm
        ((errs ++ e ∷ []) ++ pending_errors (before ++ spend r es ∷ after))
        (errs ++ pending_errors (before ++ r ∷ after))
add_error-pending before after r errs e es h =
    rw
      (
        pending_errors-append before (spend r es ∷ after),
        pending_errors-append before (r ∷ after),
        h,
      )
      (move_error errs (pending_errors before) (es ++ pending_errors after) e)

pub write_slot-pending :
    (before after : List Routine) (r : Routine)
    → r.left.errors ≡ []
    → pending_errors (before ++ r ∷ after) ≡ pending_errors (before ++ after)
write_slot-pending before after r h =
    rw (pending_errors-append before (r ∷ after), pending_errors-append before after, h)
