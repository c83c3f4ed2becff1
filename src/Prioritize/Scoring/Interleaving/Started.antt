-- ===== src/Prioritize/Scoring/Interleaving/Started.antt =====
-- pkg/algorithm/prioritize/hostpathpv_spread.go and hostpathpv_diskuse.go: the state in which the
-- goroutines of `NodesScoring` start.
use native.Mathlib.Decide.{dec_lt}
use extender_scheduler.Prelude.{
  ℕ, zero, suc, ◌+◌, ◌≤◌, ◌<◌, ◌≡◌, refl, sym, ap, subst, ◌∙◌, ◌⊎◌, inl, inr, none, some, List, [],
  ◌∷◌, ◌++◌, length, replicate, get_elem?, All, arith,
}
use extender_scheduler.Prioritize.Scoring.{HostPriority, Scored, no_priority, routines_from}
use extender_scheduler.Prioritize.Scoring.Interleaving.Slots.{
  priorities_of, errors_of, pending_errors, Waits,
}

pub routines-errors :
    (i : ℕ) (xs : List Scored) → pending_errors (routines_from i xs) ≡ errors_of xs
routines-errors i [] = refl
routines-errors i (x ∷ xs) = ap (λ l. x.errors ++ l) (routines-errors (suc i) xs)

-- The routines of a part of the nodes have the slots of that part.
pub routines-routed :
    (goal : List HostPriority) (i : ℕ) (xs : List Scored)
    → ((j : ℕ) → get_elem? goal (i + j) ≡ get_elem? (priorities_of xs) j)
    → All (λ r. get_elem? goal r.slot ≡ some r.left.priority) (routines_from i xs)
routines-routed goal i [] h = tt
routines-routed goal i (x ∷ xs) h = (
  subst (λ n. get_elem? goal n ≡ some x.priority) (omega arith) (h 0),
  routines-routed goal (suc i) xs (λ j.
      subst (λ n. get_elem? goal n ≡ get_elem? (priorities_of xs) j) (omega arith) (h (suc j))),
)

Waits-from : (i j : ℕ) (xs : List Scored) → j < length xs → Waits (i + j) (routines_from i xs)
Waits-from i j [] h = absurd (omega arith)
Waits-from i zero (x ∷ xs) h = inl (omega arith)
Waits-from i (suc j) (x ∷ xs) h = inr (
    subst (λ n. Waits n (routines_from (suc i) xs)) (omega arith)
      (Waits-from (suc i) j xs (omega arith)))

pub length-priorities_of : (xs : List Scored) → length (priorities_of xs) ≡ length xs
length-priorities_of [] = refl
length-priorities_of (x ∷ xs) = ap suc (length-priorities_of xs)

pub length-replicate : (n : ℕ) → length (replicate n no_priority) ≡ n
length-replicate zero = refl
length-replicate (suc n) = ap suc (length-replicate n)

get_elem?-beyond : (ps : List HostPriority) (i : ℕ) → length ps ≤ i → get_elem? ps i ≡ none
get_elem?-beyond [] i h = refl
get_elem?-beyond (p ∷ ps) zero h = absurd (omega arith)
get_elem?-beyond (p ∷ ps) (suc i) h = get_elem?-beyond ps i (omega arith)

pub started-written :
    (xs : List Scored) (i : ℕ)
    → (get_elem? (replicate (length xs) no_priority) i ≡ get_elem? (priorities_of xs) i)
      ⊎ Waits i (routines_from 0 xs)
started-written xs i = elim (dec_lt i (length xs)) [
  | yes h ↦ inr (subst (λ n. Waits n (routines_from 0 xs)) (omega arith) (Waits-from 0 i xs h))
  | no h ↦ inl (
      get_elem?-beyond _ i (omega (arith, length-replicate (length xs)))
      ∙ sym (get_elem?-beyond _ i (omega (arith, length-priorities_of xs))))
]
