-- ===== src/Prioritize/Scoring/Largest.antt =====
-- pkg/algorithm/prioritize/hostpathpv_spread.go and hostpathpv_diskuse.go: the largest score of a
-- list, and lists of scores changed one by one.
use mathlib.Core.Path.{ap₂}
use mathlib.Core.Option.{some-injective}
use extender_scheduler.Prelude.{
  subst, sym, ◌⊎◌, ℕ, zero, suc, ◌≡◌, refl, true, false, some, List, [], ◌∷◌, map, get_elem?, All,
  arith, ◌<◌, Bool-cases, inl, inr,
}
use extender_scheduler.Prelude.Int.{ℤ, pos, pos_part, neg_part, eq_of_parts, ltb_ℤ, ◌≤ℤ◌}
use extender_scheduler.Prioritize.Float.{IsExact}
use extender_scheduler.Prioritize.Scoring.{HostPriority, max_score}

-- A score that is not negative and that a `float64` holds exactly.
abbrev pub IsCount : HostPriority → Type 0
IsCount p = (neg_part p.score ≡ 0) × IsExact (pos_part p.score)

pub max_score-mono : (m : ℤ) (ps : List HostPriority) → m ≤ℤ max_score m ps
unfolding max_score
max_score-mono m [] = omega arith
max_score-mono m (p ∷ ps) = elim (Bool-cases (ltb_ℤ m p.score)) [
  | inl e ↦ rw e (ground (arith, max_score-mono p.score ps))
  | inr e ↦ rw e (max_score-mono m ps)
]

max_score-cons :
    (m : ℤ) (p : HostPriority) (ps : List HostPriority)
    → ((max_score m (p ∷ ps) ≡ max_score p.score ps) × (ltb_ℤ m p.score ≡ true))
      ⊎ ((max_score m (p ∷ ps) ≡ max_score m ps) × (ltb_ℤ m p.score ≡ false))
unfolding max_score
max_score-cons m p ps = elim (Bool-cases (ltb_ℤ m p.score)) [
  | inl e ↦ inl (rw e refl, e)
  | inr e ↦ inr (rw e refl, e)
]

-- No score of the list is above the largest.
pub max_score-le : (m : ℤ) (ps : List HostPriority) → All (λ p. p.score ≤ℤ max_score m ps) ps
max_score-le m [] = tt
max_score-le m (p ∷ ps) = elim (max_score-cons m p ps) [
  | inl e ↦
      subst (λ k. All (λ q. q.score ≤ℤ k) (p ∷ ps)) (sym e.0)
        (max_score-mono p.score ps, max_score-le p.score ps)
  | inr e ↦
      let h = max_score-mono m ps in
      let l = e.1 in
      subst (λ k. All (λ q. q.score ≤ℤ k) (p ∷ ps)) (sym e.0) (ground arith, max_score-le m ps)
]

-- The largest of scores that are counts is a count.
pub max_score-IsExact :
    (m : ℤ) (ps : List HostPriority)
    → neg_part m ≡ 0
    → IsExact (pos_part m)
    → All IsCount ps
    → (neg_part (max_score m ps) ≡ 0) × IsExact (pos_part (max_score m ps))
unfolding max_score
max_score-IsExact m [] n e h = (n, e)
max_score-IsExact m (p ∷ ps) n e h = elim (Bool-cases (ltb_ℤ m p.score)) [
  | inl l ↦ rw l (max_score-IsExact p.score ps h.0.0 h.0.1 h.1)
  | inr l ↦ rw l (max_score-IsExact m ps n e h.1)
]

-- An element of a list that is changed element by element.
pub get_elem?-map :
    {A B : Type 0} (f : A → B) (xs : List A) (i : ℕ) (x : A)
    → get_elem? xs i ≡ some x
    → get_elem? (map f xs) i ≡ some (f x)
get_elem?-map f [] i x h = cc
get_elem?-map f (y ∷ ys) zero x h = cc
get_elem?-map f (y ∷ ys) (suc i) x h = get_elem?-map f ys i x h

pub All-map :
    {A B : Type 0} (P P' : A → Type 0) (Q : B → Type 0) (f : A → B)
    → ((x : A) → P x → P' x → Q (f x))
    → (xs : List A) → All P xs
    → All P' xs
    → All Q (map f xs)
All-map P P' Q f g [] h k = tt
All-map P P' Q f g (x ∷ xs) h k = (g x h.0 k.0, All-map P P' Q f g xs h.1 k.1)

pub map-same :
    {A B : Type 0} (g : A → B) (f : A → A)
    → ((x : A) → g (f x) ≡ g x)
    → (xs : List A) → map g (map f xs) ≡ map g xs
map-same g f h [] = refl
map-same g f h (x ∷ xs) = ap₂ ◌∷◌ (h x) (map-same g f h xs)

pub get_elem?-All :
    {A : Type 0} (P : A → Type 0) (xs : List A) (i : ℕ) (x : A)
    → All P xs
    → get_elem? xs i ≡ some x
    → P x
get_elem?-All P [] i x h e = cc
get_elem?-All P (y ∷ ys) zero x h e = subst P (some-injective y x e) h.0
get_elem?-All P (y ∷ ys) (suc i) x h e = get_elem?-All P ys i x h.1 e

pub ltb_positive : (m : ℕ) → 0 < m → ltb_ℤ (pos 0) (pos m) ≡ true
ltb_positive m h = ground arith

max_score-bound :
    (m k : ℤ) (ps : List HostPriority) → m ≤ℤ k → All (λ q. q.score ≤ℤ k) ps → max_score m ps ≤ℤ k
unfolding max_score
max_score-bound m k [] h all = h
max_score-bound m k (p ∷ ps) h all = elim (Bool-cases (ltb_ℤ m p.score)) [
  | inl e ↦ rw e (max_score-bound p.score k ps all.0 all.1)
  | inr e ↦ rw e (max_score-bound m k ps h all.1)
]

-- A score of the list that is not below the others nor below 0 is the largest.
pub max_score-largest :
    (ps : List HostPriority) (i : ℕ) (p : HostPriority)
    → get_elem? ps i ≡ some p
    → pos 1 ≤ℤ p.score
    → All (λ q. q.score ≤ℤ p.score) ps
    → max_score (pos 0) ps ≡ p.score
max_score-largest ps i p at h best =
    let above = get_elem?-All _ ps i p (max_score-le (pos 0) ps) at in
    let under = max_score-bound (pos 0) p.score ps (omega arith) best in
    eq_of_parts (max_score (pos 0) ps) p.score (omega arith)
