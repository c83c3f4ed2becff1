-- ===== src/Prelude/Keys.antt =====
-- Lists of texts that are all different, as the keys of a map are.
use text.Mathlib.TextLemmas.{append_cancel_left}
use mathlib.Core.Bool.{false≢true}
use extender_scheduler.Prelude.{
  ◌≡◌, ◌≢◌, sym, ◌∙◌, false, Bool-cases, inl, inr, String, ◌<>◌, List, [], ◌∷◌, ◌++◌, map, All,
}
use extender_scheduler.Prelude.Text.{◌==◌, eq_iff}
use extender_scheduler.Prelude.Dict.{has_key, add_key}

abbrev pub Distinct : List String → Type 0
Distinct [] = Unit
Distinct (x ∷ xs) = All (λ y. y ≢ x) xs × Distinct xs

pub All-snoc {ℓ κ} :
    {A : Type ℓ} (P : A → Type κ) (x : A) (xs : List A) → All P xs → P x → All P (xs ++ x ∷ [])
All-snoc P x [] h p = (p, tt)
All-snoc P x (y ∷ xs) h p = (h.0, All-snoc P x xs h.1 p)

pub Distinct-snoc :
    (x : String) (xs : List String) → All (λ y. y ≢ x) xs → Distinct xs → Distinct (xs ++ x ∷ [])
Distinct-snoc x [] h d = (tt, tt)
Distinct-snoc x (y ∷ xs) h d =
    (All-snoc (λ z. z ≢ y) x xs d.0 (λ e. h.0 (sym e)), Distinct-snoc x xs h.1 d.1)

All-prefix :
    (p x : String) (xs : List String)
    → All (λ y. y ≢ x) xs
    → All (λ y. y ≢ p <> x) (map (λ y. p <> y) xs)
All-prefix p x [] h = tt
All-prefix p x (y ∷ xs) h = (λ e. h.0 (append_cancel_left p y x e), All-prefix p x xs h.1)

-- Different texts stay different behind one prefix.
pub Distinct-prefix :
    (p : String) (xs : List String) → Distinct xs → Distinct (map (λ x. p <> x) xs)
Distinct-prefix p [] d = tt
Distinct-prefix p (x ∷ xs) d = (All-prefix p x xs d.0, Distinct-prefix p xs d.1)

pub has_key-false : (k : String) (xs : List String) → has_key k xs ≡ false → All (λ y. y ≢ k) xs
unfolding has_key
has_key-false k [] h = tt
has_key-false k (x ∷ xs) h = elim (Bool-cases (x == k)) [
  | inl same ↦ absurd (false≢true (sym h ∙ rw same))
  | inr other ↦ (λ e. false≢true (sym other ∙ (eq_iff x k).1 e), has_key-false k xs (rw other at h))
]

pub add_key-Distinct : (k : String) (xs : List String) → Distinct xs → Distinct (add_key k xs)
unfolding add_key
add_key-Distinct k xs d = elim (Bool-cases (has_key k xs)) [
  | inl old ↦ rw old d
  | inr new ↦ rw new (Distinct-snoc k xs (has_key-false k xs new) d)
]
