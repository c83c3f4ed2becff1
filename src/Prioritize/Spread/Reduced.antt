-- ===== src/Prioritize/Spread/Reduced.antt =====
-- pkg/algorithm/prioritize/hostpathpv_spread.go: the scores of `reduceScoringNode`.
use extender_scheduler.Prelude.{
  ℕ, zero, suc, ◌-◌, ◌≤◌, ◌<◌, ◌≡◌, refl, ap, ◌∙◌, some, List, map, get_elem?, All, arith,
  if◌then◌else◌,
}
use extender_scheduler.Prelude.Int.{ℤ, pos, negsuc, pos_part, neg_part, ◌≤ℤ◌}
use extender_scheduler.Prioritize.Float.{Float, IsExact, IsRounding}
use extender_scheduler.Prioritize.Float.Share.{tenths, share_mono, share_all, share_bounds}
use extender_scheduler.Prioritize.Scoring.{HostPriority, max_score}
use extender_scheduler.Prioritize.Scoring.Largest.{
  IsCount, max_score-le, max_score-IsExact, get_elem?-map, get_elem?-All, map-same, All-map,
  ltb_positive,
}
use extender_scheduler.Prioritize.Spread.{spread_score, spread_reduce}

module _ (X : Float) (R : IsRounding X) where
  spread_score-tenths :
      (m a : ℕ)
      → 0 < m
      → IsExact m
      → a ≤ m
      → spread_score X (pos m) (pos a) ≡ X.to_int (tenths X (m - a) m)
  unfolding spread_score
  spread_score-tenths m a p e h =
      ap
        (λ b. X.to_int (
          if b
          then X.mul (X.of_int (pos 10))
              (X.div (X.sub (X.of_int (pos m)) (X.of_int (pos a))) (X.of_int (pos m)))
          else X.of_int (pos 10)))
        (ltb_positive m p)
      ∙ ap (λ d. X.to_int (X.mul (X.of_int (pos 10)) (X.div d (X.of_int (pos m)))))
          (R.sub_exact m a e h)

  spread_score-empty : (a : ℕ) → spread_score X (pos 0) (pos a) ≡ pos 10
  unfolding spread_score
  spread_score-empty a = R.to_int_exact 10 (omega arith)

  -- A smaller count has no smaller score, and scores are between 0 and 10.
  spread_score-mono :
      (m a b : ℕ)
      → IsExact m
      → a ≤ b
      → b ≤ m
      → spread_score X (pos m) (pos b) ≤ℤ spread_score X (pos m) (pos a)
  spread_score-mono zero a b e h l = rw (spread_score-empty a, spread_score-empty b) (omega arith)
  spread_score-mono (suc m) a b e h l =
      rw
        (
          spread_score-tenths (suc m) a (omega arith) e (omega arith),
          spread_score-tenths (suc m) b (omega arith) e l,
        )
        (share_mono X R (suc m) (omega arith) e (suc m - b) (suc m - a) (omega arith) (omega arith))

  spread_score-bounds :
      (m a : ℕ)
      → IsExact m
      → a ≤ m
      → (pos 0 ≤ℤ spread_score X (pos m) (pos a)) × (spread_score X (pos m) (pos a) ≤ℤ pos 10)
  spread_score-bounds zero a e l = rw (spread_score-empty a) (omega arith, omega arith)
  spread_score-bounds (suc m) a e l =
      rw (spread_score-tenths (suc m) a (omega arith) e l)
        (share_bounds X R (suc m) (omega arith) e (suc m - a) (omega arith))

  spread_score-zero : (m : ℕ) → IsExact m → spread_score X (pos m) (pos 0) ≡ pos 10
  spread_score-zero zero e = spread_score-empty 0
  spread_score-zero (suc m) e =
      spread_score-tenths (suc m) 0 (omega arith) e (omega arith)
      ∙ ap (λ k. X.to_int (tenths X k (suc m))) (omega arith)
      ∙ share_all X R (suc m) (omega arith) e

  -- The same of integers that are not negative.
  score-mono :
      (t a b : ℤ)
      → neg_part t ≡ 0
      → IsExact (pos_part t)
      → neg_part a ≡ 0
      → neg_part b ≡ 0
      → a ≤ℤ b
      → b ≤ℤ t
      → spread_score X t b ≤ℤ spread_score X t a
  score-mono (pos m) (pos a) (pos b) n e x y h l =
      spread_score-mono m a b e (omega arith) (omega arith)
  score-mono (negsuc m) a b n e x y h l = absurd (omega arith)
  score-mono (pos m) (negsuc a) b n e x y h l = absurd (omega arith)
  score-mono (pos m) (pos a) (negsuc b) n e x y h l = absurd (omega arith)

  score-bounds :
      (t a : ℤ)
      → neg_part t ≡ 0
      → IsExact (pos_part t)
      → neg_part a ≡ 0
      → a ≤ℤ t
      → (pos 0 ≤ℤ spread_score X t a) × (spread_score X t a ≤ℤ pos 10)
  score-bounds (pos m) (pos a) n e x l = spread_score-bounds m a e (omega arith)
  score-bounds (negsuc m) a n e x l = absurd (omega arith)
  score-bounds (pos m) (negsuc a) n e x l = absurd (omega arith)

  score-zero : (t : ℤ) → neg_part t ≡ 0 → IsExact (pos_part t) → spread_score X t (pos 0) ≡ pos 10
  score-zero (pos m) n e = spread_score-zero m e
  score-zero (negsuc m) n e = absurd (omega arith)

-- For counts of pods that a `float64` holds exactly, the reduced list keeps the hosts in their order,
-- every score lies between 0 and 10, a node whose count is 0 scores 10, and of two nodes the one with
-- the smaller count does not score lower.
pub spread_reduce_lem :
    (X : Float) (R : IsRounding X) (ps : List HostPriority)
    → All IsCount ps
    → (map (λ q. q.host) (spread_reduce X ps) ≡ map (λ p. p.host) ps)
      × All (λ q. (pos 0 ≤ℤ q.score) × (q.score ≤ℤ pos 10)) (spread_reduce X ps)
      × ((i : ℕ) (p : HostPriority)
          → get_elem? ps i ≡ some p
          → p.score ≡ pos 0
          → get_elem? (spread_reduce X ps) i ≡ some (record p { score = pos 10 }))
      × ((i j : ℕ) (p q : HostPriority)
          → get_elem? ps i ≡ some p
          → get_elem? ps j ≡ some q
          → p.score ≤ℤ q.score
          → (x : ℤ) × (y : ℤ) × (get_elem? (spread_reduce X ps) i ≡ some (record p { score = x }))
            × (get_elem? (spread_reduce X ps) j ≡ some (record q { score = y }))
            × (y ≤ℤ x))
unfolding spread_reduce
spread_reduce_lem X R ps counts =
    let top = max_score (pos 0) ps in
    let (n, e) = max_score-IsExact (pos 0) ps refl (omega arith) counts in
    let f : HostPriority → HostPriority = λ p. record p { score = spread_score X top p.score } in
    let below = max_score-le (pos 0) ps in
    (
      map-same (λ p. p.host) f (λ p. refl) ps,
      All-map IsCount _ _ f (λ p h l. score-bounds X R top p.score n e h.0 l) ps counts below,
      λ i p at zero.
          get_elem?-map f ps i p at
          ∙ ap (λ z. some (record p { score = z }))
              (ap (spread_score X top) zero ∙ score-zero X R top n e),
      λ i j p q at at' h. (
        spread_score X top p.score,
        spread_score X top q.score,
        get_elem?-map f ps i p at,
        get_elem?-map f ps j q at',
        score-mono X R top p.score q.score n e (get_elem?-All IsCount ps i p counts at).0
            (get_elem?-All IsCount ps j q counts at').0 h (get_elem?-All _ ps j q below at'),
      ),
    )
