-- ===== src/Prioritize/DiskUse/Reduced.antt =====
-- pkg/algorithm/prioritize/hostpathpv_diskuse.go: the scores of `reduceScoringNode`.
use extender_scheduler.Prelude.{
  ℕ, zero, suc, ◌≤◌, ◌<◌, ◌≡◌, refl, sym, ap, subst, ◌∙◌, some, List, map, get_elem?, All, arith,
  if◌then◌else◌,
}
use extender_scheduler.Prelude.Int.{ℤ, pos, negsuc, pos_part, neg_part, ◌≤ℤ◌}
use extender_scheduler.Prioritize.Float.{Float, IsExact, IsRounding}
use extender_scheduler.Prioritize.Float.Share.{tenths, share_mono, share_all, share_bounds}
use extender_scheduler.Prioritize.Scoring.{HostPriority, max_score}
use extender_scheduler.Prioritize.Scoring.Largest.{
  IsCount, max_score-le, max_score-IsExact, get_elem?-map, All-map, map-same, get_elem?-All,
  ltb_positive, max_score-largest,
}
use extender_scheduler.Prioritize.DiskUse.{disk_use_score, disk_use_reduce}

module _ (X : Float) (R : IsRounding X) where
  disk_use_score-tenths :
      (m a : ℕ) → 0 < m → disk_use_score X (pos m) (pos a) ≡ X.to_int (tenths X a m)
  unfolding disk_use_score
  disk_use_score-tenths m a p =
      ap (λ b. X.to_int (if b then tenths X a m else X.of_int (pos 0))) (ltb_positive m p)

  disk_use_score-empty : (a : ℕ) → disk_use_score X (pos 0) (pos a) ≡ pos 0
  unfolding disk_use_score
  disk_use_score-empty a = R.to_int_exact 0 (omega arith)

  disk_use_score-mono :
      (m a b : ℕ)
      → IsExact m
      → a ≤ b
      → b ≤ m
      → disk_use_score X (pos m) (pos a) ≤ℤ disk_use_score X (pos m) (pos b)
  disk_use_score-mono zero a b e h l =
      rw (disk_use_score-empty a, disk_use_score-empty b) (omega arith)
  disk_use_score-mono (suc m) a b e h l =
      rw
        (
          disk_use_score-tenths (suc m) a (omega arith),
          disk_use_score-tenths (suc m) b (omega arith),
        )
        (share_mono X R (suc m) (omega arith) e a b h l)

  disk_use_score-bounds :
      (m a : ℕ)
      → IsExact m
      → a ≤ m
      → (pos 0 ≤ℤ disk_use_score X (pos m) (pos a)) × (disk_use_score X (pos m) (pos a) ≤ℤ pos 10)
  disk_use_score-bounds zero a e l = rw (disk_use_score-empty a) (omega arith, omega arith)
  disk_use_score-bounds (suc m) a e l =
      rw (disk_use_score-tenths (suc m) a (omega arith))
        (share_bounds X R (suc m) (omega arith) e a l)

  -- The same of integers that are not negative.
  score-mono :
      (t a b : ℤ)
      → neg_part t ≡ 0
      → IsExact (pos_part t)
      → neg_part a ≡ 0
      → neg_part b ≡ 0
      → a ≤ℤ b
      → b ≤ℤ t
      → disk_use_score X t a ≤ℤ disk_use_score X t b
  score-mono (pos m) (pos a) (pos b) n e x y h l =
      disk_use_score-mono m a b e (omega arith) (omega arith)
  score-mono (negsuc m) a b n e x y h l = absurd (omega arith)
  score-mono (pos m) (negsuc a) b n e x y h l = absurd (omega arith)
  score-mono (pos m) (pos a) (negsuc b) n e x y h l = absurd (omega arith)

  score-bounds :
      (t a : ℤ)
      → neg_part t ≡ 0
      → IsExact (pos_part t)
      → neg_part a ≡ 0
      → a ≤ℤ t
      → (pos 0 ≤ℤ disk_use_score X t a) × (disk_use_score X t a ≤ℤ pos 10)
  score-bounds (pos m) (pos a) n e x l = disk_use_score-bounds m a e (omega arith)
  score-bounds (negsuc m) a n e x l = absurd (omega arith)
  score-bounds (pos m) (negsuc a) n e x l = absurd (omega arith)

  -- A score that no other is above, and that is not 0, becomes 10.
  score-largest :
      (t a : ℤ)
      → neg_part t ≡ 0
      → IsExact (pos_part t)
      → t ≡ a
      → pos 1 ≤ℤ a
      → disk_use_score X t a ≡ pos 10
  score-largest (pos m) a n e same h =
      ap (disk_use_score X (pos m)) (sym same)
      ∙ disk_use_score-tenths m m (positive m a same h)
      ∙ share_all X R m (positive m a same h) e
    where
      positive : (m : ℕ) (a : ℤ) → pos m ≡ a → pos 1 ≤ℤ a → 0 < m
      positive m a same h = subst (λ z. 0 < pos_part z) (sym same) (omega arith)
  score-largest (negsuc m) a n e same h = absurd (omega arith)

-- For percentages that are not negative and that a `float64` holds exactly, the reduced list keeps the
-- hosts in their order, every score lies between 0 and 10, a node whose percentage is not 0 and not
-- below any other scores 10, and of two nodes the one with the larger percentage does not score lower.
pub disk_use_reduce_lem :
    (X : Float) (R : IsRounding X) (ps : List HostPriority)
    → All IsCount ps
    → (map (λ q. q.host) (disk_use_reduce X ps) ≡ map (λ p. p.host) ps)
      × All (λ q. (pos 0 ≤ℤ q.score) × (q.score ≤ℤ pos 10)) (disk_use_reduce X ps)
      × ((i : ℕ) (p : HostPriority)
          → get_elem? ps i ≡ some p
          → pos 1 ≤ℤ p.score
          → All (λ q. q.score ≤ℤ p.score) ps
          → get_elem? (disk_use_reduce X ps) i ≡ some (record p { score = pos 10 }))
      × ((i j : ℕ) (p q : HostPriority)
          → get_elem? ps i ≡ some p
          → get_elem? ps j ≡ some q
          → p.score ≤ℤ q.score
          → (x : ℤ) × (y : ℤ) × (get_elem? (disk_use_reduce X ps) i ≡ some (record p { score = x }))
            × (get_elem? (disk_use_reduce X ps) j ≡ some (record q { score = y }))
            × (x ≤ℤ y))
unfolding disk_use_reduce
disk_use_reduce_lem X R ps counts =
    let top = max_score (pos 0) ps in
    let (n, e) = max_score-IsExact (pos 0) ps refl (omega arith) counts in
    let f : HostPriority → HostPriority = λ p. record p { score = disk_use_score X top p.score } in
    let below = max_score-le (pos 0) ps in
    (
      map-same (λ p. p.host) f (λ p. refl) ps,
      All-map IsCount _ _ f (λ p h l. score-bounds X R top p.score n e h.0 l) ps counts below,
      λ i p at h best.
          get_elem?-map f ps i p at
          ∙ ap (λ z. some (record p { score = z }))
              (score-largest X R top p.score n e (max_score-largest ps i p at h best) h),
      λ i j p q at at' h. (
        disk_use_score X top p.score,
        disk_use_score X top q.score,
        get_elem?-map f ps i p at,
        get_elem?-map f ps j q at',
        score-mono X R top p.score q.score n e (get_elem?-All IsCount ps i p counts at).0
            (get_elem?-All IsCount ps j q counts at').0 h (get_elem?-All _ ps j q below at'),
      ),
    )
