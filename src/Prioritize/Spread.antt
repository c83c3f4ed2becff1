-- ===== src/Prioritize/Spread.antt =====
-- pkg/algorithm/prioritize/hostpathpv_spread.go: nodes with fewer pods on the pod's volumes score
-- higher.
pub mod Reduced
use extender_scheduler.Prelude.{
  ℕ, suc, ◌+◌, String, Bool, true, false, Option, none, some, List, [], ◌∷◌, ◌++◌, map, ltb, length,
  if◌then◌else◌,
}
use extender_scheduler.Prelude.Int.{ℤ, pos, ltb_ℤ}
use extender_scheduler.Cluster.{Cluster, Pod, Volume, Node, Pv, Error, Result, ok, err}
use extender_scheduler.Algorithm.HostPath.{is_shared_host_path_pv, pod_volume_pv, used_pod_map}
use extender_scheduler.Prioritize.Float.{Float}
use extender_scheduler.Prioritize.Scoring.{HostPriority, Scored, max_score}

-- The loop's variables: the count, and the errors added.
pub record SpreadCount : Type 0 where
  pub count : ℕ
  pub errors : List Error

abbrev add_failure : SpreadCount → Error → SpreadCount
add_failure s e = record s { errors = s.errors ++ e ∷ [] }

-- A volume that pods share counts once if it is used.
unfoldable pub pods_counted : Bool → ℕ → ℕ
pods_counted true pods = if ltb 0 pods then 1 else 0
pods_counted false pods = pods

module _ (c : Cluster) (pod : Pod) (node_name : String) where
  unfoldable pub count_pv : Result (Option Pv) → SpreadCount → SpreadCount
  count_pv (err e) s = add_failure s e
  count_pv (ok none) s = s
  count_pv (ok (some pv)) s = elim (used_pod_map c pv node_name) [
    | err e ↦ add_failure s e
    | ok pods ↦ record s {
      count = s.count + pods_counted (is_shared_host_path_pv pv) (length pods);
    }
  ]

  unfoldable pub count_volumes : List Volume → SpreadCount → SpreadCount
  count_volumes [] s = s
  count_volumes (v ∷ vs) s = count_volumes vs (count_pv (pod_volume_pv c pod v) s)

-- `mapScoringNode`
unfoldable pub spread_map : Cluster → Pod → Node → Scored
spread_map c pod node =
    let s = count_volumes c pod node.name pod.volumes (record { count = 0; errors = [] }) in
    record { errors = s.errors; priority = record { host = node.name; score = pos s.count } }

module _ (X : Float) where
  unfoldable pub spread_score : ℤ → ℤ → ℤ
  spread_score max score = X.to_int (
      if ltb_ℤ (pos 0) max
      then X.mul (X.of_int (pos 10)) (X.div (X.sub (X.of_int max) (X.of_int score)) (X.of_int max))
      else X.of_int (pos 10))

  -- `reduceScoringNode`
  unfoldable pub spread_reduce : List HostPriority → List HostPriority
  unfolding max_score
  spread_reduce ps =
      let max = max_score (pos 0) ps in
      map (λ (p : HostPriority). record p { score = spread_score max p.score }) ps
