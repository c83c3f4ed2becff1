-- ===== src/Main/Relied.antt =====
-- What pkg/main.go relies on of client-go: the informers, and the wait until they have synced.
use extender_scheduler.Prelude.{◌≡◌, ◌≢◌, Bool, true, ◌&&◌, Option, none, some}
use extender_scheduler.Informers.{World}
use extender_scheduler.Main.Environment.{ClientGo, synced_at}

abbrev pub is_synced : World → Bool
is_synced w = w.pvs.synced && w.pvcs.synced && w.pods.synced

abbrev pub is_started : World → Bool
is_started w = w.pvs.running && w.pvcs.running && w.pods.running

-- What the program relies on of the informers and of `WaitForCacheSync`. `Later w w'` says that the
-- informers may come from the state w to w'.
pub record IsClient (K : ClientGo) : Type 1 where
  pub Later : World → World → Type 0
  pub later_refl : (w : World) → Later w w
  pub later_trans : (u v w : World) → Later u v → Later v w → Later u w
  pub initialised_kept : (v w : World) → Later v w → w.initialised ≡ v.initialised
  -- `HasSynced` stays true.
  pub synced_kept : (v w : World) → Later v w → is_synced v ≡ true → is_synced w ≡ true
  -- Informers that are started have the objects some time.
  pub will_sync : (v : World) → is_started v ≡ true → (w : World) × Later v w × (is_synced w ≡ true)
  -- It returns true only at a time at which the function said yes.
  pub wait_only_ready :
      (ready : World → Option Bool) (v w : World)
      → K.wait_for_cache_sync ready v ≡ synced_at w
      → Later v w × (ready w ≡ some true)
  -- It returns if the function, which never panics, says yes from some time on.
  pub wait_returns :
      (ready : World → Option Bool) (v w : World)
      → Later v w
      → ((u : World) → Later w u → ready u ≡ some true)
      → ((u : World) → Later v u → ready u ≢ none)
      → (u : World) × (K.wait_for_cache_sync ready v ≡ synced_at u)
