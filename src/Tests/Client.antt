-- ===== src/Tests/Client.antt =====
-- A client library: the informers have all objects after one poll.
use extender_scheduler.Prelude.{
  ◌≡◌, ◌≢◌, refl, sym, ap, ◌∙◌, ◌⊎◌, inl, inr, String, Bool, true, false, Option, none, some,
}
use extender_scheduler.Cluster.{ok, err, external}
use extender_scheduler.Informers.{World}
use extender_scheduler.Main.{ClientGo, Waited, synced_at, unending, ready_panic}
use extender_scheduler.Main.Relied.{is_synced, IsClient}

-- The time between two polls.
abbrev pass : World → World
pass w = record w {
  pvs = record w.pvs { synced = true };
  pvcs = record w.pvcs { synced = true };
  pods = record w.pods { synced = true };
}

abbrev second_poll : World → Option Bool → Waited
second_poll w none = ready_panic
second_poll w (some true) = synced_at w
second_poll w (some false) = unending

abbrev first_poll : World → Option Bool → Option Bool → Waited
first_poll w none after = ready_panic
first_poll w (some true) after = synced_at w
first_poll w (some false) after = second_poll (pass w) after

abbrev pub client : ClientGo
client = record {
  Config = String;
  Clientset = String;
  Authenticator = String;
  config_from_flags = λ path. ok path;
  in_cluster_config = err (external "not in a cluster");
  new_for_config = λ config. ok config;
  new_csv = λ path. err (external "no file");
  wait_for_cache_sync = λ ready w. first_poll w (ready w) (ready (pass w));
}

abbrev Follows : World → World → Type 0
Follows v w = (w ≡ v) ⊎ (w ≡ pass v)

Follows-trans : (u v w : World) → Follows u v → Follows v w → Follows u w
Follows-trans u v w (inl e) (inl f) = inl (f ∙ e)
Follows-trans u v w (inl e) (inr f) = inr (f ∙ ap pass e)
Follows-trans u v w (inr e) (inl f) = inr (f ∙ e)
Follows-trans u v w (inr e) (inr f) = inr (f ∙ ap pass e)

initialised_kept : (v w : World) → Follows v w → w.initialised ≡ v.initialised
initialised_kept v w (inl e) = ap (λ x. x.initialised) e
initialised_kept v w (inr e) = ap (λ x. x.initialised) e

synced_kept : (v w : World) → Follows v w → is_synced v ≡ true → is_synced w ≡ true
synced_kept v w (inl e) h = ap is_synced e ∙ h
synced_kept v w (inr e) h = ap is_synced e

some_ne : {B : Type 0} → some false ≡ some true → B
some_ne h = cc

synced-injective : {v w : World} → synced_at v ≡ synced_at w → v ≡ w
synced-injective h = cc

module _ (ready : World → Option Bool) (v : World) where
  polled :
      (w : World) (now after : Option Bool)
      → ready v ≡ now
      → ready (pass v) ≡ after
      → first_poll v now after ≡ synced_at w
      → Follows v w × (ready w ≡ some true)
  polled w none after e f h = cc
  polled w (some true) after e f h =
      let same = synced-injective h in (inl (sym same), ap ready (sym same) ∙ e)
  polled w (some false) none e f h = cc
  polled w (some false) (some true) e f h =
      let same = synced-injective h in (inr (sym same), ap ready (sym same) ∙ f)
  polled w (some false) (some false) e f h = cc

  answered_after :
      (w : World)
      → Follows v w
      → ready v ≡ some false
      → ready w ≡ some true
      → ready (pass v) ≡ some true
  answered_after w (inl e) wrong h = some_ne (sym wrong ∙ sym (ap ready e) ∙ h)
  answered_after w (inr e) wrong h = ap ready (sym e) ∙ h

  returned :
      (w : World) (now : Option Bool)
      → ready v ≡ now
      → Follows v w
      → ready w ≡ some true
      → ready v ≢ none
      → (u : World) × (first_poll v now (ready (pass v)) ≡ synced_at u)
  returned w none e later h n = absurd (n e)
  returned w (some true) e later h n = (v, refl)
  returned w (some false) e later h n =
      (pass v, ap (second_poll (pass v)) (answered_after w later e h))

pub client-IsClient : IsClient client
client-IsClient = record {
  Later = Follows;
  later_refl = λ w. inl refl;
  later_trans = Follows-trans;
  initialised_kept = initialised_kept;
  synced_kept = synced_kept;
  will_sync = λ v started. (pass v, inr refl, refl);
  wait_only_ready = λ ready v w. polled ready v w (ready v) (ready (pass v)) refl refl;
  wait_returns = λ ready v w later stays panics.
      returned ready v w (ready v) refl later (stays w (inl refl)) (panics v (inl refl));
}
