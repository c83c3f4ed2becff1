-- ===== src/Predicate/NodeSelector/Cached.antt =====
-- pkg/algorithm/predicate/namespaces_nodeselector.go: how old the config map is that `getConfigCM` gives.
use mathlib.Core.Option.{some-injective}
use extender_scheduler.Prelude.{
  ◌+◌, ◌≢◌, Bool, ℕ, ◌-◌, ◌≤◌, ◌≡◌, refl, sym, ap, inl, inr, true, false, Option, none, some, List,
  [], ◌∷◌, leb, arith,
}
use extender_scheduler.Cluster.{Result, ok, err}
use extender_scheduler.Algorithm.PodInfo.Selected.{Among}
use extender_scheduler.Predicate.NodeSelector.{
  ConfigMap, ConfigCache, Call, cache_time_out, empty_config_map, fetched, cached_or, get_config_cm,
}

abbrev pub no_cache : ConfigCache
no_cache = record { config_map = none; updated = 0 }

-- The package's variables after calls, the last one first.
abbrev pub after_calls : List Call → ConfigCache
after_calls [] = no_cache
after_calls (call ∷ calls) = (get_config_cm call (after_calls calls)).1

abbrev pub add_answer : ℕ → Result (Option ConfigMap) → List (ℕ × ConfigMap) → List (ℕ × ConfigMap)
add_answer arrival (err e) known = known
add_answer arrival (ok none) known = known
add_answer arrival (ok (some cm)) known = (arrival, cm) ∷ known

-- What the calls have been answered, each config map with the time of its arrival.
abbrev pub answers_of : List Call → List (ℕ × ConfigMap)
answers_of [] = []
answers_of (call ∷ calls) = add_answer call.arrival call.reply (answers_of calls)

-- The cached config map is a known reply.
record IsKnown (known : List (ℕ × ConfigMap)) (s : ConfigCache) : Type 0 where
  answered : (cm : ConfigMap) → s.config_map ≡ some cm → Among (s.updated, cm) known

Among-add_answer :
    (arrival : ℕ) (r : Result (Option ConfigMap)) (known : List (ℕ × ConfigMap)) (x : ℕ × ConfigMap)
    → Among x known
    → Among x (add_answer arrival r known)
Among-add_answer arrival (err e) known x h = h
Among-add_answer arrival (ok none) known x h = h
Among-add_answer arrival (ok (some cm)) known x h = inr h

fetched-IsKnown :
    (arrival : ℕ) (r : Result (Option ConfigMap)) (known : List (ℕ × ConfigMap)) (s : ConfigCache)
    → IsKnown known s
    → IsKnown (add_answer arrival r known) (fetched arrival r s).1
fetched-IsKnown arrival (err e) known s k = k
fetched-IsKnown arrival (ok none) known s k = k
fetched-IsKnown arrival (ok (some cm)) known s k = record {
  answered = λ c e. inl (ap (λ x. (arrival, x)) (sym (some-injective cm c e)));
}

cached_or-IsKnown :
    (known : List (ℕ × ConfigMap)) (o : Option ConfigMap) (recent : Bool) (s : ConfigCache)
    (fresh : ConfigMap × ConfigCache)
    → IsKnown known s
    → IsKnown known fresh.1
    → IsKnown known (cached_or o recent s fresh).1
cached_or-IsKnown known none recent s fresh k f = f
cached_or-IsKnown known (some cm) true s fresh k f = k
cached_or-IsKnown known (some cm) false s fresh k f = f

after_calls-IsKnown : (calls : List Call) → IsKnown (answers_of calls) (after_calls calls)
unfolding get_config_cm
after_calls-IsKnown [] = record { answered = λ cm e. cc }
after_calls-IsKnown (call ∷ calls) =
    let s = after_calls calls in
    let k = after_calls-IsKnown calls in
    cached_or-IsKnown (answers_of (call ∷ calls)) s.config_map _ s
      (fetched call.arrival call.reply s)
      (record {
        answered =
            λ cm e. Among-add_answer call.arrival call.reply (answers_of calls) _ (k.answered cm e);
      })
      (fetched-IsKnown call.arrival call.reply (answers_of calls) s k)

-- Where a config map comes from: it arrived at most the time-out before the call began, or it is what the
-- call itself was answered, or it is the empty one because the call got none.
pub data Origin (calls : List Call) (call : Call) (cm : ConfigMap) : Type 0 where
  recent :
      (arrival : ℕ)
      → Among (arrival, cm) (answers_of calls)
      → call.start ≤ arrival + cache_time_out
      → Origin calls call cm
  answered : call.reply ≡ ok (some cm) → Origin calls call cm
  unanswered :
      cm ≡ empty_config_map → ((c : ConfigMap) → call.reply ≢ ok (some c)) → Origin calls call cm

fetched-Origin :
    (calls : List Call) (call : Call) (r : Result (Option ConfigMap)) (s : ConfigCache)
    → call.reply ≡ r
    → Origin calls call (fetched call.arrival r s).0
fetched-Origin calls call (err e) s h = unanswered refl (λ c e'. cc)
fetched-Origin calls call (ok none) s h = unanswered refl (λ c e'. cc)
fetched-Origin calls call (ok (some cm)) s h = answered h

cached_or-Origin :
    (calls : List Call) (call : Call) (s : ConfigCache) (o : Option ConfigMap) (b : Bool)
    (fresh : ConfigMap × ConfigCache)
    → IsKnown (answers_of calls) s
    → s.config_map ≡ o
    → leb (call.start - s.updated) cache_time_out ≡ b
    → Origin calls call fresh.0
    → Origin calls call (cached_or o b s fresh).0
cached_or-Origin calls call s none b fresh k e h f = f
cached_or-Origin calls call s (some cm) true fresh k e h f =
    recent s.updated (k.answered cm e) (ground arith)
cached_or-Origin calls call s (some cm) false fresh k e h f = f

-- After any sequence of calls, the config map that `getConfigCM` gives is one that the API server gave to an
-- earlier call and that arrived at most 5 seconds before this call began, or what the server answers to this
-- call, or, only if it gives none, the empty one.
pub get_config_cm-Origin :
    (calls : List Call) (call : Call) → Origin calls call (get_config_cm call (after_calls calls)).0
unfolding get_config_cm
get_config_cm-Origin calls call =
    let s = after_calls calls in
    cached_or-Origin calls call s s.config_map _ (fetched call.arrival call.reply s)
      (after_calls-IsKnown calls) refl refl (fetched-Origin calls call call.reply s refl)
