-- ===== src/Predicate/ConfigServer/Pointers.antt =====
-- pkg/algorithm/predicate/namespaces_nodeselector_httpserver.go: the config maps that pointers stand for.
use extender_scheduler.Prelude.{
  ℕ, zero, suc, ◌<◌, ◌≡◌, refl, ap, subst, Bool, true, false, Option, none, some, List, [], ◌∷◌,
  ◌++◌, length, arith,
}
use mathlib.Core.Option.{some-injective}
use extender_scheduler.Cluster.{Result, ok, err}
use extender_scheduler.Predicate.NodeSelector.{ConfigMap, Call, empty_config_map}
use extender_scheduler.Predicate.ConfigServer.{
  Server, alloc, write_at, read_at, fetch_pointer, pointer_or, get_selector_config_map,
  get_ns_node_selector_config_map, renew_own, own_or, Caching, notcache, cached_at,
}

-- Every pointer of the server is one of a config map.
pub record IsValid (s : Server) : Type 0 where
  pub cached_valid : (p : ℕ) → s.cached ≡ some p → p < length s.heap
  pub own_valid : (p : ℕ) → s.own ≡ some p → p < length s.heap

pub length-snoc : (xs : List ConfigMap) (cm : ConfigMap) → length (xs ++ cm ∷ []) ≡ suc (length xs)
length-snoc [] cm = refl
length-snoc (x ∷ xs) cm = ap suc (length-snoc xs cm)

pub length-write_at :
    (xs : List ConfigMap) (i : ℕ) (cm : ConfigMap) → length (write_at xs i cm) ≡ length xs
length-write_at [] i cm = refl
length-write_at (x ∷ xs) zero cm = refl
length-write_at (x ∷ xs) (suc i) cm = ap suc (length-write_at xs i cm)

pub read_at-write_at :
    (xs : List ConfigMap) (i : ℕ) (cm : ConfigMap)
    → i < length xs
    → read_at (write_at xs i cm) i ≡ cm
read_at-write_at [] i cm h = absurd (omega arith)
read_at-write_at (x ∷ xs) zero cm h = refl
read_at-write_at (x ∷ xs) (suc i) cm h = read_at-write_at xs i cm (omega arith)

pub read_at-append :
    (xs ys : List ConfigMap) (i : ℕ) → i < length xs → read_at (xs ++ ys) i ≡ read_at xs i
read_at-append [] ys i h = absurd (omega arith)
read_at-append (x ∷ xs) ys zero h = refl
read_at-append (x ∷ xs) ys (suc i) h = read_at-append xs ys i (omega arith)

pub read_at-snoc : (xs : List ConfigMap) (cm : ConfigMap) → read_at (xs ++ cm ∷ []) (length xs) ≡ cm
read_at-snoc [] cm = refl
read_at-snoc (x ∷ xs) cm = read_at-snoc xs cm

pub alloc-IsValid : (cm : ConfigMap) (s : Server) → IsValid s → IsValid (alloc cm s).1
alloc-IsValid cm s v = record {
  cached_valid = λ p e. omega (arith, length-snoc s.heap cm, v.cached_valid p e);
  own_valid = λ p e. omega (arith, length-snoc s.heap cm, v.own_valid p e);
}

-- The pointer that is got is valid, and so are all others.
abbrev pub IsGot : ℕ × Server → Type 0
IsGot (p, s) = (p < length s.heap) × IsValid s

fetch_pointer-IsGot :
    (arrival : ℕ) (r : Result (Option ConfigMap)) (s : Server)
    → IsValid s
    → IsGot (fetch_pointer arrival r s)
fetch_pointer-IsGot arrival (err e) s v =
    (omega (arith, length-snoc s.heap empty_config_map), alloc-IsValid empty_config_map s v)
fetch_pointer-IsGot arrival (ok none) s v =
    (omega (arith, length-snoc s.heap empty_config_map), alloc-IsValid empty_config_map s v)
fetch_pointer-IsGot arrival (ok (some cm)) s v = (
  omega (arith, length-snoc s.heap cm),
  record {
    cached_valid = λ p e.
        subst (λ q. q < length (s.heap ++ cm ∷ [])) (some-injective (length s.heap) p e)
          (omega (arith, length-snoc s.heap cm));
    own_valid = λ p e. omega (arith, length-snoc s.heap cm, v.own_valid p e);
  },
)

pointer_or-IsGot :
    (o : Option ℕ) (recent : Bool) (s : Server) (fresh : ℕ × Server)
    → s.cached ≡ o
    → IsValid s
    → IsGot fresh
    → IsGot (pointer_or o recent s fresh)
pointer_or-IsGot none recent s fresh e v g = g
pointer_or-IsGot (some p) true s fresh e v g = (v.cached_valid p e, v)
pointer_or-IsGot (some p) false s fresh e v g = g

pub get_selector_config_map-IsGot :
    (call : Call) (s : Server) → IsValid s → IsGot (get_selector_config_map call s)
unfolding get_selector_config_map
get_selector_config_map-IsGot call s v =
    pointer_or-IsGot s.cached _ s (fetch_pointer call.arrival call.reply s) refl v
      (fetch_pointer-IsGot call.arrival call.reply s v)

renew_own-IsGot : (call : Call) (now : ℕ) (s : Server) → IsValid s → IsGot (renew_own call now s)
unfolding renew_own
renew_own-IsGot call now s v =
    let g = get_selector_config_map-IsGot call s v in
    (
      g.0,
      record {
        cached_valid = g.1.cached_valid;
        own_valid = λ p e.
            subst (λ q. q < length (get_selector_config_map call s).1.heap) (some-injective _ p e)
              g.0;
      },
    )

own_or-IsGot :
    (o : Option ℕ) (old : Bool) (s : Server) (fresh : ℕ × Server)
    → s.own ≡ o
    → IsValid s
    → IsGot fresh
    → IsGot (own_or o old s fresh)
own_or-IsGot none old s fresh e v g = g
own_or-IsGot (some p) true s fresh e v g = g
own_or-IsGot (some p) false s fresh e v g = (v.own_valid p e, v)

-- The pointer that a request gets is one of a config map, and so are all others.
pub get_ns_node_selector_config_map-IsGot :
    (caching : Caching) (call : Call) (now : ℕ) (s : Server)
    → IsValid s
    → IsGot (get_ns_node_selector_config_map caching call now s)
unfolding get_ns_node_selector_config_map
get_ns_node_selector_config_map-IsGot notcache call now s v = renew_own-IsGot call now s v
get_ns_node_selector_config_map-IsGot (cached_at asked) call now s v =
    own_or-IsGot s.own _ s (renew_own call now s) refl v (renew_own-IsGot call now s v)
