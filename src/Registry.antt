-- ===== src/Registry.antt =====
-- pkg/algorithm/predicate/predicate.go and pkg/algorithm/prioritize/prioritize.go: the list of
-- plug-ins that each of the two packages keeps. Their code is the same but for the words of the
-- messages, so it stands here once, for an interface of a plug-in; each package instantiates it. A
-- mutex is held through each operation, so an operation is one step.
pub mod Laws
use extender_scheduler.Prelude.{
  String, ◌<>◌, Bool, true, false, not, ◌&&◌, ◌||◌, Option, none, some, List, [], ◌∷◌, ◌++◌, map,
  if◌then◌else◌,
}
use extender_scheduler.Prelude.Text.{◌==◌}
use extender_scheduler.Cluster.{
  Error, Result, ok, err, name_is_empty, is_registered, init_failed, not_inited,
}

-- The methods of a plug-in `P` over the state `S` that the plug-ins share.
pub record Plugin (P S : Type 0) : Type 0 where
  pub kind : String
  pub name : P → String
  -- `none` is the panic of a plug-in that was not initialised.
  pub ready : P → S → Option Bool
  pub init : P → S → Option Error × S

-- The package's variables.
pub record Registry (P : Type 0) : Type 0 where
  pub plugins : List P
  pub inited : Bool

abbrev pub empty_registry : {P : Type 0} → Registry P
empty_registry = record { plugins = []; inited = false }

-- The answers of a plug-in and of those after it, which are asked only if it is ready.
abbrev pub and_ready : Option Bool → Option Bool → Option Bool
and_ready none rest = none
and_ready (some false) rest = some false
and_ready (some true) rest = rest

-- What an `init` function of a package does with the result of `Regist`, which it ignores.
abbrev pub kept_or : {P : Type 0} → Registry P → Result (Registry P) → Registry P
kept_or r (ok r') = r'
kept_or r (err e) = r

module _ {P S : Type 0} (I : Plugin P S) where
  open I use {kind, name, ready, init}

  unfoldable pub has_name : String → List P → Bool
  has_name n [] = false
  has_name n (p ∷ ps) = name p == n || has_name n ps

  -- `Regist`. After the initialisation it makes an error, drops it and goes on.
  unfoldable pub regist : P → Registry P → Result (Registry P)
  unfolding has_name
  regist p r =
      if name p == ""
      then err (name_is_empty kind)
      else if has_name (name p) r.plugins
      then err (is_registered kind)
      else ok (record r { plugins = r.plugins ++ p ∷ [] })

  -- The `init` functions of a package's files, in order.
  unfoldable pub regist_all : List P → Registry P → Registry P
  unfolding regist
  regist_all [] r = r
  regist_all (p ∷ ps) r = regist_all ps (kept_or r (regist p r))

  unfoldable pub init_loop : List P → S → Option Error × S
  init_loop [] s = (none, s)
  init_loop (p ∷ ps) s =
      let (failure, s') = init p s in
      elim failure [ some e ↦ (some (init_failed kind (name p) e), s') | none ↦ init_loop ps s' ]

  abbrev pub mark_inited : Option Error → Registry P → Registry P
  mark_inited none r = record r { inited = true }
  mark_inited (some e) r = r

  -- `Init`
  unfoldable pub init_all : Registry P → S → Option Error × Registry P × S
  unfolding init_loop
  init_all r s = let (failure, s') = init_loop r.plugins s in (failure, mark_inited failure r, s')

  unfoldable pub all_ready_in : List P → S → Option Bool
  all_ready_in [] s = some true
  all_ready_in (p ∷ ps) s = let rest = all_ready_in ps s in and_ready (ready p s) rest

  -- `Ready`
  unfoldable pub all_ready : Registry P → S → Option Bool
  unfolding all_ready_in
  all_ready r s = if not r.inited then some false else all_ready_in r.plugins s

  unfoldable pub route_path : String → String → P → String
  route_path api_prefix part p = "/" <> (api_prefix <> ("/" <> (part <> ("/" <> name p))))

  -- `InstallHttpServer`: the paths, with the plug-in that answers at each.
  unfoldable pub install : String → String → Registry P → Result (List (String × P))
  unfolding route_path
  install api_prefix part r =
      if not r.inited
      then err (not_inited kind)
      else ok (map (λ p. (route_path api_prefix part p, p)) r.plugins)
