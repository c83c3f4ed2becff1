-- ===== src/Registry/Laws.antt =====
-- pkg/algorithm/predicate/predicate.go and pkg/algorithm/prioritize/prioritize.go: the names of the
-- registered plug-ins, and when a package is ready.
use mathlib.Core.Bool.{false≢true}
use mathlib.Core.List.{map-append}
use extender_scheduler.Prelude.{
  ◌≡◌, ◌≢◌, refl, sym, ap, subst, ◌∙◌, ◌↔◌, String, ◌<>◌, Bool, true, false, Option, none, some,
  List, [], ◌∷◌, ◌++◌, map, arith, inl, inr, Bool-cases, All,
}
use extender_scheduler.Prelude.Text.{◌==◌, eq_iff}
use extender_scheduler.Prelude.Keys.{Distinct, All-snoc, Distinct-snoc, Distinct-prefix}
use extender_scheduler.Cluster.{Result, ok, err, ok-injective, err-ne-ok, not_inited}
use extender_scheduler.Registry.{
  Plugin, Registry, has_name, regist, and_ready, all_ready_in, all_ready, route_path, install,
}

-- No name is empty, and no two are the same.
pub record HasNames {P S : Type 0} (I : Plugin P S) (r : Registry P) : Type 0 where
  pub named : All (λ p. I.name p ≢ "") r.plugins
  pub distinct : Distinct (map I.name r.plugins)

-- The result of a registration, had the package been initialised or not.
abbrev pub with_inited : {P : Type 0} → Bool → Result (Registry P) → Result (Registry P)
with_inited b (ok r) = ok (record r { inited = b })
with_inited b (err e) = err e

abbrev OtherNames : {P S : Type 0} → Plugin P S → String → List P → Type 0
OtherNames I n ps = All (λ y. y ≢ n) (map I.name ps)

-- The paths of the installed routes.
abbrev pub paths : {P : Type 0} → List (String × P) → List String
paths = map (λ (path, _). path)

module _ {P S : Type 0} (I : Plugin P S) where
  has_name-false : (n : String) (ps : List P) → has_name I n ps ≡ false → OtherNames I n ps
  unfolding has_name
  has_name-false n [] h = tt
  has_name-false n (p ∷ ps) h = elim (Bool-cases (I.name p == n)) [
    | inl same ↦ absurd (false≢true (sym h ∙ rw same))
    | inr other ↦ (
      λ e. false≢true (sym other ∙ (eq_iff (I.name p) n).1 e),
      has_name-false n ps (rw other at h),
    )
  ]

  -- A registration that succeeds keeps the names of the plug-ins distinct and not empty, and adds the
  -- plug-in behind the others.
  pub regist-HasNames :
      (p : P) (r r' : Registry P)
      → HasNames I r
      → regist I p r ≡ ok r'
      → HasNames I r' × (r'.plugins ≡ r.plugins ++ p ∷ [])
  unfolding regist
  regist-HasNames p r r' h e = elim (Bool-cases (I.name p == "")) [
    | inl empty ↦ err-ne-ok (rw empty at e)
    | inr named ↦ elim (Bool-cases (has_name I (I.name p) r.plugins)) [
      | inl taken ↦ err-ne-ok (rw (named, taken) at e)
      | inr new ↦ added named new (ap (λ x. x.plugins) (ok-injective (rw (named, new) at e)))
    ]
  ]
    where
      added :
          (I.name p == "") ≡ false
          → has_name I (I.name p) r.plugins ≡ false
          → r.plugins ++ p ∷ [] ≡ r'.plugins
          → HasNames I r' × (r'.plugins ≡ r.plugins ++ p ∷ [])
      added named new same = (
        record {
          named = subst (All (λ q. I.name q ≢ "")) same (
              All-snoc (λ q. I.name q ≢ "") p r.plugins h.named
                (λ x. false≢true (sym named ∙ (eq_iff (I.name p) "").1 x)));
          distinct =
              subst (λ l. Distinct (map I.name l)) same
                (rw map-append (
                  Distinct-snoc (I.name p) (map I.name r.plugins)
                    (has_name-false (I.name p) r.plugins new) h.distinct));
        },
        sym same,
      )

  -- Whether the package has been initialised makes no difference to a registration.
  pub regist_inited :
      (p : P) (r : Registry P) (b : Bool)
      → regist I p (record r { inited = b }) ≡ with_inited b (regist I p r)
  unfolding regist
  regist_inited p r b = ground arith

  paths_of_routes :
      (api_prefix part : String) (ps : List P)
      → paths (map (λ p. (route_path I api_prefix part p, p)) ps)
        ≡ map
            (λ x. "/" <> x)
            (map
              (λ x. api_prefix <> x)
              (map (λ x. "/" <> x) (map (λ x. part <> x) (map (λ x. "/" <> x) (map I.name ps)))))
  unfolding route_path
  paths_of_routes api_prefix part [] = refl
  paths_of_routes api_prefix part (p ∷ ps) =
      ap (λ l. route_path I api_prefix part p ∷ l) (paths_of_routes api_prefix part ps)

  plugins_of_routes :
      (api_prefix part : String) (ps : List P)
      → map (λ (_, p). p) (map (λ p. (route_path I api_prefix part p, p)) ps) ≡ ps
  plugins_of_routes api_prefix part [] = refl
  plugins_of_routes api_prefix part (p ∷ ps) =
      ap (λ l. p ∷ l) (plugins_of_routes api_prefix part ps)

  -- `InstallHttpServer` fails before the initialisation. After it the plug-ins get a route each, in
  -- their order, and with distinct names no two routes have the same path.
  pub install-Distinct :
      (api_prefix part : String) (r : Registry P)
      → HasNames I r
      → (r.inited ≡ false → install I api_prefix part r ≡ err (not_inited I.kind))
        × (r.inited ≡ true
            → (routes : List (String × P)) × (install I api_prefix part r ≡ ok routes)
              × (map (λ (_, p). p) routes ≡ r.plugins)
              × Distinct (paths routes))
  unfolding install route_path
  install-Distinct api_prefix part r h = (
    λ e. rw e,
    λ e. (
      map (λ p. (route_path I api_prefix part p, p)) r.plugins,
      rw e,
      plugins_of_routes api_prefix part r.plugins,
      rw (paths_of_routes api_prefix part r.plugins) (
          Distinct-prefix "/" _ (
            Distinct-prefix api_prefix _
              (Distinct-prefix "/" _ (Distinct-prefix part _ (Distinct-prefix "/" _ h.distinct))))),
    ),
  )

  and_ready_iff :
      {Rest : Type 0} (b rest : Option Bool)
      → (rest ≡ some true) ↔ Rest
      → (and_ready b rest ≡ some true) ↔ ((b ≡ some true) × Rest)
  and_ready_iff none rest h = (λ e. cc, λ e. cc)
  and_ready_iff (some false) rest h = (λ e. cc, λ e. cc)
  and_ready_iff (some true) rest h = (λ e. (refl, h.0 e), λ e. h.1 e.1)

  all_ready_in_iff :
      (ps : List P) (s : S)
      → (all_ready_in I ps s ≡ some true) ↔ All (λ p. I.ready p s ≡ some true) ps
  unfolding all_ready_in
  all_ready_in_iff [] s = (λ h. tt, λ h. refl)
  all_ready_in_iff (p ∷ ps) s = and_ready_iff (I.ready p s) _ (all_ready_in_iff ps s)

  -- `Ready` says yes exactly when the package has been initialised and every plug-in is ready.
  pub all_ready_iff :
      (r : Registry P) (s : S)
      → (all_ready I r s ≡ some true)
        ↔ ((r.inited ≡ true) × All (λ p. I.ready p s ≡ some true) r.plugins)
  unfolding all_ready
  all_ready_iff r s = elim (Bool-cases r.inited) [
    | inl e ↦
        rw e (
          λ h. (refl, (all_ready_in_iff r.plugins s).0 h),
          λ h. (all_ready_in_iff r.plugins s).1 h.1,
        )
    | inr e ↦ rw e (λ h. cc, λ h. cc)
  ]
