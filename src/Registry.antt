-- ===== src/Registry.antt =====
-- core/ingestion/registry.py: BackendRegistry and SourceAdapterRegistry, which differ only in what
-- their factories make. A dict keeps the order of insertion; a ValueError or KeyError is `none`.
pub mod Laws
use jobbot.Prelude.{
  Bool, true, false, List, [], ◌∷◌, ◌++◌, Option, none, some, is_some, map, if◌then◌else◌, ◌>>=◌,
}
use jobbot.Text.{Text, lit, text_eq}

abbrev pub Registry : Type 0 → Type 0
Registry F = List (Text × F)

module _ {F : Type 0} where
  -- self._factories[name]
  unfoldable pub create : Text → Registry F → Option F
  unfolding text_eq
  create name [] = none
  create name ((n, f) ∷ rest) =
      let later = create name rest in if text_eq n name then some f else later

  unfoldable pub has : Text → Registry F → Bool
  unfolding text_eq
  has name [] = false
  has name ((n, f) ∷ rest) = let later = has name rest in if text_eq n name then true else later

  unfoldable pub register : Text → F → Registry F → Option (Registry F)
  unfolding has
  register name factory registry =
      if has name registry then none else some (registry ++ (name, factory) ∷ [])

  abbrev pub keys : Registry F → List Text
  keys = map (λ r. r.0)

  -- A sequence of calls of `register`, up to the first that raises.
  unfoldable pub register_all : List (Text × F) → Registry F → Option (Registry F)
  unfolding register
  register_all [] registry = some registry
  register_all ((name, f) ∷ rest) registry = do
    next ← register name f registry
    register_all rest next

pub data Backend : Type 0 where
  legacy_connector legacy_scraper scrapling bb_browser : Backend

pub data Adapter : Type 0 where
  canonical_connector jobspy trueup underdog startupjobs_nyc technyc primary_vc greycroft usv :
      Adapter
  ventureloop builtin_nyc welcome_to_the_jungle linkedin_jobs wellfound yc : Adapter

unfoldable pub build_default_backend_registry : Option (Registry Backend)
unfolding register_all
build_default_backend_registry =
    register_all
      ((lit "legacy_connector", legacy_connector)
        ∷ (lit "legacy_scraper", legacy_scraper)
        ∷ (lit "scrapling", scrapling)
        ∷ (lit "bb_browser", bb_browser)
        ∷ [])
      []

unfoldable pub build_default_source_registry : Option (Registry Adapter)
unfolding register_all
build_default_source_registry =
    register_all
      ((lit "greenhouse", canonical_connector)
        ∷ (lit "lever", canonical_connector)
        ∷ (lit "ashby", canonical_connector)
        ∷ (lit "jobspy", jobspy)
        ∷ (lit "trueup", trueup)
        ∷ (lit "underdog", underdog)
        ∷ (lit "startupjobs_nyc", startupjobs_nyc)
        ∷ (lit "technyc", technyc)
        ∷ (lit "primary_vc", primary_vc)
        ∷ (lit "greycroft", greycroft)
        ∷ (lit "usv", usv)
        ∷ (lit "ventureloop", ventureloop)
        ∷ (lit "builtin_nyc", builtin_nyc)
        ∷ (lit "welcome_to_the_jungle", welcome_to_the_jungle)
        ∷ (lit "linkedin_jobs", linkedin_jobs)
        ∷ (lit "wellfound", wellfound)
        ∷ (lit "yc", yc)
        ∷ [])
      []
