-- ===== src/Policies.antt =====
-- core/ingestion/source_policies.py and the types of core/ingestion/types.py that it uses.
pub mod Consistent
use jobbot.Prelude.{Bool, true, false, List, [], ◌∷◌, Option, none, some, String}
use jobbot.Text.{Text, lit}
use jobbot.Model.{SourceRole, canonical, discovery}
use jobbot.Registry.{
  Registry, create, Backend, legacy_connector, legacy_scraper, scrapling, bb_browser,
}

pub data SourceKind : Type 0 where
  canonical_api public_board dynamic_board browser_auth : SourceKind

pub record SourcePolicy : Type 0 where
  pub source_name : Text
  pub source_kind : SourceKind
  pub source_role_default : SourceRole
  pub requires_auth : Bool
  pub backend_preference : Backend
  pub feature_flag_key : Option String

-- One entry of the dict, whose key is the name of its policy.
abbrev entry : String → SourceKind → SourceRole → Bool → Backend → String → Text × SourcePolicy
entry name kind role auth backend flag = (
  lit name,
  record {
    source_name = lit name;
    source_kind = kind;
    source_role_default = role;
    requires_auth = auth;
    backend_preference = backend;
    feature_flag_key = some flag;
  },
)

abbrev pub source_policies : Registry SourcePolicy
source_policies =
    entry "greenhouse" canonical_api canonical false legacy_connector "GREENHOUSE_ENABLED"
    ∷ entry "lever" canonical_api canonical false legacy_connector "LEVER_ENABLED"
    ∷ entry "ashby" canonical_api canonical false legacy_connector "ASHBY_ENABLED"
    ∷ entry "jobspy" public_board discovery false legacy_scraper "JOBSPY_ENABLED"
    ∷ entry "trueup" public_board discovery false scrapling "TRUEUP_ENABLED"
    ∷ entry "underdog" public_board discovery false scrapling "UNDERDOG_ENABLED"
    ∷ entry "startupjobs_nyc" public_board discovery false scrapling "STARTUPJOBS_NYC_ENABLED"
    ∷ entry "technyc" public_board discovery false scrapling "TECHNYC_ENABLED"
    ∷ entry "primary_vc" public_board discovery false scrapling "PRIMARY_VC_ENABLED"
    ∷ entry "greycroft" public_board discovery false scrapling "GREYCROFT_ENABLED"
    ∷ entry "usv" public_board discovery false scrapling "USV_ENABLED"
    ∷ entry "ventureloop" public_board discovery false scrapling "VENTURELOOP_ENABLED"
    ∷ entry "builtin_nyc" public_board discovery false scrapling "BUILTIN_NYC_ENABLED"
    ∷ entry "welcome_to_the_jungle" public_board discovery false scrapling
        "WELCOME_TO_THE_JUNGLE_ENABLED"
    ∷ entry "linkedin_jobs" browser_auth discovery true bb_browser "LINKEDIN_JOBS_ENABLED"
    ∷ entry "wellfound" browser_auth discovery true bb_browser "WELLFOUND_ENABLED"
    ∷ entry "yc" browser_auth discovery true bb_browser "YC_ENABLED"
    ∷ []

-- The KeyError of an unknown source is `none`.
unfoldable pub get_source_policy : Text → Option SourcePolicy
unfolding create
get_source_policy name = create name source_policies
