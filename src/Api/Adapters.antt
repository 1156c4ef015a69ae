-- ===== src/Api/Adapters.antt =====
-- apps/api/routes/jobs.py: the capabilities of the source adapters, and `run_source_adapter`. An
-- uncaught exception is answered with 500.
use jobbot.Prelude.{
  ℕ, Bool, true, false, not, ◌&&◌, ◌||◌, ◌++◌, List, [], ◌∷◌, Option, none, some, String, ◌>>=◌,
  ◌==◌, is_nil, is_some, if◌then◌else◌, leb,
}
use jobbot.Text.{Text, lit, text_mem, lower_code}
use jobbot.Text.Upper.{upper_code}
use jobbot.Keywords.{words}
use jobbot.Model.{SourceRole}
use jobbot.Policies.{SourceKind, SourcePolicy, get_source_policy}
use jobbot.Registry.{create, Backend, Adapter, build_default_source_registry}
use jobbot.Discovery.{
  Settings, getattr_or_on, disabled_by, setting_name_for_feature_flag, is_bb_browser,
}
use jobbot.Discovery.Tasks.{or_25}
use jobbot.Api.{Response, ok, refused}
use jobbot.Api.Launch.{
  SourceAdapterRunBody, QueuedTask, run_auth_board_source, run_public_board_source, Launched,
}

pub data SourceFamily : Type 0 where
  public_family portfolio_family auth_family : SourceFamily

pub record SourceAdapterCapability : Type 0 where
  pub source_name : Text
  pub source_label : Text
  pub source_family : SourceFamily
  pub source_kind : SourceKind
  pub source_role : SourceRole
  pub backend : Backend
  pub requires_auth : Bool
  pub feature_flag_key : Option String
  pub enabled : Bool
  pub launch_enabled : Bool
  pub launch_reason : Option Text

abbrev source_labels : List (Text × Text)
source_labels =
    (lit "builtin_nyc", lit "Built In NYC")
    ∷ (lit "greycroft", lit "Greycroft")
    ∷ (lit "linkedin_jobs", lit "LinkedIn Jobs")
    ∷ (lit "primary_vc", lit "Primary Venture Partners")
    ∷ (lit "startupjobs_nyc", lit "StartupJobs NYC")
    ∷ (lit "technyc", lit "Tech:NYC")
    ∷ (lit "trueup", lit "TrueUp")
    ∷ (lit "underdog", lit "Underdog")
    ∷ (lit "usv", lit "USV")
    ∷ (lit "ventureloop", lit "VentureLoop")
    ∷ (lit "wellfound", lit "Wellfound")
    ∷ (lit "welcome_to_the_jungle", lit "Welcome to the Jungle")
    ∷ (lit "yc", lit "Work at a Startup (YC)")
    ∷ []

abbrev is_ascii_letter : ℕ → Bool
is_ascii_letter c = (leb b'a' c && leb c b'z') || (leb b'A' c && leb c b'Z')

-- s.replace("_", " ").title()
abbrev title_words : (inside : Bool) → Text → Text
title_words inside [] = []
title_words inside (c ∷ s) =
    if is_ascii_letter c
    then (if inside then lower_code c else upper_code c) ∷ title_words true s
    else (if c == b'_' then 32 else c) ∷ title_words false s

unfoldable pub source_label : Text → Text
unfolding create lower_code
source_label source_name = elim (create source_name source_labels) [
  | some label ↦ label
  | none ↦ title_words false source_name
]

abbrev pub source_family_for_policy : Text → SourceKind → SourceFamily
source_family_for_policy source_name SourceKind.browser_auth = auth_family
source_family_for_policy source_name _ =
    if text_mem source_name (words ("technyc" ∷ "primary_vc" ∷ "greycroft" ∷ "usv" ∷ []))
    then portfolio_family
    else public_family

-- The reason why a source cannot be launched, or an exception of its factory.
pub data LaunchCheck : Type 0 where
  factory_raised : LaunchCheck
  reason : Option Text → LaunchCheck

-- `source_registry.create(source_name)` gives the factories no connector and no scraper.
unfoldable pub adapter_reason : Adapter → LaunchCheck
adapter_reason Adapter.canonical_connector = factory_raised
adapter_reason Adapter.jobspy = factory_raised
adapter_reason Adapter.trueup = reason (
    some (
      lit
        "TrueUp public-board ingestion is currently unsupported: the live jobs surface is protected by anti-bot blocking and does not expose a stable public Scrapling-friendly HTML contract."))
adapter_reason Adapter.underdog = reason (
    some (
      lit
        "Underdog public-board ingestion is currently unsupported: the public jobs surface is a marketing shell that links to a separate board and does not expose stable public listing records in the initial HTML response."))
adapter_reason Adapter.ventureloop = reason (
    some (
      lit
        "VentureLoop public-board ingestion is currently unsupported: the live search form requires site-specific query state that does not return stable listing rows from a plain public Scrapling fetch."))
adapter_reason _ = reason none

unfoldable pub source_adapter : (source_name : Text) → Option Adapter
unfolding create build_default_source_registry
source_adapter source_name = do
  registry ← build_default_source_registry
  create source_name registry

-- No adapter: a KeyError.
abbrev pub created_reason : Option Adapter → Option LaunchCheck
created_reason none = none
created_reason (some adapter) = some (adapter_reason adapter)

abbrev pub enabled_reason :
    (bb_browser_enabled : Bool) → SourcePolicy → Option Text → Option Adapter → Option LaunchCheck
enabled_reason bb_browser_enabled policy (some r) adapter = some (reason (some r))
enabled_reason bb_browser_enabled policy none adapter =
    if is_bb_browser policy.backend_preference && not bb_browser_enabled
    then some (reason (some (lit "BB_BROWSER_ENABLED=false")))
    else created_reason adapter

abbrev pub flag_reason : Settings → SourcePolicy → Option Text
flag_reason settings policy =
    disabled_by settings policy.feature_flag_key
      (setting_name_for_feature_flag policy.feature_flag_key)

unfoldable pub adapter_launch_reason :
    Settings
    → (bb_browser_enabled : Bool) → (source_name : Text) → SourcePolicy
    → Option LaunchCheck
unfolding setting_name_for_feature_flag source_adapter adapter_reason
adapter_launch_reason settings bb_browser_enabled source_name policy =
    enabled_reason bb_browser_enabled policy (flag_reason settings policy)
      (source_adapter source_name)

abbrev pub capability_of :
    Settings → (source_name : Text) → SourcePolicy → Option Text → SourceAdapterCapability
capability_of settings source_name policy launch_reason = record {
  source_name = source_name;
  source_label = source_label source_name;
  source_family = source_family_for_policy source_name policy.source_kind;
  source_kind = policy.source_kind;
  source_role = policy.source_role_default;
  backend = policy.backend_preference;
  requires_auth = policy.requires_auth;
  feature_flag_key = policy.feature_flag_key;
  enabled = elim (setting_name_for_feature_flag policy.feature_flag_key) [
    | none ↦ true
    | some name ↦ getattr_or_on settings name
  ];
  launch_enabled = not (is_some launch_reason);
  launch_reason = launch_reason;
}

abbrev pub task_for : SourceFamily → Text → ℕ → QueuedTask
task_for auth_family source_name max_results = run_auth_board_source source_name max_results
task_for _ source_name max_results = run_public_board_source source_name max_results

abbrev unsupported : Text → Response Launched
unsupported source_name = refused record {
  status_code = 400;
  detail = lit "Unsupported source adapter: " ++ (source_name ++ lit ".");
}

abbrev start_adapter :
    (run_id : ℕ) → SourceAdapterRunBody → SourceAdapterCapability → Option Text → Response Launched
start_adapter run_id body capability (some launch_reason) = refused record {
  status_code = 403;
  detail =
      if is_nil launch_reason then body.source_name ++ lit " is not launchable." else launch_reason;
}
start_adapter run_id body capability none = ok record {
  run_id = run_id;
  source = body.source_name;
  task = task_for capability.source_family body.source_name (or_25 body.max_results);
}

abbrev pub checked_launch :
    Settings
    → (run_id : ℕ) → SourceAdapterRunBody
    → SourcePolicy
    → Option LaunchCheck
    → Response Launched
checked_launch settings run_id body policy none = unsupported body.source_name
checked_launch settings run_id body policy (some factory_raised) =
    refused record { status_code = 500; detail = lit "Internal Server Error" }
checked_launch settings run_id body policy (some (reason r)) =
    start_adapter run_id body (capability_of settings body.source_name policy r) r

abbrev pub known_launch :
    Settings
    → (bb_browser_enabled : Bool) → (run_id : ℕ) → SourceAdapterRunBody
    → Option SourcePolicy
    → Response Launched
known_launch settings bb_browser_enabled run_id body none = unsupported body.source_name
known_launch settings bb_browser_enabled run_id body (some policy) =
    checked_launch settings run_id body policy
      (adapter_launch_reason settings bb_browser_enabled body.source_name policy)

unfoldable pub run_source_adapter :
    Settings → (bb_browser_enabled : Bool) → (run_id : ℕ) → SourceAdapterRunBody → Response Launched
unfolding get_source_policy adapter_launch_reason source_label setting_name_for_feature_flag
    text_mem
run_source_adapter settings bb_browser_enabled run_id body =
    known_launch settings bb_browser_enabled run_id body (get_source_policy body.source_name)
