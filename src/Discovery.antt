-- ===== src/Discovery.antt =====
-- apps/worker/tasks/discovery.py: how discovery rows differ from canonical ones, which sources are
-- switched off, and `_run_discovery_persist`, whose loop is that of `_run_canonical_ingest`. A
-- confidence is in hundredths. The settings object is an argument: a setting that it lacks is on.
pub mod Boards
pub mod Tasks
pub mod Partial
pub mod Confidence
use jobbot.Prelude.{
  ℕ, ◌+◌, Bool, true, false, not, ◌++◌, ◌&&◌, ◌||◌, List, [], Option, none, some, String, min,
  length, ltb, is_nil, if◌then◌else◌, or_else,
}
use jobbot.Text.{Text, lit, lower, text_eq}
use jobbot.Model.{Captured, discovery, pending}
use jobbot.Policies.{SourcePolicy, get_source_policy}
use jobbot.Registry.{Backend, bb_browser}
use jobbot.Ingest.{CanonicalJob, RawJob, ScrapeRun, Tables, Origin, Shown, text_or, value_or_empty}
use jobbot.Ingest.Run.{FetchResult, Ingested, run_canonical_ingest}

abbrev bonus : Bool → ℕ → ℕ
bonus earned points = if earned then points else 0

unfoldable pub compute_source_confidence : CanonicalJob → (source_name : Text) → ℕ
unfolding text_eq
compute_source_confidence c source_name =
    let score =
      50
      + bonus (ltb 100 (length (value_or_empty c.description))) 20
      + bonus (not (is_nil (value_or_empty c.apply_url))) 20
      + bonus (not (is_nil (value_or_empty c.location))) 10 in
    if text_eq source_name (lit "serp1") then min score 69 else min score 100

-- What the skipped item of `_run_discovery_persist` shows.
abbrev pub shown_by_connector : RawJob → Shown
shown_by_connector raw = record {
  source_job_id = text_or (or_else raw.id raw.page_url) none;
  company_name = raw.company;
  location = raw.location;
  url = text_or raw.page_url raw.redirect_url;
  apply_url = text_or raw.redirect_url raw.page_url;
}

-- What that of `_run_source_adapter_persist` shows.
abbrev pub shown_by_adapter : RawJob → Shown
shown_by_adapter raw = record {
  source_job_id = text_or raw.external_id none;
  company_name = raw.company;
  location = raw.location;
  url = raw.record_source_url;
  apply_url = raw.record_apply_url;
}

-- The rows of a discovery source.
unfoldable pub discovery_origin :
    String → (captured : RawJob → Option Captured) → (shown : RawJob → Shown) → Origin
unfolding compute_source_confidence
discovery_origin source_name captured shown = record {
  source_name = source_name;
  source_role = some discovery;
  ats_type = "unknown";
  confidence = λ c. some (compute_source_confidence c (lit source_name));
  resolution_status = some pending;
  provider_metadata = [];
  captured = captured;
  shown = shown;
}

unfoldable pub run_discovery_persist :
    (Text → Text)
    → (RawJob → Option CanonicalJob)
    → (uuid : ℕ → ℕ) → (source_name : String) → FetchResult
    → (now : ℕ) → Option ScrapeRun
    → Tables
    → Ingested
unfolding run_canonical_ingest discovery_origin
run_discovery_persist sha256 normalize uuid source_name result now run tables =
    run_canonical_ingest sha256 normalize
      (discovery_origin source_name (λ raw. none) shown_by_connector) uuid result now run tables

-- The attributes of the settings object that are there.
abbrev pub Settings : Type 0
Settings = Text → Option Bool

abbrev pub getattr_or_on : Settings → Text → Bool
getattr_or_on settings name = elim (settings name) [ none ↦ true | some b ↦ b ]

unfoldable pub setting_name_for_feature_flag : Option String → Option Text
unfolding lower
setting_name_for_feature_flag none = none
setting_name_for_feature_flag (some key) = if is_nil (lit key) then none else some (lower (lit key))

abbrev pub flag_text : Option String → Text
flag_text none = lit "None"
flag_text (some key) = lit key

abbrev pub disabled_by : Settings → Option String → Option Text → Option Text
disabled_by settings key none = none
disabled_by settings key (some name) =
    if getattr_or_on settings name then none else some (flag_text key ++ lit "=false")

unfoldable pub source_disabled_reason : Settings → (source_name : Text) → Option Text
unfolding get_source_policy setting_name_for_feature_flag
source_disabled_reason settings source_name = elim (get_source_policy source_name) [
  | none ↦ none
  | some policy ↦
      disabled_by settings policy.feature_flag_key
        (setting_name_for_feature_flag policy.feature_flag_key)
]

abbrev pub is_bb_browser : Backend → Bool
is_bb_browser bb_browser = true
is_bb_browser _ = false

unfoldable pub backend_disabled_reason :
    (bb_browser_enabled : Bool) → (source_name : Text) → Option Text
unfolding get_source_policy
backend_disabled_reason bb_browser_enabled source_name = elim (get_source_policy source_name) [
  | none ↦ none
  | some policy ↦
      if not (is_bb_browser policy.backend_preference)
      then none
      else if bb_browser_enabled
      then none
      else some (lit "BB_BROWSER_ENABLED=false")
]

-- The reason of `_skip_run_for_disabled_source`.
unfoldable pub skip_reason :
    Settings → (bb_browser_enabled : Bool) → (source_name : Text) → Option Text
unfolding source_disabled_reason backend_disabled_reason
skip_reason settings bb_browser_enabled source_name =
    text_or (source_disabled_reason settings source_name)
      (backend_disabled_reason bb_browser_enabled source_name)
