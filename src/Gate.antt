-- ===== src/Gate.antt =====
-- core/automation/generation_gate.py. Scores are in tenths, confidences and qualities in hundredths.
-- A reason carries the threshold that its text shows.
pub mod Eligible
use jobbot.Prelude.{
  ℕ, Bool, true, false, not, ◌&&◌, ◌||◌, List, [], ◌∷◌, Option, none, some, String, str_eq, ltb,
  leb, is_nil, is_some, if◌then◌else◌, length,
}
use jobbot.Text.{Text, lit, lower, text_eq, text_mem}
use jobbot.Keywords.{words}
use jobbot.Model.{SourceRole, canonical, discovery, url_ingest, Job}

pub record GateConfig : Type 0 where
  pub auto_generation_enabled : Bool
  pub canonical_score_threshold : ℕ
  pub discovery_agg1_score_threshold : ℕ
  pub discovery_agg1_confidence_min : ℕ
  pub discovery_agg1_content_quality_min : ℕ
  pub discovery_agg1_description_min_len : ℕ
  pub discovery_serp_eligible : Bool

-- The defaults of the dataclass.
abbrev pub default_config : GateConfig
default_config = record {
  auto_generation_enabled = false;
  canonical_score_threshold = 600;
  discovery_agg1_score_threshold = 700;
  discovery_agg1_confidence_min = 70;
  discovery_agg1_content_quality_min = 60;
  discovery_agg1_description_min_len = 200;
  discovery_serp_eligible = false;
}

pub data Reason : Type 0 where
  auto_generation_disabled stale no_apply_url no_description already_artifact_ready : Reason
  canonical_eligible serp_not_eligible_by_default serp_eligible_override agg1_eligible : Reason
  agg1_insufficient_content_confidence discovery_insufficient_content_confidence : Reason
  discovery_eligible unknown_source : Reason
  canonical_score_below serp_score_below agg1_score_below discovery_score_below : ℕ → Reason

abbrev pub role_is : SourceRole → Option SourceRole → Bool
role_is r none = false
role_is canonical (some canonical) = true
role_is discovery (some discovery) = true
role_is url_ingest (some url_ingest) = true
role_is r (some q) = false

-- `(job.source or "").lower() in names`
abbrev pub source_in : List String → Job → Bool
source_in names job = text_mem (lower (lit job.source)) (words names)

unfoldable pub is_canonical : Job → Bool
unfolding text_mem lower
is_canonical job =
    role_is canonical job.source_role
    || role_is url_ingest job.source_role
    || (not (is_some job.source_role) && source_in ("greenhouse" ∷ "lever" ∷ "ashby" ∷ []) job)

unfoldable pub is_discovery_agg1 : Job → Bool
unfolding text_mem lower
is_discovery_agg1 job = role_is discovery job.source_role && source_in ("agg1" ∷ []) job

unfoldable pub is_discovery_serp : Job → Bool
unfolding text_mem lower
is_discovery_serp job = role_is discovery job.source_role && source_in ("serp1" ∷ "serp" ∷ []) job

abbrev pub or_zero : Option ℕ → ℕ
or_zero none = 0
or_zero (some n) = n

abbrev pub quality_allows : Option ℕ → ℕ → Bool
quality_allows none min_content = true
quality_allows (some cq) min_content = leb min_content cq

abbrev pub description_length : Job → ℕ
description_length job = elim job.description [ none ↦ 0 | some d ↦ length d ]

unfoldable pub has_content_quality : Job → ℕ → ℕ → ℕ → Bool
has_content_quality job min_confidence min_content min_desc_len =
    let conf = or_zero job.source_confidence in
    (leb min_confidence conf && quality_allows job.content_quality_score min_content)
    || (leb min_confidence conf && leb min_desc_len (description_length job))

abbrev pub is_blank : Option Text → Bool
is_blank none = true
is_blank (some t) = is_nil t

-- The rules for discovery sources, with the reasons of the source.
abbrev pub discovery_rules : Job → GateConfig → Reason → Reason → Reason → Bool × Reason
discovery_rules job config below insufficient eligible =
    if ltb job.score_total config.discovery_agg1_score_threshold
    then (false, below)
    else if not (
        has_content_quality job config.discovery_agg1_confidence_min
          config.discovery_agg1_content_quality_min config.discovery_agg1_description_min_len)
    then (false, insufficient)
    else (true, eligible)

-- The rules by source, behind the tests that every job has to pass.
unfoldable pub by_source : Job → GateConfig → Bool × Reason
by_source job config =
    if is_canonical job
    then (if leb config.canonical_score_threshold job.score_total
        then (true, canonical_eligible)
        else (false, canonical_score_below config.canonical_score_threshold))
    else if is_discovery_serp job
    then (if not config.discovery_serp_eligible
        then (false, serp_not_eligible_by_default)
        else if ltb job.score_total config.discovery_agg1_score_threshold
        then (false, serp_score_below config.discovery_agg1_score_threshold)
        else (true, serp_eligible_override))
    else if is_discovery_agg1 job
    then discovery_rules job config (agg1_score_below config.discovery_agg1_score_threshold)
        agg1_insufficient_content_confidence agg1_eligible
    else if role_is discovery job.source_role
    then discovery_rules job config (discovery_score_below config.discovery_agg1_score_threshold)
        discovery_insufficient_content_confidence discovery_eligible
    else (false, unknown_source)

unfoldable pub evaluate_generation_eligibility : Job → GateConfig → Bool × Reason
evaluate_generation_eligibility job config =
    if not config.auto_generation_enabled
    then (false, auto_generation_disabled)
    else if job.stale_flag
    then (false, stale)
    else if is_blank job.apply_url
    then (false, no_apply_url)
    else if is_blank job.description
    then (false, no_description)
    else if is_some job.artifact_ready_at
    then (false, already_artifact_ready)
    else by_source job config
