-- ===== src/Tests/Decisions.antt =====
-- The decisions of the status mirror, the classifier, the gate and the upsert at single inputs.
use jobbot.Prelude.{◌≡◌, ◌≢◌, ◌↔◌, refl, true, false, [], ◌∷◌, some, none}
use jobbot.Text.{lit}
use jobbot.Status.{PipelineStatus, UserStatus, JobStatus, legacy_status_from_canonical}
use jobbot.Status.Mirror.{IsAccepted, IsUndecided, legacy_status_iff}
use jobbot.Model.{platform_infra, hybrid, Signals, JobAnalysis}
use jobbot.Classification.{ClassificationInput, signals_of, decide, classify}
use jobbot.Classification.Rules.{confidence_high}
use jobbot.Classification.Decision.{Leads, classify_sound}
use jobbot.Registry.{
  Registry, Backend, legacy_connector, scrapling, bb_browser, register,
  build_default_backend_registry, build_default_source_registry,
}
use jobbot.Policies.{SourceKind, SourcePolicy, get_source_policy}
use jobbot.Policies.Consistent.{FitsKind, get_source_policy-Fits}
use jobbot.Prelude.{◌++◌, is_some}
use jobbot.Model.{discovery}
use jobbot.Gate.{
  GateConfig, default_config, by_source, is_canonical, evaluate_generation_eligibility,
}
use jobbot.Gate.Eligible.{IsPresentable, Qualifies, eligible_iff}
use jobbot.Tests.Data.{fit_job}

legacy_status_iff_example :
    let p = PipelineStatus.classified in
    let u = UserStatus.fresh in
    ((legacy_status_from_canonical p u ≡ JobStatus.rejected) ↔ (p ≡ PipelineStatus.rejected))
    × ((legacy_status_from_canonical p u ≡ JobStatus.applied)
        ↔ ((p ≢ PipelineStatus.rejected) × (u ≡ UserStatus.applied)))
    × ((legacy_status_from_canonical p u ≡ JobStatus.archived)
        ↔ ((p ≢ PipelineStatus.rejected) × (u ≡ UserStatus.archived)))
    × ((legacy_status_from_canonical p u ≡ JobStatus.scored) ↔ (IsAccepted p × IsUndecided u))
legacy_status_iff_example = legacy_status_iff PipelineStatus.classified UserStatus.fresh

abbrev two_sides : Signals
two_sides = record {
  backend_title_matches = 1;
  platform_title_matches = 0;
  hybrid_title_matches = 0;
  backend_desc_score = 3;
  platform_desc_score = 1;
  backend_total = 7;
  platform_total = 1;
}

abbrev sre : ClassificationInput
sre = record {
  normalized_title = lit "sre";
  description = [];
  found_keywords = none;
  ats_categories = none;
}

sre_persona : (classify sre).persona ≡ platform_infra
unfolding classify signals_of decide
sre_persona = refl

sre_confidence : (classify sre).confidence ≡ confidence_high
unfolding classify signals_of decide
sre_confidence = refl

sre_not_hybrid : (classify sre).persona ≢ hybrid
sre_not_hybrid e = cc (e, sre_persona)

classify_sound_example :
    Leads 1 (classify sre).persona (signals_of sre) × ((signals_of sre).hybrid_title_matches ≡ 0)
classify_sound_example = classify_sound sre sre_not_hybrid

abbrev automatic : GateConfig
automatic = record default_config { auto_generation_enabled = true }

fit_scored :
    (evaluate_generation_eligibility (record fit_job { score_total = 610 }) automatic).0 ≡ true
unfolding evaluate_generation_eligibility by_source is_canonical
fit_scored = refl

fit_disabled :
    (evaluate_generation_eligibility (record fit_job { score_total = 610 }) default_config).0
    ≡ false
unfolding evaluate_generation_eligibility by_source is_canonical
fit_disabled = refl

eligible_iff_example :
    ((evaluate_generation_eligibility fit_job automatic).0 ≡ true)
    ↔ (IsPresentable fit_job automatic × Qualifies fit_job automatic)
eligible_iff_example = eligible_iff fit_job automatic

abbrev scored_again : JobAnalysis → JobAnalysis
scored_again a = record a { total_score = 900 }

scored_again_keeps : (a : JobAnalysis) → (scored_again a).job_id ≡ a.job_id
scored_again_keeps a = refl

abbrev two_backends : Registry Backend
two_backends = (lit "legacy_connector", legacy_connector) ∷ (lit "scrapling", scrapling) ∷ []

abbrev three_backends : Registry Backend
three_backends = two_backends ++ (lit "bb_browser", bb_browser) ∷ []

third_registered : register (lit "bb_browser") bb_browser two_backends ≡ some three_backends
unfolding register
third_registered = refl

backends_built : is_some build_default_backend_registry ≡ true
unfolding build_default_backend_registry
backends_built = refl

sources_built : is_some build_default_source_registry ≡ true
unfolding build_default_source_registry
sources_built = refl

abbrev yc_policy : SourcePolicy
yc_policy = record {
  source_name = lit "yc";
  source_kind = SourceKind.browser_auth;
  source_role_default = discovery;
  requires_auth = true;
  backend_preference = bb_browser;
  feature_flag_key = some "YC_ENABLED";
}

yc_found : get_source_policy (lit "yc") ≡ some yc_policy
unfolding get_source_policy
yc_found = refl

get_source_policy-Fits_example :
    (yc_policy.source_name ≡ lit "yc") × FitsKind yc_policy.source_kind yc_policy
get_source_policy-Fits_example = get_source_policy-Fits (lit "yc") yc_policy yc_found
