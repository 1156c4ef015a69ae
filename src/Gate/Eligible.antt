-- ===== src/Gate/Eligible.antt =====
-- What an eligible job fulfils.
use jobbot.Prelude.{◌≤◌, ◌≡◌, ◌⊎◌, ◌↔◌, true, false, none, arith, and-eq-true}
use jobbot.Model.{Job, discovery}
use jobbot.Gate.{
  GateConfig, is_canonical, is_discovery_agg1, is_discovery_serp, has_content_quality, by_source,
  evaluate_generation_eligibility, is_blank, role_is, or_zero,
}

-- The tests that every eligible job has passed.
pub record IsPresentable (job : Job) (config : GateConfig) : Type 0 where
  pub enabled : config.auto_generation_enabled ≡ true
  pub fresh : job.stale_flag ≡ false
  pub apply_url : is_blank job.apply_url ≡ false
  pub description : is_blank job.description ≡ false
  pub not_ready : job.artifact_ready_at ≡ none

abbrev pub HasQuality : Job → GateConfig → Type 0
HasQuality job config =
    has_content_quality job config.discovery_agg1_confidence_min
      config.discovery_agg1_content_quality_min config.discovery_agg1_description_min_len
    ≡ true

-- A job qualifies as canonical, as an allowed SERP result, or as a discovery with enough content.
abbrev pub Qualifies : Job → GateConfig → Type 0
Qualifies job config =
    ((is_canonical job ≡ true) × (config.canonical_score_threshold ≤ job.score_total))
    ⊎ ((is_canonical job ≡ false)
        × (role_is discovery job.source_role ≡ true)
        × (config.discovery_agg1_score_threshold ≤ job.score_total)
        × (((is_discovery_serp job ≡ true) × (config.discovery_serp_eligible ≡ true))
            ⊎ ((is_discovery_serp job ≡ false) × HasQuality job config)))

serp_role : (job : Job) → is_discovery_serp job ≡ true → role_is discovery job.source_role ≡ true
unfolding is_discovery_serp
serp_role job h = (and-eq-true _ _ h).0

agg1_role : (job : Job) → is_discovery_agg1 job ≡ true → role_is discovery job.source_role ≡ true
unfolding is_discovery_agg1
agg1_role job h = (and-eq-true _ _ h).0

by_source_sound :
    (job : Job) (config : GateConfig) → (by_source job config).0 ≡ true → Qualifies job config
unfolding by_source
by_source_sound job config h = ground (arith, serp_role job, agg1_role job)

by_source_complete :
    (job : Job) (config : GateConfig) → Qualifies job config → (by_source job config).0 ≡ true
unfolding by_source
by_source_complete job config h = ground arith

guards_sound :
    (job : Job) (config : GateConfig)
    → (evaluate_generation_eligibility job config).0 ≡ true
    → IsPresentable job config × ((by_source job config).0 ≡ true)
unfolding evaluate_generation_eligibility
guards_sound job config h = ground arith

guards_complete :
    (job : Job) (config : GateConfig)
    → IsPresentable job config
    → evaluate_generation_eligibility job config ≡ by_source job config
unfolding evaluate_generation_eligibility
guards_complete job config p = ground arith

-- A job is eligible exactly when automatic generation is on, the job is not stale, has an apply URL
-- and a description and no artifact yet, and it is canonical with the canonical score, or a
-- discovery with the discovery score that is an explicitly allowed SERP result or has enough
-- content quality.
pub eligible_iff :
    (job : Job) (config : GateConfig)
    → ((evaluate_generation_eligibility job config).0 ≡ true)
      ↔ (IsPresentable job config × Qualifies job config)
eligible_iff job config = (
  λ h. let (p, q) = guards_sound job config h in (p, by_source_sound job config q),
  λ (p, q). rw (guards_complete job config p) (by_source_complete job config q),
)

-- A discovery job without a quality score passes the content test by its confidence alone, however
-- short its description is.
pub unrated_content_passes :
    (job : Job) (config : GateConfig)
    → job.content_quality_score ≡ none
    → config.discovery_agg1_confidence_min ≤ or_zero job.source_confidence
    → HasQuality job config
unfolding has_content_quality
unrated_content_passes job config unrated sure = rw unrated (ground arith)
