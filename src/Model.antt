-- ===== src/Model.antt =====
-- core/db/models.py: the rows that the tasks read and write, with the values of their JSON columns.
-- An id stands for a UUID, a time for a timestamp. A score is in tenths of a point, a confidence in
-- hundredths, a keyword weight in halves.
pub mod Tables
use jobbot.Prelude.{ℕ, Bool, Option, none, some, List, [], String}
use jobbot.Text.{Text}
use jobbot.Status.{PipelineStatus, UserStatus, JobStatus}

pub data SourceRole : Type 0 where
  canonical discovery url_ingest : SourceRole

pub data ResolutionStatus : Type 0 where
  pending resolved_canonical resolved_discovery_only failed : ResolutionStatus

pub data Persona : Type 0 where
  backend platform_infra hybrid : Persona

-- A number that the program keeps as a float and that is a quotient.
pub record Ratio : Type 0 where
  pub num : ℕ
  pub den : ℕ

-- job.score_breakdown_json, less the constant `weights`.
pub record Breakdown : Type 0 where
  pub title_relevance : ℕ
  pub seniority_fit : ℕ
  pub domain_alignment : ℕ
  pub location_remote : ℕ
  pub tech_stack : ℕ

-- ClassificationResult.matched_signals
pub record Signals : Type 0 where
  pub backend_title_matches : ℕ
  pub platform_title_matches : ℕ
  pub hybrid_title_matches : ℕ
  pub backend_desc_score : ℕ
  pub platform_desc_score : ℕ
  pub backend_total : ℕ
  pub platform_total : ℕ

-- The parts of a suggestion's rationale, before they are rendered and joined.
pub data RationalePart : Type 0 where
  matches_persona : Text → RationalePart
  covers_years : (required resume : ℕ) → RationalePart
  no_years_requirement : RationalePart
  matches_skills : List Text → RationalePart
  highest_score : RationalePart

-- job.generation_reason, as the recommendation gate sets it.
pub data GenerationReason : Type 0 where
  no_catalog : GenerationReason
  because : List RationalePart → GenerationReason

-- core/resume_matching.py ResumeSuggestion
pub record Suggestion : Type 0 where
  pub resume_id : Text
  pub label : Text
  pub path : Option Text
  pub score : Ratio
  pub rationale : List RationalePart
  pub years_required : Option ℕ
  pub resume_years : Option ℕ
  pub matched_skills : List Text
  pub missing_skills : List Text
  pub persona_match : Bool

-- core/ats/extraction.py ATSExtractionResult
pub record AtsResult : Type 0 where
  pub found_keywords : List Text
  pub missing_keywords : List Text
  pub ats_categories : List (Text × List Text)
  pub ats_compatibility_score : ℕ
  pub total_jd_keywords : ℕ

-- job_analyses.persona_specific_scores: a dict with these keys, each there or not.
pub record ScoresJson : Type 0 where
  pub breakdown : Option Breakdown
  pub classification_signals : Option Signals
  pub resume_suggestion : Option Suggestion

abbrev pub empty_scores : ScoresJson
empty_scores = record { breakdown = none; classification_signals = none; resume_suggestion = none }

pub record Job : Type 0 where
  pub id : ℕ
  pub source : String
  pub source_role : Option SourceRole
  pub source_job_id : Option Text
  pub raw_title : Text
  pub normalized_title : Text
  pub title : Text
  pub raw_company : Text
  pub normalized_company : Text
  pub company_name_raw : Text
  pub raw_location : Option Text
  pub normalized_location : Option Text
  pub location : Option Text
  pub remote_flag : Bool
  pub url : Text
  pub apply_url : Option Text
  pub description : Option Text
  pub posted_at : Option ℕ
  pub ats_type : String
  pub source_payload_json : Text
  pub dedup_hash : Text
  pub source_confidence : Option ℕ
  pub content_quality_score : Option ℕ
  pub canonical_source_name : Option String
  pub canonical_external_id : Option Text
  pub canonical_url : Option Text
  pub resolution_status : Option ResolutionStatus
  pub resolution_confidence : Option ℕ
  pub stale_flag : Bool
  pub status : JobStatus
  pub pipeline_status : PipelineStatus
  pub user_status : UserStatus
  pub score_total : ℕ
  pub score_breakdown_json : Option Breakdown
  pub ats_match_score : ℕ
  pub ats_match_breakdown_json : Option AtsResult
  pub generation_eligibility : Option String
  pub generation_reason : Option GenerationReason
  pub artifact_ready_at : Option ℕ

pub record JobAnalysis : Type 0 where
  pub job_id : ℕ
  pub total_score : ℕ
  pub seniority_score : Option ℕ
  pub tech_stack_score : Option ℕ
  pub location_score : Option ℕ
  pub persona_specific_scores : Option ScoresJson
  pub matched_persona : Option Persona
  pub persona_confidence : Option ℕ
  pub persona_rationale : Option String
  pub found_keywords : Option (List Text)
  pub missing_keywords : Option (List Text)
  pub ats_categories : Option (List (Text × List Text))
  pub ats_compatibility_score : Option ℕ

-- A row that an insert creates: every column that it does not name is NULL.
abbrev pub blank_analysis : ℕ → JobAnalysis
blank_analysis id = record {
  job_id = id;
  total_score = 0;
  seniority_score = none;
  tech_stack_score = none;
  location_score = none;
  persona_specific_scores = none;
  matched_persona = none;
  persona_confidence = none;
  persona_rationale = none;
  found_keywords = none;
  missing_keywords = none;
  ats_categories = none;
  ats_compatibility_score = none;
}

-- What a source adapter adds to the provenance of a record, as texts.
pub record Captured : Type 0 where
  pub capture_metadata : Text
  pub debug_metadata : Text

-- job_sources.provenance_metadata, of a row that an ingest or resolution task writes.
pub record Provenance : Type 0 where
  pub fetch_timestamp : Text
  pub source_url : Text
  pub connector_version : Text
  pub provider_metadata : List (String × Text)
  pub captured : Option Captured
  pub resolved_from_discovery_job_id : Option ℕ

pub record JobSourceRecord : Type 0 where
  pub job_id : ℕ
  pub source_name : String
  pub external_id : Text
  pub raw_data : Text
  pub provenance_metadata : Option Provenance
