-- ===== src/Pipeline/Classify.antt =====
-- apps/worker/tasks/classify.py
use jobbot.Prelude.{ℕ, true, List, [], Option, none, some, length}
use jobbot.Text.{Text}
use jobbot.Status.{PipelineStatus, legacy_status_from_canonical}
use jobbot.Model.{Job, JobAnalysis, ScoresJson, blank_analysis, empty_scores}
use jobbot.Model.Tables.{upsert, find_analysis}
use jobbot.Scoring.{or_text, text_of}
use jobbot.Classification.{ClassificationInput, ClassificationResult, classify}
use jobbot.Pipeline.Sweep.{Db, TaskInput, targeted, Visit, sweep}

pub record ClassifyResult : Type 0 where
  pub classified : ℕ
  pub job_ids : List ℕ

-- analysis.get("found_keywords"), where the row stores NULL as [].
abbrev keywords_of : Option JobAnalysis → Option (List Text)
keywords_of none = none
keywords_of (some a) = elim a.found_keywords [ none ↦ some [] | some ks ↦ some ks ]

abbrev categories_of : Option JobAnalysis → Option (List (Text × List Text))
categories_of none = none
categories_of (some a) = elim a.ats_categories [ none ↦ some [] | some cs ↦ some cs ]

abbrev scores_of : Option JobAnalysis → ScoresJson
scores_of none = empty_scores
scores_of (some a) = elim a.persona_specific_scores [ none ↦ empty_scores | some s ↦ s ]

-- job.score_breakdown_json or analysis.get("persona_specific_scores") or {}
abbrev existing_scores : Job → Option JobAnalysis → ScoresJson
existing_scores job analysis = elim job.score_breakdown_json [
  | some b ↦ record empty_scores { breakdown = some b }
  | none ↦ scores_of analysis
]

abbrev with_persona : ClassificationResult → ScoresJson → JobAnalysis → JobAnalysis
with_persona outcome merged a = record a {
  matched_persona = some outcome.persona;
  persona_confidence = some outcome.confidence;
  persona_rationale = some outcome.rationale;
  persona_specific_scores = some merged;
}

unfoldable pub classification_input : Job → Option JobAnalysis → ClassificationInput
classification_input job analysis = record {
  normalized_title = or_text job.normalized_title job.title;
  description = text_of job.description;
  found_keywords = keywords_of analysis;
  ats_categories = categories_of analysis;
}

-- One round of the loop.
unfoldable pub classify_one : Job → List JobAnalysis → Visit
classify_one job table =
    let analysis = find_analysis job.id table in
    let outcome = classify (classification_input job analysis) in
    let merged = record (existing_scores job analysis) {
      classification_signals = some outcome.matched_signals;
    } in
    record {
      row = record job {
        pipeline_status = PipelineStatus.classified;
        status = legacy_status_from_canonical PipelineStatus.classified job.user_status;
      };
      analyses =
          upsert job.id
            (with_persona outcome merged
              (record (blank_analysis job.id) { total_score = job.score_total }))
            (with_persona outcome merged) table;
      reported = true;
    }

unfoldable pub classify_jobs : TaskInput → Db → Db × ClassifyResult
unfolding sweep
classify_jobs job_ids db =
    let run = sweep (targeted job_ids PipelineStatus.scored) classify_one db.jobs db.analyses in
    (
      record { jobs = run.rows; analyses = run.analyses },
      record { classified = length run.job_ids; job_ids = run.job_ids },
    )
