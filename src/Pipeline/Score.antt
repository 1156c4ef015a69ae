-- ===== src/Pipeline/Score.antt =====
-- apps/worker/tasks/score.py
use jobbot.Prelude.{ℕ, Bool, true, false, List, some, ltb, if◌then◌else◌}
use jobbot.Text.{Text}
use jobbot.Status.{PipelineStatus, legacy_status_from_canonical}
use jobbot.Model.{Job, JobAnalysis, Breakdown, blank_analysis, empty_scores}
use jobbot.Model.Tables.{upsert}
use jobbot.Scoring.{score_job, load_master_skills}
use jobbot.Pipeline.Sweep.{Db, TaskInput, targeted, Visit, sweep}

-- The settings that the tasks read, with the content of the files that they name. `catalog` is in
-- Recommend.
pub record Settings : Type 0 where
  pub scoring_threshold : ℕ
  pub master_skills : List Text

pub record ScoreResult : Type 0 where
  pub scored : ℕ
  pub rejected : ℕ
  pub job_ids : List ℕ

abbrev pub judged : Settings → ℕ → PipelineStatus
judged st total =
    if ltb total st.scoring_threshold then PipelineStatus.rejected else PipelineStatus.scored

abbrev pub accepted : Settings → ℕ → Bool
accepted st total = if ltb total st.scoring_threshold then false else true

abbrev with_score : ℕ → Breakdown → JobAnalysis → JobAnalysis
with_score total breakdown a = record a {
  total_score = total;
  seniority_score = some breakdown.seniority_fit;
  tech_stack_score = some breakdown.tech_stack;
  location_score = some breakdown.location_remote;
  persona_specific_scores = some (record empty_scores { breakdown = some breakdown });
}

-- One round of the loop.
unfoldable pub score_one : Settings → Job → List JobAnalysis → Visit
score_one st job table =
    let (total, breakdown) = score_job job (load_master_skills st.master_skills) in
    let p = judged st total in
    record {
      row = record job {
        score_total = total;
        score_breakdown_json = some breakdown;
        pipeline_status = p;
        status = legacy_status_from_canonical p job.user_status;
      };
      analyses =
          upsert job.id (with_score total breakdown (blank_analysis job.id))
            (with_score total breakdown) table;
      reported = accepted st total;
    }

unfoldable pub score_jobs : Settings → TaskInput → Db → Db × ScoreResult
unfolding sweep
score_jobs st job_ids db =
    let run = sweep (targeted job_ids PipelineStatus.ingested) (score_one st) db.jobs db.analyses in
    (
      record { jobs = run.rows; analyses = run.analyses },
      record { scored = run.visited; rejected = run.unreported; job_ids = run.job_ids },
    )
