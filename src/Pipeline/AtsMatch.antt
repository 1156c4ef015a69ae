-- ===== src/Pipeline/AtsMatch.antt =====
-- apps/worker/tasks/ats_match.py
use jobbot.Prelude.{ℕ, true, false, List, some, if◌then◌else◌, length, is_nil}
use jobbot.Status.{PipelineStatus, legacy_status_from_canonical}
use jobbot.Model.{Job, JobAnalysis, AtsResult, blank_analysis}
use jobbot.Model.Tables.{upsert}
use jobbot.Scoring.{text_of}
use jobbot.Ats.{extract_ats_signals, load_user_skills}
use jobbot.Pipeline.Sweep.{Db, TaskInput, targeted, Visit, sweep}
use jobbot.Pipeline.Score.{Settings}

pub record AtsMatchResult : Type 0 where
  pub matched : ℕ
  pub job_ids : List ℕ

abbrev with_ats : AtsResult → JobAnalysis → JobAnalysis
with_ats r a = record a {
  ats_compatibility_score = some r.ats_compatibility_score;
  found_keywords = some r.found_keywords;
  missing_keywords = some r.missing_keywords;
  ats_categories = some r.ats_categories;
}

-- One round of the loop: a job without a description is passed over.
unfoldable pub match_one : Settings → Job → List JobAnalysis → Visit
match_one st job table =
    let r = extract_ats_signals (text_of job.description) (load_user_skills st.master_skills) in
    if is_nil (text_of job.description)
    then record { row = job; analyses = table; reported = false }
    else record {
      row = record job {
        ats_match_score = r.ats_compatibility_score;
        ats_match_breakdown_json = some r;
        pipeline_status = PipelineStatus.ats_analyzed;
        status = legacy_status_from_canonical PipelineStatus.ats_analyzed job.user_status;
      };
      analyses =
          upsert job.id
            (with_ats r (record (blank_analysis job.id) { total_score = job.score_total }))
            (with_ats r) table;
      reported = true;
    }

unfoldable pub ats_match_resume : Settings → TaskInput → Db → Db × AtsMatchResult
unfolding sweep
ats_match_resume st job_ids db =
    let run =
      sweep (targeted job_ids PipelineStatus.classified) (match_one st) db.jobs db.analyses in
    (
      record { jobs = run.rows; analyses = run.analyses },
      record { matched = length run.job_ids; job_ids = run.job_ids },
    )
