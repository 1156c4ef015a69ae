-- ===== src/Tests/Data.antt =====
-- The jobs, resumes and settings of the tests.
use jobbot.Prelude.{true, false, [], ◌∷◌, none, some}
use jobbot.Text.{lit}
use jobbot.Status.{PipelineStatus, UserStatus, JobStatus}
use jobbot.Keywords.{words}
use jobbot.Model.{Job, canonical}
use jobbot.ResumeMatching.{CatalogRow}
use jobbot.Pipeline.Sweep.{Db}
use jobbot.Pipeline.Score.{Settings}
use jobbot.Pipeline.Chain.{Worker}

abbrev pub fit_job : Job
fit_job = record {
  id = 7;
  source = "greenhouse";
  source_role = some canonical;
  source_job_id = some (lit "123");
  raw_title = lit "Full Stack";
  normalized_title = lit "full stack";
  title = lit "Full Stack";
  raw_company = lit "Acme";
  normalized_company = lit "acme";
  company_name_raw = lit "Acme";
  raw_location = some (lit "Remote");
  normalized_location = some (lit "remote");
  location = some (lit "Remote");
  remote_flag = true;
  url = lit "https://boards.greenhouse.io/acme/jobs/123";
  apply_url = some (lit "https://boards.greenhouse.io/acme/jobs/123");
  description = some (lit "Go");
  posted_at = none;
  ats_type = "greenhouse";
  source_payload_json = lit "{}";
  dedup_hash = lit "a";
  source_confidence = none;
  content_quality_score = none;
  canonical_source_name = none;
  canonical_external_id = none;
  canonical_url = none;
  resolution_status = none;
  resolution_confidence = none;
  stale_flag = false;
  status = JobStatus.fresh;
  pipeline_status = PipelineStatus.ingested;
  user_status = UserStatus.fresh;
  score_total = 0;
  score_breakdown_json = none;
  ats_match_score = 0;
  ats_match_breakdown_json = none;
  generation_eligibility = none;
  generation_reason = none;
  artifact_ready_at = none;
}

-- A job that was scored before and that no chain has taken further.
abbrev pub waiting_job : Job
waiting_job = record fit_job {
  id = 8;
  dedup_hash = lit "b";
  pipeline_status = PipelineStatus.scored;
  status = JobStatus.scored;
}

-- A job that does not reach a threshold of 70 points.
abbrev pub unfit_job : Job
unfit_job = record fit_job {
  id = 9;
  dedup_hash = lit "c";
  title = lit "Chef";
  normalized_title = lit "chef";
  description = some (lit "Us");
}

abbrev pub go_resume : CatalogRow
go_resume = record {
  id = some (lit "be");
  label = some (lit "Backend");
  path = none;
  persona = some (lit "backend");
  years_experience = some 4;
  skills = words ("Go" ∷ []);
}

-- A row without a label.
abbrev pub unlabelled : CatalogRow
unlabelled = record go_resume { label = none }

abbrev pub settings : Settings
settings = record { scoring_threshold = 700; master_skills = words ("Go" ∷ []) }

abbrev pub worker : Worker
worker = record { settings = settings; catalog = unlabelled ∷ go_resume ∷ [] }

abbrev pub three_jobs : Db
three_jobs = record { jobs = unfit_job ∷ fit_job ∷ waiting_job ∷ []; analyses = [] }
