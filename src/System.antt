-- ===== src/System.antt =====
-- The tables with everything that writes them: the tasks of apps/worker/tasks in any order, and the
-- requests of apps/api/routes/jobs.py.
pub mod Rows
pub mod Changes
pub mod Additions
pub mod Keeps
pub mod Scraping
pub mod History
use jobbot.Prelude.{ℕ, Bool, true, false, List, [], ◌∷◌, Option, none, some, String}
use jobbot.Text.{Text}
use jobbot.Model.{Job, JobAnalysis, JobSourceRecord}
use jobbot.Ingest.{CanonicalJob, RawJob, ScrapeRun, Origin}
use jobbot.Ingest.Run.{FetchResult, run_canonical_ingest}
use jobbot.Discovery.Boards.{run_source_adapter_persist}
use jobbot.UrlProvider.{UrlParseResult}
use jobbot.Resolution.{Attempt, Connector, resolve_discovery_job}
use jobbot.Pipeline.Chain.{Worker, Message, deliver}
use jobbot.Scrape.{Company}
use jobbot.Scrape.Task.{Scraped, scrape_jobspy}
use jobbot.Api.{Response, ok, refused}
use jobbot.Api.Workflow.{Updated, BulkUpdated, update_job_status, bulk_status}
use jobbot.Api.Manual.{ManualIngestBody, manual_ingest}

pub record System : Type 0 where
  pub jobs : List Job
  pub analyses : List JobAnalysis
  pub sources : List JobSourceRecord
  pub attempts : List Attempt
  pub companies : List Company

pub record Environment : Type 0 where
  pub worker : Worker
  pub sha256 : Text → Text
  pub fromisoformat : Text → Option ℕ

-- One commit: a task message that a worker takes, or a request that the API answers.
pub data Event : Type 0 where
  delivered : Message → Event
  ingested :
      (normalize : RawJob → Option CanonicalJob)
      → Origin
      → (uuid : ℕ → ℕ) → FetchResult
      → (now : ℕ) → Option ScrapeRun
      → Event
  acquired :
      (normalize : RawJob → Option CanonicalJob)
      → (uuid : ℕ → ℕ) → (source_name : String) → FetchResult
      → (now : ℕ) → Option ScrapeRun
      → Event
  resolved : (UrlParseResult → Connector) → (job_id : ℕ) → Event
  status_set : (job_id : ℕ) → (user_status : Text) → Event
  bulk_set : (job_ids : List ℕ) → (status : Text) → Event
  entered : (id now : ℕ) → (payload : Text) → ManualIngestBody → Event
  scraped :
      (uuid company_uuid : ℕ → ℕ)
      → (jobspy_enabled : Bool) → Scraped
      → (now : ℕ) → Option ScrapeRun
      → Event

abbrev pub updated_jobs : Response Updated → List Job → List Job
updated_jobs (ok r) jobs = r.jobs
updated_jobs (refused e) jobs = jobs

abbrev pub bulk_jobs : Response BulkUpdated → List Job → List Job
bulk_jobs (ok r) jobs = r.jobs
bulk_jobs (refused e) jobs = jobs

unfoldable pub step : Environment → Event → System → System
unfolding deliver run_canonical_ingest resolve_discovery_job update_job_status bulk_status
    manual_ingest run_source_adapter_persist scrape_jobspy
step env (delivered m) s =
    let db = deliver env.worker m record { jobs = s.jobs; analyses = s.analyses } in
    record s { jobs = db.jobs; analyses = db.analyses }
step env (ingested normalize origin uuid result now run) s =
    let out =
      run_canonical_ingest env.sha256 normalize origin uuid result now run
        record { jobs = s.jobs; sources = s.sources } in
    record s { jobs = out.tables.jobs; sources = out.tables.sources }
step env (acquired normalize uuid source_name result now run) s =
    let out =
      run_source_adapter_persist env.sha256 normalize uuid source_name result now run
        record { jobs = s.jobs; sources = s.sources } in
    record s { jobs = out.tables.jobs; sources = out.tables.sources }
step env (resolved connectors job_id) s =
    let out =
      resolve_discovery_job connectors job_id
        record { jobs = s.jobs; sources = s.sources; attempts = s.attempts } in
    record s { jobs = out.store.jobs; sources = out.store.sources; attempts = out.store.attempts }
step env (status_set job_id user_status) s = record s {
  jobs = updated_jobs (update_job_status job_id user_status s.jobs) s.jobs;
}
step env (bulk_set job_ids status) s = record s {
  jobs = bulk_jobs (bulk_status job_ids status s.jobs) s.jobs;
}
step env (entered id now payload body) s = record s {
  jobs = (manual_ingest env.sha256 env.fromisoformat id now payload body s.jobs).jobs;
}
step env (scraped uuid company_uuid enabled result now run) s =
    let out =
      scrape_jobspy env.sha256 uuid company_uuid enabled result now run
        record { jobs = s.jobs; sources = s.sources; companies = s.companies } in
    record s {
      jobs = out.tables.jobs;
      sources = out.tables.sources;
      companies = out.tables.companies;
    }

-- Commits in the order in which they are made.
unfoldable pub run_events : Environment → List Event → System → System
run_events env [] s = s
run_events env (e ∷ es) s = run_events env es (step env e s)

-- The requests with which the user decides about a job.
abbrev pub is_decision : Event → Bool
is_decision (status_set job_id user_status) = true
is_decision (bulk_set job_ids status) = true
is_decision _ = false
