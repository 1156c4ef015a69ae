-- ===== src/Api/Manual.antt =====
-- apps/api/routes/jobs.py: `manual_ingest`. SHA-256, `datetime.fromisoformat`, the new id and the time
-- are arguments. The ScrapeRun is created in the same transaction, so it has its last state here.
use jobbot.Prelude.{ℕ, List, [], ◌∷◌, ◌++◌, Option, none, some, false}
use jobbot.Text.{Text, lit, strip}
use jobbot.Status.{PipelineStatus, UserStatus, JobStatus}
use jobbot.Model.{Job, canonical}
use jobbot.Dedup.{normalize_title, normalize_company, normalize_location, compute_dedup_hash}
use jobbot.RunItems.{make_run_item}
use jobbot.Ingest.{RunStatus, ScrapeRun, find_hash, text_or, value_or_empty}

pub record ManualIngestBody : Type 0 where
  pub title : Text
  pub company : Text
  pub location : Text
  pub apply_url : Text
  pub description : Text
  pub source_url : Option Text
  pub posted_at : Option Text

abbrev pub body_url : ManualIngestBody → Text
body_url body = value_or_empty (text_or body.source_url (some body.apply_url))

unfoldable pub manual_hash : (Text → Text) → ManualIngestBody → Text
unfolding compute_dedup_hash normalize_title normalize_company normalize_location
manual_hash sha256 body =
    compute_dedup_hash sha256 (normalize_company (some body.company))
      (normalize_title (some body.title)) (normalize_location (some body.location))
      (some body.apply_url)

-- `if body.posted_at: try … except: pass`
abbrev pub parsed_date : (Text → Option ℕ) → Option Text → Option ℕ
parsed_date fromisoformat none = none
parsed_date fromisoformat (some []) = none
parsed_date fromisoformat (some (c ∷ s)) = fromisoformat (c ∷ s)

unfoldable pub manual_job :
    (fromisoformat : Text → Option ℕ) → (id : ℕ) → (hash payload : Text) → ManualIngestBody → Job
unfolding strip normalize_title normalize_company normalize_location
manual_job fromisoformat id hash payload body = record {
  id = id;
  source = "manual_intake";
  source_role = some canonical;
  source_job_id = none;
  raw_title = strip body.title;
  normalized_title = normalize_title (some body.title);
  title = strip body.title;
  raw_company = strip body.company;
  normalized_company = normalize_company (some body.company);
  company_name_raw = strip body.company;
  raw_location = some (strip body.location);
  normalized_location = some (normalize_location (some body.location));
  location = some (strip body.location);
  remote_flag = false;
  url = body_url body;
  apply_url = some (strip body.apply_url);
  description = some (strip body.description);
  posted_at = parsed_date fromisoformat body.posted_at;
  ats_type = "manual";
  source_payload_json = payload;
  dedup_hash = hash;
  source_confidence = some 100;
  content_quality_score = none;
  canonical_source_name = none;
  canonical_external_id = none;
  canonical_url = none;
  resolution_status = none;
  resolution_confidence = none;
  stale_flag = false;
  status = JobStatus.fresh;
  pipeline_status = PipelineStatus.ingested;
  user_status = UserStatus.fresh;
  score_total = 0;
  score_breakdown_json = none;
  ats_match_score = 0;
  ats_match_breakdown_json = none;
  generation_eligibility = none;
  generation_reason = none;
  artifact_ready_at = none;
}

unfoldable pub manual_run :
    (now : ℕ)
    → (inserted duplicates : ℕ) → (outcome : Text) → (job_id : ℕ) → (hash payload : Text)
    → ManualIngestBody
    → ScrapeRun
unfolding make_run_item
manual_run now inserted duplicates outcome job_id hash payload body = record {
  status = RunStatus.success;
  finished_at = some now;
  error_text = none;
  stats_json =
      some (record { fetched = 1; inserted = inserted; duplicates = duplicates; errors = 0 });
  items_json =
      make_run_item (record {
        index = 1;
        outcome = outcome;
        job_id = some job_id;
        dedup_hash = some hash;
        source = lit "manual_intake";
        source_job_id = none;
        title = some body.title;
        company_name = some body.company;
        location = some body.location;
        url = some (body_url body);
        apply_url = some body.apply_url;
        ats_type = some (lit "manual_intake");
        raw_payload_json = payload;
        dedup_reason = none;
        reason = none;
        source_confidence = none;
        backfilled_payload = none;
        backfilled_apply_url = none;
      })
      ∷ [];
}

-- The rows, the run, the reply's job id (none with the status DUPLICATE), and the ids that
-- `manual_ingest_pipeline` is started with.
pub record ManualIngested : Type 0 where
  pub jobs : List Job
  pub run : ScrapeRun
  pub job_id : Option ℕ
  pub chained : List ℕ

module _ (sha256 : Text → Text) (fromisoformat : Text → Option ℕ) where
  -- INSERT … ON CONFLICT (dedup_hash) DO NOTHING, and what follows each outcome.
  abbrev pub manual_insert :
      (id now : ℕ) → (payload : Text) → ManualIngestBody → Option Job → List Job → ManualIngested
  manual_insert id now payload body (some existing) jobs = record {
    jobs = jobs;
    run = manual_run now 0 1 (lit "duplicate") existing.id (manual_hash sha256 body) payload body;
    job_id = none;
    chained = [];
  }
  manual_insert id now payload body none jobs = record {
    jobs = jobs ++ manual_job fromisoformat id (manual_hash sha256 body) payload body ∷ [];
    run = manual_run now 1 0 (lit "inserted") id (manual_hash sha256 body) payload body;
    job_id = some id;
    chained = id ∷ [];
  }

  unfoldable pub manual_ingest :
      (id now : ℕ) → (payload : Text) → ManualIngestBody → List Job → ManualIngested
  unfolding manual_hash find_hash manual_job manual_run
  manual_ingest id now payload body jobs =
      manual_insert id now payload body (find_hash (manual_hash sha256 body) jobs) jobs
