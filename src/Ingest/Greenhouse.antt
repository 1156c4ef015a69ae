-- ===== src/Ingest/Greenhouse.antt =====
-- apps/worker/tasks/ingest.py: what sets the loop of `ingest_greenhouse` apart from that of
-- `_run_canonical_ingest`, and apps/worker/tasks/run_helpers.py.
use jobbot.Prelude.{ℕ, [], none, some}
use jobbot.Text.{Text}
use jobbot.Ingest.{RunStatus, ScrapeRun, Origin, text_or}

-- `ingest_greenhouse` sets no role.
unfoldable pub greenhouse_origin : (company_name : Text) → Origin
greenhouse_origin company_name = record {
  source_name = "greenhouse";
  source_role = none;
  ats_type = "greenhouse";
  confidence = λ c. none;
  resolution_status = none;
  provider_metadata = [];
  captured = λ raw. none;
  shown = λ raw. record {
    source_job_id = text_or raw.id none;
    company_name = some company_name;
    location = none;
    url = raw.absolute_url;
    apply_url = raw.absolute_url;
  };
}

-- mark_run_skipped
unfoldable pub skip_run : (reason : Text) → ℕ → ScrapeRun → ScrapeRun
skip_run reason now run = record {
  status = RunStatus.skipped;
  finished_at = some now;
  error_text = some reason;
  stats_json = some (record { fetched = 0; inserted = 0; duplicates = 0; errors = 0 });
  items_json = [];
}
