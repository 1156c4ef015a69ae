-- ===== src/Discovery/Boards.antt =====
-- apps/worker/tasks/discovery.py: `_run_source_adapter_persist` and `_finalize_failed_run`.
use jobbot.Prelude.{ℕ, not, ◌&&◌, Option, some, String, is_nil, if◌then◌else◌}
use jobbot.Text.{Text}
use jobbot.Ingest.{CanonicalJob, RawJob, ScrapeRun, Tables, value_or_empty}
use jobbot.Ingest.Run.{FetchResult, Ingested, ingest_rows, start, fail_run, finish_run, update_run}
use jobbot.Ingest.Tasks.{with_run}
use jobbot.Discovery.{discovery_origin, shown_by_adapter}

unfoldable pub finalize_failed_run :
    (error : Text) → (now : ℕ) → Option ScrapeRun → Tables → Ingested
unfolding fail_run
finalize_failed_run error now run tables = with_run (fail_run error now) run tables

-- A batch is a FetchResult: its records, its statistics and its error.
unfoldable pub run_source_adapter_persist :
    (Text → Text)
    → (RawJob → Option CanonicalJob)
    → (uuid : ℕ → ℕ) → (source_name : String) → FetchResult
    → (now : ℕ) → Option ScrapeRun
    → Tables
    → Ingested
unfolding ingest_rows start finish_run finalize_failed_run discovery_origin
run_source_adapter_persist sha256 normalize uuid source_name result now run tables =
    let origin = discovery_origin source_name (λ raw. some raw.captured) shown_by_adapter in
    let st = ingest_rows sha256 normalize origin uuid 1 result.raw_jobs (start tables) in
    if not (is_nil (value_or_empty result.error)) && is_nil result.raw_jobs
    then finalize_failed_run (value_or_empty result.error) now run tables
    else record {
      tables = record { jobs = st.jobs; sources = st.sources };
      run = update_run (λ r. record (finish_run result st now r) { error_text = result.error }) run;
      chained = st.inserted_job_ids;
      stats =
          some (record {
            fetched = result.fetched;
            inserted = st.inserted;
            duplicates = st.duplicates;
          });
    }
