-- ===== src/Ingest/Url.antt =====
-- apps/worker/tasks/ingest.py: `ingest_url`. The provider of a parsed URL is one of three that have a
-- connector, so the branch without one is left out.
use jobbot.Prelude.{ℕ, not, List, [], ◌∷◌, Option, none, some, is_nil, if◌then◌else◌}
use jobbot.Text.{Text, lit}
use jobbot.Model.{url_ingest}
use jobbot.RunItems.{make_run_item}
use jobbot.Ingest.{RawJob, RunStatus, ScrapeRun, Tables, Origin, value_or_empty}
use jobbot.Ingest.Run.{FetchResult, Ingested, fail_run, canonical_origin, run_canonical_ingest}
use jobbot.Ingest.Greenhouse.{skip_run}
use jobbot.Ingest.Tasks.{
  Delivery, delivered, raised, SourceAdapter, ProviderFlags, provider_disabled_reason, with_run,
  Attempt, returned, unless_raised, normalize_error,
}
use jobbot.UrlProvider.{UrlParseResult, parse_supported_url}
use jobbot.Resolution.{provider_name, provider_slug_metadata, filter_matching_job}

-- The run of a URL at which the fetched list has no job.
unfoldable pub missing_run :
    UrlParseResult → (url payload : Text) → FetchResult → ℕ → ScrapeRun → ScrapeRun
unfolding make_run_item
missing_run p url payload result now run = record {
  status = RunStatus.failed;
  finished_at = some now;
  error_text = some (lit "Job not found at URL");
  stats_json = some (record { fetched = result.fetched; inserted = 0; duplicates = 0; errors = 0 });
  items_json =
      make_run_item (record {
        index = 1;
        outcome = lit "skipped";
        job_id = none;
        dedup_hash = none;
        source = lit "url_ingest";
        source_job_id = none;
        title = none;
        company_name = none;
        location = none;
        url = some url;
        apply_url = some url;
        ats_type = some (lit (provider_name p.provider));
        raw_payload_json = payload;
        dedup_reason = none;
        reason = some (lit "job_not_found_at_url");
        source_confidence = none;
        backfilled_payload = none;
        backfilled_apply_url = none;
      })
      ∷ [];
}

-- `filtered`, when the loop over the raw jobs found one.
abbrev pub filtered : RawJob → FetchResult
filtered raw = record { raw_jobs = raw ∷ []; fetched = 1; errors = 0; error = none }

unfoldable pub url_origin : UrlParseResult → Origin
unfolding canonical_origin provider_slug_metadata
url_origin p =
    canonical_origin (provider_name p.provider) (some url_ingest) (provider_slug_metadata p)

abbrev pub ended : Ingested → Attempt
ended out = record { ingested = out; ending = returned }

module _ (sha256 : Text → Text) (uuid : ℕ → ℕ) (url payload : Text) (now : ℕ) where
  abbrev pub ingested_by :
      SourceAdapter → UrlParseResult → FetchResult → Option ScrapeRun → Tables → Attempt
  ingested_by adapter p result run tables =
      unless_raised (normalize_error adapter result)
        (run_canonical_ingest sha256 adapter.normalize (url_origin p) uuid result now run tables)
        run tables

  abbrev pub with_match :
      UrlParseResult
      → SourceAdapter
      → FetchResult
      → Option RawJob
      → Option ScrapeRun
      → Tables
      → Attempt
  with_match p adapter result none run tables =
      ended (with_run (missing_run p url payload result now) run tables)
  with_match p adapter result (some raw) run tables =
      ingested_by adapter p (filtered raw) run tables

  abbrev pub with_delivery :
      UrlParseResult → SourceAdapter → Delivery → Option ScrapeRun → Tables → Attempt
  with_delivery p adapter (raised e) run tables = ended (with_run (fail_run e now) run tables)
  with_delivery p adapter (delivered result) run tables =
      if is_nil (value_or_empty result.error)
      then with_match p adapter result (filter_matching_job p result.raw_jobs) run tables
      else ingested_by adapter p result run tables

  abbrev pub with_provider :
      Option Text → UrlParseResult → SourceAdapter → Option ScrapeRun → Tables → Attempt
  with_provider (some reason) p adapter run tables =
      ended (with_run (skip_run reason now) run tables)
  with_provider none p adapter run tables =
      with_delivery p adapter adapter.fetch_raw_jobs run tables

  abbrev pub with_parsed :
      ProviderFlags
      → (create : UrlParseResult → SourceAdapter) → Option UrlParseResult
      → Option ScrapeRun
      → Tables
      → Attempt
  with_parsed flags create none run tables =
      ended (with_run (fail_run (lit "Unsupported job URL") now) run tables)
  with_parsed flags create (some p) run tables =
      with_provider (provider_disabled_reason flags p.provider) p (create p) run tables

  unfoldable pub ingest_url :
      ProviderFlags
      → (create : UrlParseResult → SourceAdapter) → Option ScrapeRun
      → Tables
      → Attempt
  unfolding run_canonical_ingest skip_run fail_run missing_run url_origin filter_matching_job
      parse_supported_url provider_disabled_reason
  ingest_url flags create run tables =
      if not flags.url_ingest_enabled
      then ended (with_run (skip_run (lit "URL_INGEST_ENABLED=false") now) run tables)
      else with_parsed flags create (parse_supported_url url) run tables

-- The ids that the chain is started with; none for an empty list.
unfoldable pub manual_ingest_pipeline : (job_ids : List ℕ) → Option (List ℕ)
manual_ingest_pipeline job_ids = if is_nil job_ids then none else some job_ids
