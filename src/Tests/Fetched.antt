-- ===== src/Tests/Fetched.antt =====
-- The fetched jobs and the connector of the ingest tests.
use jobbot.Prelude.{ℕ, ◌+◌, [], ◌∷◌, some, none, Option}
use jobbot.Text.{Text, lit}
use jobbot.Ingest.{CanonicalJob, RawJob, ScrapeRun, RunStatus, Tables, Origin, value_or_empty}
use jobbot.Ingest.Run.{canonical_origin, FetchResult}

abbrev pub raw_job : Text → Text → RawJob
raw_job id title = record {
  id = some id;
  job_url = none;
  hosted_url = none;
  absolute_url = some (lit "https://boards.greenhouse.io/acme/jobs/1");
  title = some title;
  company = none;
  location = none;
  payload = lit "{}";
  fetch_timestamp = lit "2026-01-01";
  source_url = lit "https://boards-api.greenhouse.io/acme";
  connector_version = lit "v1";
  page_url = none;
  redirect_url = none;
  external_id = none;
  record_source_url = none;
  record_apply_url = none;
  captured = record { capture_metadata = []; debug_metadata = [] };
}

abbrev pub canonical_of : RawJob → Text → Text → CanonicalJob
canonical_of raw title url = record {
  external_id = value_or_empty raw.id;
  title = title;
  company = lit "Acme";
  location = none;
  description = some (lit "Go");
  apply_url = some url;
  source_url = none;
  posted_at = none;
  raw_payload = raw.payload;
  normalized_title = title;
  normalized_company = lit "acme";
  normalized_location = none;
}

-- A connector that wants a title, and a URL.
abbrev pub with_title : RawJob → Option Text → Option Text → Option CanonicalJob
with_title raw (some title) (some (c ∷ url)) = some (canonical_of raw title (c ∷ url))
with_title raw _ _ = none

abbrev pub normalize : RawJob → Option CanonicalJob
normalize raw = with_title raw raw.title raw.absolute_url

abbrev pub origin : Origin
origin = canonical_origin "lever" none []

abbrev pub fetched : FetchResult
fetched = record {
  raw_jobs =
      raw_job (lit "1") (lit "sre")
      ∷ raw_job (lit "2") (lit "dev")
      ∷ record (raw_job (lit "3") (lit "x")) { title = none }
      ∷ [];
  fetched = 3;
  errors = 0;
  error = none;
}

abbrev pub no_tables : Tables
no_tables = record { jobs = []; sources = [] }

abbrev pub new_run : ScrapeRun
new_run = record {
  status = RunStatus.running;
  finished_at = none;
  error_text = none;
  stats_json = none;
  items_json = [];
}

-- A digest that tells all texts apart, and two sources of ids.
abbrev pub digest : Text → Text
digest t = t

abbrev pub uuid : ℕ → ℕ
uuid n = 100 + n

abbrev pub other_uuid : ℕ → ℕ
other_uuid n = 200 + n
