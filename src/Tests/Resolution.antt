-- ===== src/Tests/Resolution.antt =====
-- A discovery job whose URL is a Lever posting.
use jobbot.Prelude.{◌≡◌, refl, [], ◌∷◌, none, some}
use jobbot.Text.{Text, lit}
use jobbot.Model.{Job, discovery}
use jobbot.Ingest.{CanonicalJob, RawJob}
use jobbot.UrlProvider.{lever, UrlParseResult, parse_supported_url}
use jobbot.Resolution.{
  Store, fetched, raised, Connector, idle, already_resolved, resolve_discovery_job,
}
use jobbot.Resolution.Attempts.{Outcome, resolve_discovery_job-Outcome}
use jobbot.Resolution.Twice.{resolve_discovery_job-once}
use jobbot.Tests.Data.{fit_job}

abbrev lever_url : Text
lever_url = lit "https://jobs.lever.co/acme/x1/apply?a=b"

lever_parsed :
    parse_supported_url lever_url
    ≡ some (record {
      provider = lever;
      board_token = none;
      job_id = some (lit "x1");
      client_name = some (lit "acme");
      job_board_name = none;
      job_slug = none;
    })
unfolding parse_supported_url
lever_parsed = refl

unsupported_url : parse_supported_url (lit "https://acme.com/jobs/1") ≡ none
unfolding parse_supported_url
unsupported_url = refl

abbrev discovered : Job
discovered = record fit_job { source_role = some discovery; apply_url = some lever_url }

abbrev posting : RawJob
posting = record {
  id = some (lit "x1");
  job_url = none;
  hosted_url = some (lit "https://jobs.lever.co/acme/x1");
  absolute_url = none;
  title = some (lit "Dev");
  company = none;
  location = none;
  payload = lit "{}";
  fetch_timestamp = lit "2026-01-01";
  source_url = lit "https://api.lever.co/acme";
  connector_version = lit "v1";
  page_url = none;
  redirect_url = none;
  external_id = none;
  record_source_url = none;
  record_apply_url = none;
  captured = record { capture_metadata = []; debug_metadata = [] };
}

abbrev canonical_posting : CanonicalJob
canonical_posting = record {
  external_id = lit "x1";
  title = lit "Dev";
  company = lit "Acme";
  location = none;
  description = some (lit "Go");
  apply_url = some lever_url;
  source_url = none;
  posted_at = none;
  raw_payload = lit "{}";
  normalized_title = lit "dev";
  normalized_company = lit "acme";
  normalized_location = none;
}

abbrev pub connectors : UrlParseResult → Connector
connectors p = record {
  fetch_raw_jobs = fetched (posting ∷ []);
  normalize = λ raw. some canonical_posting;
}

abbrev broken : UrlParseResult → Connector
broken p = record { fetch_raw_jobs = raised (lit "timeout"); normalize = λ raw. none }

abbrev pub store : Store
store = record { jobs = discovered ∷ []; sources = []; attempts = [] }

resolution_started : (resolve_discovery_job connectors 7 store).chained ≡ 7 ∷ []
unfolding resolve_discovery_job
resolution_started = refl

resolve_discovery_job-Outcome_example : Outcome 7 store (resolve_discovery_job broken 7 store)
resolve_discovery_job-Outcome_example = resolve_discovery_job-Outcome broken 7 store

resolve_discovery_job-once_example :
    let first = (resolve_discovery_job connectors 7 store).store in
    resolve_discovery_job broken 7 first ≡ idle already_resolved first
resolve_discovery_job-once_example =
    resolve_discovery_job-once connectors broken 7 store resolution_started
