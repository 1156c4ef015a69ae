-- ===== src/Resolution.antt =====
-- apps/worker/tasks/resolution.py. The connectors are an argument, with what their fetch delivers. The
-- provider of a parsed URL is one of three that have a connector, so the branch without one is left
-- out. The sessions of one task see the same rows, so a job that the first one found is still there.
pub mod Attempts
pub mod Twice
use mathlib.Core.List.{reverse}
use jobbot.Prelude.{
  ℕ, Bool, true, false, not, ◌&&◌, ◌||◌, List, [], ◌∷◌, ◌++◌, Option, none, some, String, take,
  is_nil, if◌then◌else◌,
}
use jobbot.Text.{Text, lit, strip, text_eq, rstrip_slash, starts_with, contains}
use jobbot.Status.{PipelineStatus, legacy_status_from_canonical}
use jobbot.Model.{
  Job, JobSourceRecord, SourceRole, canonical, discovery, url_ingest, ResolutionStatus,
  resolved_canonical, failed,
}
use jobbot.Model.Tables.{find_job, put_job}
use jobbot.Gate.{role_is}
use jobbot.Ingest.{
  provenance_of, CanonicalJob, RawJob, text_or, value_or_empty, add_source, source_record,
}
use jobbot.UrlProvider.{Provider, greenhouse, lever, ashby, UrlParseResult, parse_supported_url}

-- A row of job_resolution_attempts.
pub record Attempt : Type 0 where
  pub job_id : ℕ
  pub resolution_status : ResolutionStatus
  pub confidence : Option ℕ
  pub failure_reason : Option Text
  pub canonical_url : Option Text
  pub canonical_source_name : Option Provider

pub record Store : Type 0 where
  pub jobs : List Job
  pub sources : List JobSourceRecord
  pub attempts : List Attempt

-- What fetch_raw_jobs does: it returns raw jobs or raises.
pub data Fetch : Type 0 where
  fetched : List RawJob → Fetch
  raised : Text → Fetch

pub record Connector : Type 0 where
  pub fetch_raw_jobs : Fetch
  pub normalize : RawJob → Option CanonicalJob

pub data Reply : Type 0 where
  not_found not_discovery already_resolved : Reply
  no_url unsupported fetch_error job_not_found_at_url normalize_failed : Reply
  resolved : Provider → (external_id : Text) → Reply

-- The store, the reply, and the ids that the chain is started with.
pub record Resolved : Type 0 where
  pub store : Store
  pub reply : Reply
  pub chained : List ℕ

abbrev pub provider_name : Provider → String
provider_name greenhouse = "greenhouse"
provider_name lever = "lever"
provider_name ashby = "ashby"

abbrev labelled : String → Option Text → List (String × Text)
labelled key none = []
labelled key (some []) = []
labelled key (some (c ∷ s)) = (key, c ∷ s) ∷ []

unfoldable pub provider_slug_metadata : UrlParseResult → List (String × Text)
provider_slug_metadata p = elim p.provider [
  | greenhouse ↦ labelled "board_token" p.board_token
  | lever ↦ labelled "client_name" p.client_name
  | ashby ↦ labelled "job_board_name" p.job_board_name
]

abbrev ends_with : Text → Text → Bool
ends_with suffix t = starts_with (reverse suffix) (reverse t)

abbrev same_id : Option Text → Option Text → Bool
same_id (some a) (some b) = text_eq a b
same_id _ _ = false

-- Whether a raw job is the one at the parsed URL.
unfoldable pub matches_url : UrlParseResult → RawJob → Bool
unfolding text_eq starts_with contains rstrip_slash
matches_url p raw =
    let id = value_or_empty p.job_id in
    let hosted = value_or_empty raw.hosted_url in
    let job_url = value_or_empty raw.job_url in
    let slug = value_or_empty (text_or p.job_slug p.job_id) in
    elim p.provider [
      | greenhouse ↦ same_id raw.id p.job_id
      | lever ↦ same_id raw.id p.job_id || ends_with (b'/' ∷ id) (rstrip_slash hosted)
      | ashby ↦ contains id job_url || ends_with (b'/' ∷ slug) (rstrip_slash job_url)
    ]

-- The first match; the loop breaks there.
unfoldable pub filter_matching_job : UrlParseResult → List RawJob → Option RawJob
unfolding matches_url
filter_matching_job p [] = none
filter_matching_job p (raw ∷ rest) =
    let later = filter_matching_job p rest in if matches_url p raw then some raw else later

unfoldable pub reset_for_reprocessing : Job → Job
reset_for_reprocessing job = record job {
  pipeline_status = PipelineStatus.ingested;
  status = legacy_status_from_canonical PipelineStatus.ingested job.user_status;
}

abbrev pub url_to_resolve : Job → Text
url_to_resolve job = strip (value_or_empty (text_or job.apply_url (some job.url)))

-- The canonical fields that replace those of the discovery job.
unfoldable pub enrich : UrlParseResult → CanonicalJob → Job → Job
enrich p c job = record job {
  description = text_or c.description job.description;
  apply_url = text_or c.apply_url job.apply_url;
  url = value_or_empty (text_or c.source_url (text_or c.apply_url (some job.url)));
  raw_title = c.title;
  normalized_title = c.normalized_title;
  raw_company = c.company;
  normalized_company = c.normalized_company;
  company_name_raw = c.company;
  raw_location = c.location;
  normalized_location = c.normalized_location;
  location = c.location;
  posted_at = c.posted_at;
  ats_type = provider_name p.provider;
  source_payload_json = c.raw_payload;
  canonical_source_name = some (provider_name p.provider);
  canonical_external_id = some c.external_id;
  canonical_url = text_or c.source_url c.apply_url;
  resolution_status = some resolved_canonical;
  resolution_confidence = some 100;
  source_confidence = some 100;
}

unfoldable pub failed_attempt : Job → (reason : Text) → Option Text → Option Provider → Attempt
failed_attempt job reason url provider = record {
  job_id = job.id;
  resolution_status = failed;
  confidence = none;
  failure_reason = some reason;
  canonical_url = url;
  canonical_source_name = provider;
}

abbrev pub record_attempt : Attempt → Store → Store
record_attempt a db = record db { attempts = db.attempts ++ a ∷ [] }

abbrev pub fail : Job → Reply → (reason : Text) → Option Text → Option Provider → Store → Resolved
fail job reply reason url provider db = record {
  store = record_attempt (failed_attempt job reason url provider) db;
  reply = reply;
  chained = [];
}

abbrev pub idle : Reply → Store → Resolved
idle reply db = record { store = db; reply = reply; chained = [] }

unfoldable pub store_resolved : UrlParseResult → RawJob → CanonicalJob → Job → Store → Resolved
unfolding enrich reset_for_reprocessing add_source source_record provider_slug_metadata
store_resolved p raw c job db =
    let kept =
      source_record (provider_name p.provider) (provider_slug_metadata p) none job.id raw c in
    record {
      store = record {
        jobs = put_job (reset_for_reprocessing (enrich p c job)) db.jobs;
        sources =
            add_source
              (record kept {
                provenance_metadata =
                    some (record (provenance_of (provider_slug_metadata p) none raw) {
                      resolved_from_discovery_job_id = some job.id;
                    });
              })
              db.sources;
        attempts =
            db.attempts
            ++ record {
              job_id = job.id;
              resolution_status = resolved_canonical;
              confidence = some 100;
              failure_reason = none;
              canonical_url = text_or c.source_url c.apply_url;
              canonical_source_name = some p.provider;
            }
              ∷ [];
      };
      reply = resolved p.provider c.external_id;
      chained = job.id ∷ [];
    }

abbrev pub is_resolved : Option ResolutionStatus → Bool
is_resolved (some resolved_canonical) = true
is_resolved _ = false

-- After the match: normalize and store.
abbrev pub with_normalized :
    UrlParseResult → Text → Job → RawJob → Option CanonicalJob → Store → Resolved
with_normalized p url job raw none db =
    fail job normalize_failed (lit "normalize_failed") (some url) (some p.provider) db
with_normalized p url job raw (some c) db = store_resolved p raw c job db

abbrev pub with_match : UrlParseResult → Connector → Text → Job → Option RawJob → Store → Resolved
with_match p conn url job none db =
    fail job job_not_found_at_url (lit "job_not_found_at_url") (some url) (some p.provider) db
with_match p conn url job (some raw) db = with_normalized p url job raw (conn.normalize raw) db

abbrev pub with_fetch : UrlParseResult → Connector → Text → Job → Fetch → Store → Resolved
with_fetch p conn url job (raised e) db =
    fail job fetch_error (take 500 e) (some url) (some p.provider) db
with_fetch p conn url job (fetched raws) db =
    with_match p conn url job (filter_matching_job p raws) db

abbrev pub with_parsed :
    (UrlParseResult → Connector) → Text → Job → Option UrlParseResult → Store → Resolved
with_parsed connectors url job none db =
    fail job unsupported (lit "unsupported_url") (some url) none db
with_parsed connectors url job (some p) db =
    with_fetch p (connectors p) url job (connectors p).fetch_raw_jobs db

unfoldable pub resolve_job : (UrlParseResult → Connector) → Job → Store → Resolved
unfolding parse_supported_url filter_matching_job store_resolved failed_attempt strip
resolve_job connectors job db =
    if not (role_is discovery job.source_role)
    then idle not_discovery db
    else if is_resolved job.resolution_status
    then idle already_resolved db
    else if is_nil (url_to_resolve job)
    then fail job no_url (lit "no_url") none none db
    else with_parsed connectors (url_to_resolve job) job (parse_supported_url (url_to_resolve job))
        db

abbrev pub resolve_found : (UrlParseResult → Connector) → Option Job → Store → Resolved
resolve_found connectors none db = idle not_found db
resolve_found connectors (some job) db = resolve_job connectors job db

unfoldable pub resolve_discovery_job :
    (UrlParseResult → Connector) → (job_id : ℕ) → Store → Resolved
unfolding find_job resolve_job
resolve_discovery_job connectors job_id db = resolve_found connectors (find_job job_id db.jobs) db
