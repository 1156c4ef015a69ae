-- ===== src/Ingest.antt =====
-- apps/worker/tasks/ingest.py: `_run_canonical_ingest`, which the canonical connectors share, and
-- `ingest_greenhouse`, which has the same loop. The
-- connector's `normalize`, SHA-256, the new ids and the time are arguments. A raw job is a dict whose
-- keys hold texts. One session is one state: the rows are kept only by its commit.
pub mod Run
pub mod Greenhouse
pub mod Tasks
pub mod Attempts
pub mod Url
pub mod Finished
pub mod Counts
pub mod Unique
pub mod Urls
pub mod Rounds
pub mod Rerun
use jobbot.Prelude.{
  ℕ, suc, ◌+◌, Bool, true, false, ◌&&◌, ◌||◌, List, [], ◌∷◌, ◌++◌, Option, none, some, String, any,
  is_nil, is_some, if◌then◌else◌, str_eq,
}
use jobbot.Text.{Text, lit, text_eq}
use jobbot.Status.{PipelineStatus, UserStatus, JobStatus}
use jobbot.Model.{Job, JobSourceRecord, Captured, Provenance, SourceRole, ResolutionStatus}
use jobbot.Dedup.{canonicalize_apply_url, compute_dedup_hash}
use jobbot.RunItems.{RunItem, ItemFields, make_run_item}

-- core/connectors/base.py CanonicalJobPayload, the fields that the task reads.
pub record CanonicalJob : Type 0 where
  pub external_id : Text
  pub title : Text
  pub company : Text
  pub location : Option Text
  pub description : Option Text
  pub apply_url : Option Text
  pub source_url : Option Text
  pub posted_at : Option ℕ
  pub raw_payload : Text
  pub normalized_title : Text
  pub normalized_company : Text
  pub normalized_location : Option Text

-- RawJobWithProvenance: the keys of the raw dict that the task reads, the dict, and its provenance.
pub record RawJob : Type 0 where
  pub id : Option Text
  pub job_url : Option Text
  pub hosted_url : Option Text
  pub absolute_url : Option Text
  pub page_url : Option Text
  pub redirect_url : Option Text
  pub external_id : Option Text
  pub record_source_url : Option Text
  pub record_apply_url : Option Text
  pub title : Option Text
  pub company : Option Text
  pub location : Option Text
  pub payload : Text
  pub fetch_timestamp : Text
  pub source_url : Text
  pub connector_version : Text
  pub captured : Captured

pub data RunStatus : Type 0 where
  running success failed skipped : RunStatus

pub record Stats : Type 0 where
  pub fetched : ℕ
  pub inserted : ℕ
  pub duplicates : ℕ
  pub errors : ℕ

-- The row of scrape_runs.
pub record ScrapeRun : Type 0 where
  pub status : RunStatus
  pub finished_at : Option ℕ
  pub error_text : Option Text
  pub stats_json : Option Stats
  pub items_json : List RunItem

pub record Tables : Type 0 where
  pub jobs : List Job
  pub sources : List JobSourceRecord

-- What the loop over the raw jobs keeps.
pub record Loop : Type 0 where
  pub jobs : List Job
  pub sources : List JobSourceRecord
  pub apply_url_to_job_id : List (Text × ℕ)
  pub inserted : ℕ
  pub duplicates : ℕ
  pub inserted_job_ids : List ℕ
  pub run_items : List RunItem

unfoldable pub lookup : Text → List (Text × ℕ) → Option ℕ
unfolding text_eq
lookup url [] = none
lookup url ((u, id) ∷ rest) =
    let later = lookup url rest in if text_eq u url then some id else later

-- One row of the query for the URLs: the first job of a canonical URL keeps it.
abbrev pub note_url : Job → List (Text × ℕ) → List (Text × ℕ)
note_url j urls =
    let url = canonicalize_apply_url j.apply_url in
    if is_nil url || is_some (lookup url urls) then urls else (url, j.id) ∷ urls

unfoldable pub note_urls : List Job → List (Text × ℕ) → List (Text × ℕ)
unfolding lookup canonicalize_apply_url
note_urls [] urls = urls
note_urls (j ∷ js) urls = note_urls js (note_url j urls)

unfoldable pub find_hash : Text → List Job → Option Job
unfolding text_eq
find_hash hash [] = none
find_hash hash (j ∷ js) =
    let later = find_hash hash js in if text_eq j.dedup_hash hash then some j else later

-- insert(JobSourceRecord) … on_conflict_do_nothing(["source_name", "external_id"])
abbrev same_source : JobSourceRecord → JobSourceRecord → Bool
same_source a b = str_eq a.source_name b.source_name && text_eq a.external_id b.external_id

unfoldable pub add_source : JobSourceRecord → List JobSourceRecord → List JobSourceRecord
unfolding text_eq
add_source record_ rows = if any (same_source record_) rows then rows else rows ++ record_ ∷ []

-- `a or b` on texts that may be None.
abbrev pub text_or : Option Text → Option Text → Option Text
text_or none b = b
text_or (some []) b = b
text_or (some (c ∷ s)) b = some (c ∷ s)

abbrev pub value_or_empty : Option Text → Text
value_or_empty none = []
value_or_empty (some t) = t

abbrev pub url_for_dedup : CanonicalJob → Text
url_for_dedup c = value_or_empty (text_or c.apply_url c.source_url)

abbrev pub canonical_url_of : CanonicalJob → Text
canonical_url_of c = canonicalize_apply_url (some (url_for_dedup c))

-- What the item of a job without a canonical form shows of the raw job.
pub record Shown : Type 0 where
  pub source_job_id : Option Text
  pub company_name : Option Text
  pub location : Option Text
  pub url : Option Text
  pub apply_url : Option Text

-- Who ingests: the source's name; the role, the ATS type, the confidence and the resolution status of
-- its rows; the metadata of its URL, what a record was captured with, and what is shown of a raw job.
pub record Origin : Type 0 where
  pub source_name : String
  pub source_role : Option SourceRole
  pub ats_type : String
  pub confidence : CanonicalJob → Option ℕ
  pub resolution_status : Option ResolutionStatus
  pub provider_metadata : List (String × Text)
  pub captured : RawJob → Option Captured
  pub shown : RawJob → Shown

unfoldable pub hash_of : (Text → Text) → CanonicalJob → Text
unfolding compute_dedup_hash
hash_of sha256 c =
    compute_dedup_hash sha256 c.normalized_company c.normalized_title
      (value_or_empty c.normalized_location) (some (url_for_dedup c))

unfoldable pub new_job : Origin → ℕ → Text → CanonicalJob → Job
new_job origin id hash c = record {
  id = id;
  source = origin.source_name;
  source_role = origin.source_role;
  source_job_id = some c.external_id;
  raw_title = c.title;
  normalized_title = c.normalized_title;
  title = c.title;
  raw_company = c.company;
  normalized_company = c.normalized_company;
  company_name_raw = c.company;
  raw_location = c.location;
  normalized_location = c.normalized_location;
  location = c.location;
  remote_flag = false;
  url = value_or_empty (text_or c.source_url c.apply_url);
  apply_url = c.apply_url;
  description = c.description;
  posted_at = c.posted_at;
  ats_type = origin.ats_type;
  source_payload_json = c.raw_payload;
  dedup_hash = hash;
  source_confidence = origin.confidence c;
  content_quality_score = none;
  canonical_source_name = none;
  canonical_external_id = none;
  canonical_url = none;
  resolution_status = origin.resolution_status;
  resolution_confidence = none;
  stale_flag = false;
  status = JobStatus.fresh;
  pipeline_status = PipelineStatus.ingested;
  user_status = UserStatus.fresh;
  score_total = 0;
  score_breakdown_json = none;
  ats_match_score = 0;
  ats_match_breakdown_json = none;
  generation_eligibility = none;
  generation_reason = none;
  artifact_ready_at = none;
}

abbrev pub provenance_of :
    (provider_metadata : List (String × Text)) (captured : Option Captured) → RawJob → Provenance
provenance_of provider_metadata captured raw = record {
  fetch_timestamp = raw.fetch_timestamp;
  source_url = raw.source_url;
  connector_version = raw.connector_version;
  provider_metadata = provider_metadata;
  captured = captured;
  resolved_from_discovery_job_id = none;
}

unfoldable pub source_record :
    (source_name : String) (provider_metadata : List (String × Text)) (captured : Option Captured)
    → ℕ
    → RawJob
    → CanonicalJob
    → JobSourceRecord
source_record source_name provider_metadata captured job_id raw c = record {
  job_id = job_id;
  source_name = source_name;
  external_id = c.external_id;
  raw_data = c.raw_payload;
  provenance_metadata = some (provenance_of provider_metadata captured raw);
}
