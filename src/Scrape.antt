-- ===== src/Scrape.antt =====
-- apps/worker/tasks/scrape.py, with NormalizedJob and `compute_dedup_hash` of core/scraping/base.py.
-- The scraper's result, SHA-256 and new ids are arguments. The salaries and the reference to the
-- company are not fields of the model's rows. A payload that is None or empty is the empty text.
pub mod Task
use jobbot.Prelude.{
  ℕ, suc, ◌+◌, min, Bool, true, false, not, ◌&&◌, List, [], ◌∷◌, ◌++◌, map, any, Option, none, some,
  String, is_nil, ltb, length, if◌then◌else◌, ◌==◌,
}
use jobbot.Text.{Text, lit, text_eq}
use jobbot.Status.{PipelineStatus, UserStatus, JobStatus}
use jobbot.Model.{Job, JobSourceRecord, SourceRole, discovery, ResolutionStatus, pending}
use jobbot.Dedup.{
  normalize_title, normalize_company, normalize_location, compute_dedup_hash_from_raw,
}
use jobbot.RunItems.{RunItem, ItemFields, make_run_item, detect_ats_type}
use jobbot.Ingest.{find_hash, add_source, text_or, value_or_empty}

pub record NormalizedJob : Type 0 where
  pub title : Text
  pub company_name : Text
  pub location : Option Text
  pub url : Text
  pub apply_url : Option Text
  pub description : Option Text
  pub posted_at : Option ℕ
  pub remote_flag : Bool
  pub source : String
  pub source_job_id : Option Text
  pub raw_payload : Text

pub record Company : Type 0 where
  pub id : ℕ
  pub name : Text

-- What the loop over the scraped jobs keeps.
pub record ScrapeLoop : Type 0 where
  pub jobs : List Job
  pub sources : List JobSourceRecord
  pub companies : List Company
  pub inserted : ℕ
  pub duplicates : ℕ
  pub run_items : List RunItem

abbrev pub is_set : Option Text → Bool
is_set t = not (is_nil (value_or_empty t))

-- In hundredths.
unfoldable pub compute_jobspy_source_confidence : (description apply_url location : Option Text) → ℕ
compute_jobspy_source_confidence description apply_url location =
    min
      (50
        + (if ltb 100 (length (value_or_empty description)) then 20 else 0)
        + (if is_set apply_url then 20 else 0)
        + (if is_set location then 10 else 0))
      100

abbrev pub scraped_url : NormalizedJob → Text
scraped_url nj = value_or_empty (text_or nj.apply_url (some nj.url))

unfoldable pub scraped_hash : (Text → Text) → NormalizedJob → Text
unfolding compute_dedup_hash_from_raw
scraped_hash sha256 nj =
    compute_dedup_hash_from_raw sha256 (some nj.company_name) (some nj.title) nj.location
      (some (scraped_url nj))

-- ATSType(…).value
abbrev pub ats_value : Option Text → String
ats_value none = "unknown"
ats_value (some t) =
    if text_eq t (lit "greenhouse")
    then "greenhouse"
    else if text_eq t (lit "lever")
    then "lever"
    else if text_eq t (lit "ashby")
    then "ashby"
    else if text_eq t (lit "workday")
    then "workday"
    else "yc"

abbrev pub normalized_place : Option Text → Option Text
normalized_place location = if is_set location then some (normalize_location location) else none

unfoldable pub scraped_job : (id : ℕ) → (hash : Text) → NormalizedJob → Job
unfolding normalize_title normalize_company normalize_location detect_ats_type text_eq
    compute_jobspy_source_confidence
scraped_job id hash nj = record {
  id = id;
  source = nj.source;
  source_role = some discovery;
  source_job_id = nj.source_job_id;
  raw_title = nj.title;
  normalized_title = normalize_title (some nj.title);
  title = nj.title;
  raw_company = nj.company_name;
  normalized_company = normalize_company (some nj.company_name);
  company_name_raw = nj.company_name;
  raw_location = nj.location;
  normalized_location = normalized_place nj.location;
  location = nj.location;
  remote_flag = nj.remote_flag;
  url = nj.url;
  apply_url = nj.apply_url;
  description = nj.description;
  posted_at = nj.posted_at;
  ats_type = ats_value (detect_ats_type (scraped_url nj));
  source_payload_json = nj.raw_payload;
  dedup_hash = hash;
  source_confidence =
      some (compute_jobspy_source_confidence nj.description nj.apply_url nj.location);
  content_quality_score = none;
  canonical_source_name = none;
  canonical_external_id = none;
  canonical_url = none;
  resolution_status = some pending;
  resolution_confidence = none;
  stale_flag = false;
  status = JobStatus.fresh;
  pipeline_status = PipelineStatus.ingested;
  user_status = UserStatus.fresh;
  score_total = 0;
  score_breakdown_json = none;
  ats_match_score = 0;
  ats_match_breakdown_json = none;
  generation_eligibility = none;
  generation_reason = none;
  artifact_ready_at = none;
}

-- The company of the name is created if there is none.
unfoldable pub with_company : (id : ℕ) → (name : Text) → List Company → List Company
unfolding text_eq
with_company id name companies =
    if any (λ c. text_eq c.name name) companies
    then companies
    else companies ++ record { id = id; name = name } ∷ []

-- The provenance row: its metadata stay NULL.
abbrev pub scraped_source : (job_id : ℕ) → (hash : Text) → NormalizedJob → JobSourceRecord
scraped_source job_id hash nj = record {
  job_id = job_id;
  source_name = nj.source;
  external_id =
      value_or_empty (text_or nj.source_job_id (text_or (some (scraped_url nj)) (some hash)));
  raw_data = nj.raw_payload;
  provenance_metadata = none;
}

unfoldable pub scraped_item :
    (index : ℕ)
    → (outcome : Text) → (job_id : ℕ) → (hash : Text) → NormalizedJob
    → (dedup_reason : Text) → (backfilled_payload backfilled_apply_url : Option Bool) → RunItem
unfolding make_run_item detect_ats_type text_eq
scraped_item index outcome job_id hash nj dedup_reason backfilled_payload backfilled_apply_url =
    make_run_item (record {
      index = index;
      outcome = outcome;
      job_id = some job_id;
      dedup_hash = some hash;
      source = lit nj.source;
      source_job_id = nj.source_job_id;
      title = some nj.title;
      company_name = some nj.company_name;
      location = nj.location;
      url = some nj.url;
      apply_url = nj.apply_url;
      ats_type = some (lit (ats_value (detect_ats_type (scraped_url nj))));
      raw_payload_json = nj.raw_payload;
      dedup_reason = some dedup_reason;
      reason = none;
      source_confidence = none;
      backfilled_payload = backfilled_payload;
      backfilled_apply_url = backfilled_apply_url;
    })

-- A duplicate fills in what the stored job does not have.
abbrev pub backfills_payload : NormalizedJob → Job → Bool
backfills_payload nj existing = is_nil existing.source_payload_json && not (is_nil nj.raw_payload)

abbrev pub backfills_apply_url : NormalizedJob → Job → Bool
backfills_apply_url nj existing = not (is_set existing.apply_url) && is_set nj.apply_url

abbrev pub backfilled : NormalizedJob → (existing : Job) → Job → Job
backfilled nj existing j = record j {
  source_payload_json =
      if backfills_payload nj existing then nj.raw_payload else j.source_payload_json;
  apply_url = if backfills_apply_url nj existing then nj.apply_url else j.apply_url;
}

-- update(Job).where(Job.id == existing.id)
unfoldable pub backfill : NormalizedJob → (existing : Job) → List Job → List Job
backfill nj existing [] = []
backfill nj existing (j ∷ jobs) =
    (if j.id == existing.id then backfilled nj existing j else j) ∷ backfill nj existing jobs

abbrev pub duplicate_scraped :
    (index : ℕ) → (hash : Text) → NormalizedJob → (existing : Job) → ScrapeLoop → ScrapeLoop
duplicate_scraped index hash nj existing st = record st {
  jobs = backfill nj existing st.jobs;
  sources = add_source (scraped_source existing.id hash nj) st.sources;
  duplicates = suc st.duplicates;
  run_items =
      st.run_items
      ++ scraped_item index (lit "duplicate") existing.id hash nj (lit "dedup_hash")
          (some (backfills_payload nj existing)) (some (backfills_apply_url nj existing))
        ∷ [];
}

abbrev pub insert_scraped :
    (index : ℕ) → (hash : Text) → NormalizedJob → (id : ℕ) → ScrapeLoop → ScrapeLoop
insert_scraped index hash nj id st = record st {
  jobs = st.jobs ++ scraped_job id hash nj ∷ [];
  sources = add_source (scraped_source id hash nj) st.sources;
  inserted = suc st.inserted;
  run_items =
      st.run_items ++ scraped_item index (lit "inserted") id hash nj (lit "new") none none ∷ [];
}
