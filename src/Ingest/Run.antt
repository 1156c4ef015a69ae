-- ===== src/Ingest/Run.antt =====
-- The loop of `_run_canonical_ingest` and the function around it.
use jobbot.Prelude.{ℕ, suc, List, [], String, ◌∷◌, ◌++◌, Option, none, some, is_nil, if◌then◌else◌}
use jobbot.Text.{Text, lit}
use jobbot.Model.{Job, SourceRole, canonical}
use jobbot.RunItems.{ItemFields, make_run_item}
use jobbot.Ingest.{
  CanonicalJob, RawJob, RunStatus, ScrapeRun, Tables, Loop, lookup, note_urls, find_hash,
  add_source, text_or, value_or_empty, canonical_url_of, Origin, hash_of, new_job, source_record,
}

-- FetchResult
pub record FetchResult : Type 0 where
  pub raw_jobs : List RawJob
  pub fetched : ℕ
  pub errors : ℕ
  pub error : Option Text

-- str(id or jobUrl) or None
abbrev raw_id : RawJob → Option Text
raw_id raw = text_or (elim raw.id [ none ↦ raw.job_url | some i ↦ some i ]) none

abbrev raw_url : RawJob → Option Text
raw_url raw = text_or raw.job_url (text_or raw.hosted_url raw.absolute_url)

abbrev or_canonical : Option SourceRole → SourceRole
or_canonical none = canonical
or_canonical (some role) = role

-- The arguments of `_run_canonical_ingest`.
unfoldable pub canonical_origin :
    String → (source_role_override : Option SourceRole) → List (String × Text) → Origin
canonical_origin source_name source_role_override provider_metadata = record {
  source_name = source_name;
  source_role = some (or_canonical source_role_override);
  ats_type = source_name;
  confidence = λ c. none;
  resolution_status = none;
  provider_metadata = provider_metadata;
  captured = λ raw. none;
  shown = λ raw. record {
    source_job_id = raw_id raw;
    company_name = raw.company;
    location = raw.location;
    url = raw_url raw;
    apply_url = raw_url raw;
  };
}

unfoldable pub skipped_item : Origin → ℕ → RawJob → ItemFields
skipped_item origin index raw =
    let shown = origin.shown raw in
    record {
      index = index;
      outcome = lit "skipped";
      job_id = none;
      dedup_hash = none;
      source = lit origin.source_name;
      source_job_id = shown.source_job_id;
      title = raw.title;
      company_name = shown.company_name;
      location = shown.location;
      url = shown.url;
      apply_url = shown.apply_url;
      ats_type = some (lit origin.source_name);
      raw_payload_json = raw.payload;
      dedup_reason = none;
      reason = some (lit "normalize_failed");
      source_confidence = none;
      backfilled_payload = none;
      backfilled_apply_url = none;
    }

unfoldable pub kept_item :
    Origin
    → ℕ
    → (outcome : Text) → ℕ
    → (hash : Text) → CanonicalJob
    → Text
    → (confidence : Option ℕ) → ItemFields
kept_item origin index outcome job_id hash c dedup_reason confidence = record {
  index = index;
  outcome = outcome;
  job_id = some job_id;
  dedup_hash = some hash;
  source = lit origin.source_name;
  source_job_id = some c.external_id;
  title = some c.title;
  company_name = some c.company;
  location = c.location;
  url = text_or c.source_url c.apply_url;
  apply_url = c.apply_url;
  ats_type = some (lit origin.source_name);
  raw_payload_json = c.raw_payload;
  dedup_reason = some dedup_reason;
  reason = none;
  source_confidence = confidence;
  backfilled_payload = none;
  backfilled_apply_url = none;
}

unfoldable pub skip_row : Origin → ℕ → RawJob → Loop → Loop
unfolding make_run_item skipped_item
skip_row origin index raw st = record st {
  run_items = st.run_items ++ make_run_item (skipped_item origin index raw) ∷ [];
}

unfoldable pub duplicate_row :
    Origin → ℕ → RawJob → (hash : Text) → CanonicalJob → Text → ℕ → Loop → Loop
unfolding make_run_item kept_item add_source source_record
duplicate_row origin index raw hash c dedup_reason job_id st = record st {
  sources =
      add_source
        (source_record origin.source_name origin.provider_metadata (origin.captured raw) job_id raw
          c)
        st.sources;
  duplicates = suc st.duplicates;
  run_items =
      st.run_items
      ++ make_run_item (kept_item origin index (lit "duplicate") job_id hash c dedup_reason none)
        ∷ [];
}

-- The URL map learns the URL of an inserted job.
abbrev pub learn_url : CanonicalJob → ℕ → List (Text × ℕ) → List (Text × ℕ)
learn_url c id urls = if is_nil (canonical_url_of c) then urls else (canonical_url_of c, id) ∷ urls

unfoldable pub insert_row :
    Origin → ℕ → RawJob → (hash : Text) → CanonicalJob → (id : ℕ) → Loop → Loop
unfolding make_run_item kept_item add_source source_record new_job
insert_row origin index raw hash c id st = record {
  jobs = st.jobs ++ new_job origin id hash c ∷ [];
  sources =
      add_source
        (source_record origin.source_name origin.provider_metadata (origin.captured raw) id raw c)
        st.sources;
  apply_url_to_job_id = learn_url c id st.apply_url_to_job_id;
  inserted = suc st.inserted;
  duplicates = st.duplicates;
  inserted_job_ids = st.inserted_job_ids ++ id ∷ [];
  run_items =
      st.run_items
      ++ make_run_item
          (kept_item origin index (lit "inserted") id hash c (lit "inserted") (origin.confidence c))
        ∷ [];
}

abbrev pub known_url : CanonicalJob → List (Text × ℕ) → Option ℕ
known_url c urls = if is_nil (canonical_url_of c) then none else lookup (canonical_url_of c) urls

module _ (sha256 : Text → Text) (normalize : RawJob → Option CanonicalJob) (origin : Origin)
    (uuid : ℕ → ℕ) where
  -- A canonical job: a known URL first, then the unique hash, else a new row.
  abbrev pub settle : Option ℕ → Option Job → ℕ → RawJob → CanonicalJob → Loop → Loop
  settle (some id) found index raw c st =
      duplicate_row origin index raw (hash_of sha256 c) c (lit "exact_url") id st
  settle none (some j) index raw c st =
      duplicate_row origin index raw (hash_of sha256 c) c (lit "dedup_hash") j.id st
  settle none none index raw c st = insert_row origin index raw (hash_of sha256 c) c (uuid index) st

  unfoldable pub ingest_canonical : ℕ → RawJob → CanonicalJob → Loop → Loop
  unfolding lookup find_hash hash_of duplicate_row insert_row
  ingest_canonical index raw c st =
      settle (known_url c st.apply_url_to_job_id) (find_hash (hash_of sha256 c) st.jobs) index raw c
        st

  abbrev pub visit : Option CanonicalJob → ℕ → RawJob → Loop → Loop
  visit none index raw st = skip_row origin index raw st
  visit (some c) index raw st = ingest_canonical index raw c st

  unfoldable pub ingest_one : ℕ → RawJob → Loop → Loop
  unfolding ingest_canonical skip_row
  ingest_one index raw st = visit (normalize raw) index raw st

  -- for index, raw_with_prov in enumerate(result.raw_jobs, start=index)
  unfoldable pub ingest_rows : ℕ → List RawJob → Loop → Loop
  unfolding ingest_one
  ingest_rows index [] st = st
  ingest_rows index (raw ∷ rest) st = ingest_rows (suc index) rest (ingest_one index raw st)

-- The loop's state when the session has read the URLs of all jobs.
unfoldable pub start : Tables → Loop
unfolding note_urls
start tables = record {
  jobs = tables.jobs;
  sources = tables.sources;
  apply_url_to_job_id = note_urls tables.jobs [];
  inserted = 0;
  duplicates = 0;
  inserted_job_ids = [];
  run_items = [];
}

abbrev pub update_run : (ScrapeRun → ScrapeRun) → Option ScrapeRun → Option ScrapeRun
update_run f none = none
update_run f (some run) = some (f run)

-- The statistics that the task returns: unlike those of the row, they have no errors.
pub record ReturnedStats : Type 0 where
  pub fetched : ℕ
  pub inserted : ℕ
  pub duplicates : ℕ

-- What the task leaves and returns. `chained` holds the ids that it starts the chain with, if any.
pub record Ingested : Type 0 where
  pub tables : Tables
  pub run : Option ScrapeRun
  pub chained : List ℕ
  pub stats : Option ReturnedStats

unfoldable pub fail_run : Text → ℕ → ScrapeRun → ScrapeRun
fail_run error now run = record {
  status = RunStatus.failed;
  finished_at = some now;
  error_text = some error;
  stats_json = some (record { fetched = 0; inserted = 0; duplicates = 0; errors = 1 });
  items_json = [];
}

unfoldable pub finish_run : FetchResult → Loop → ℕ → ScrapeRun → ScrapeRun
finish_run result st now run = record run {
  status = RunStatus.success;
  finished_at = some now;
  stats_json = some (record {
    fetched = result.fetched;
    inserted = st.inserted;
    duplicates = st.duplicates;
    errors = result.errors;
  });
  items_json = st.run_items;
}

module _ (sha256 : Text → Text) (normalize : RawJob → Option CanonicalJob) (origin : Origin)
    (uuid : ℕ → ℕ) where
  unfoldable pub run_canonical_ingest :
      FetchResult → (now : ℕ) → Option ScrapeRun → Tables → Ingested
  unfolding ingest_rows start fail_run finish_run
  run_canonical_ingest result now run tables =
      let st = ingest_rows sha256 normalize origin uuid 1 result.raw_jobs (start tables) in
      if is_nil (value_or_empty result.error)
      then record {
        tables = record { jobs = st.jobs; sources = st.sources };
        run = update_run (finish_run result st now) run;
        chained = st.inserted_job_ids;
        stats = some (record {
          fetched = result.fetched;
          inserted = st.inserted;
          duplicates = st.duplicates;
        });
      }
      else record {
        tables = tables;
        run = update_run (fail_run (value_or_empty result.error) now) run;
        chained = [];
        stats = none;
      }
