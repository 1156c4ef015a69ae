-- ===== src/Tests/Runs.antt =====
-- A page of the items of an old run.
use jobbot.Prelude.{◌≡◌, refl, [], ◌∷◌, none, some, Option}
use jobbot.Text.{Text, lit}
use jobbot.Api.{ok}
use jobbot.Runs.{RawRunItem, StoredRun, normalize_run_item, get_run_items}

abbrev raw : Option Text → RawRunItem
raw outcome = record {
  index = none;
  outcome = outcome;
  job_id = some 7;
  dedup_hash = none;
  source = none;
  source_job_id = none;
  external_id = some (lit " x1 ");
  title = some (lit "Dev");
  company_name = none;
  company = some (lit "Acme");
  location = none;
  url = none;
  source_url = none;
  listing_url = some (lit "https://jobs.lever.co/acme/1");
  apply_url = none;
  ats_type = none;
  raw_payload_json = none;
  raw_payload = none;
  source_payload_json = none;
  dedup_reason = none;
  reason = none;
  source_confidence = none;
  backfilled_payload = none;
  backfilled_apply_url = none;
}

abbrev old_run : StoredRun
old_run = record {
  id = 2;
  source = lit "lever";
  started_at = 1;
  finished_at = some 3;
  status = lit "SUCCESS";
  stats_json = none;
  items_json = raw (some (lit "inserted")) ∷ raw (some (lit "not_found")) ∷ [];
  error_text = none;
  created_at = 1;
}

acme_found :
    get_run_items 2 (some (lit "inserted")) (some (lit "ACME")) 1 50 (old_run ∷ [])
    ≡ ok record {
      items = normalize_run_item (lit "lever") 1 (raw (some (lit "inserted"))) ∷ [];
      total = 1;
      page = 1;
      per_page = 50;
      counts = record { all = 2; inserted = 1; duplicates = 0 };
    }
unfolding get_run_items
acme_found = refl
