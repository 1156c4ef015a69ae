-- ===== src/Scrape/Task.antt =====
-- The task `scrape_jobspy` (apps/worker/tasks/scrape.py).
use jobbot.Prelude.{
  ℕ, suc, Bool, true, false, List, [], ◌∷◌, Option, none, some, is_nil, if◌then◌else◌,
}
use jobbot.Text.{Text, lit}
use jobbot.Model.{Job, JobSourceRecord}
use jobbot.Ingest.{RunStatus, ScrapeRun, find_hash, value_or_empty}
use jobbot.Ingest.Run.{update_run, fail_run}
use jobbot.Ingest.Greenhouse.{skip_run}
use jobbot.Scrape.{
  NormalizedJob, Company, ScrapeLoop, scraped_hash, with_company, duplicate_scraped, insert_scraped,
  backfill, scraped_job, scraped_item,
}

-- ScrapeResult: the counters of `stats` may be missing.
pub record ScrapeResult : Type 0 where
  pub jobs : List NormalizedJob
  pub fetched : Option ℕ
  pub errors : Option ℕ
  pub error : Option Text

-- What `scraper.scrape` does.
pub data Scraped : Type 0 where
  crashed : (e : Text) → Scraped
  scraped : ScrapeResult → Scraped

pub record ScrapeTables : Type 0 where
  pub jobs : List Job
  pub sources : List JobSourceRecord
  pub companies : List Company

-- How the task ends: the status that it returns, or the exception that it raises again.
pub data ScrapeEnding : Type 0 where
  skipped_scrape succeeded : ScrapeEnding
  failed_scrape reraised : (e : Text) → ScrapeEnding

pub record ScrapeOutcome : Type 0 where
  pub tables : ScrapeTables
  pub run : Option ScrapeRun
  pub chained : Bool
  pub ending : ScrapeEnding

abbrev or_count : ℕ → Option ℕ → ℕ
or_count d none = d
or_count d (some n) = n

abbrev pub start_scrape : ScrapeTables → ScrapeLoop
start_scrape tables = record {
  jobs = tables.jobs;
  sources = tables.sources;
  companies = tables.companies;
  inserted = 0;
  duplicates = 0;
  run_items = [];
}

unfoldable pub finish_scrape : ScrapeResult → ScrapeLoop → ℕ → ScrapeRun → ScrapeRun
finish_scrape result st now run = record run {
  status = RunStatus.success;
  finished_at = some now;
  stats_json = some (record {
    fetched = or_count 0 result.fetched;
    inserted = st.inserted;
    duplicates = st.duplicates;
    errors = or_count 0 result.errors;
  });
  items_json = st.run_items;
}

unfoldable pub reported_failure : ScrapeResult → Text → ℕ → ScrapeRun → ScrapeRun
reported_failure result error now run = record {
  status = RunStatus.failed;
  finished_at = some now;
  error_text = some error;
  stats_json = some (record {
    fetched = or_count 0 result.fetched;
    inserted = 0;
    duplicates = 0;
    errors = or_count 1 result.errors;
  });
  items_json = [];
}

module _ (sha256 : Text → Text) (uuid company_uuid : ℕ → ℕ) where
  abbrev pub store_scraped : ℕ → NormalizedJob → Option Job → ScrapeLoop → ScrapeLoop
  store_scraped index nj none st = insert_scraped index (scraped_hash sha256 nj) nj (uuid index) st
  store_scraped index nj (some existing) st =
      duplicate_scraped index (scraped_hash sha256 nj) nj existing st

  unfoldable pub scrape_one : ℕ → NormalizedJob → ScrapeLoop → ScrapeLoop
  unfolding scraped_hash find_hash with_company backfill scraped_job scraped_item
  scrape_one index nj st =
      store_scraped index nj (find_hash (scraped_hash sha256 nj) st.jobs)
        (record st { companies = with_company (company_uuid index) nj.company_name st.companies })

  -- for index, nj in enumerate(result.jobs, start=index)
  unfoldable pub scrape_rows : ℕ → List NormalizedJob → ScrapeLoop → ScrapeLoop
  unfolding scrape_one
  scrape_rows index [] st = st
  scrape_rows index (nj ∷ rest) st = scrape_rows (suc index) rest (scrape_one index nj st)

  abbrev pub after_scrape : Scraped → ℕ → Option ScrapeRun → ScrapeTables → ScrapeOutcome
  after_scrape (crashed e) now run tables = record {
    tables = tables;
    run = update_run (fail_run e now) run;
    chained = false;
    ending = reraised e;
  }
  after_scrape (scraped result) now run tables =
      let st = scrape_rows 1 result.jobs (start_scrape tables) in
      let error = value_or_empty result.error in
      if is_nil error
      then record {
        tables = record { jobs = st.jobs; sources = st.sources; companies = st.companies };
        run = update_run (finish_scrape result st now) run;
        chained = true;
        ending = succeeded;
      }
      else record {
        tables = tables;
        run = update_run (reported_failure result error now) run;
        chained = false;
        ending = failed_scrape error;
      }

  unfoldable pub scrape_jobspy :
      (jobspy_enabled : Bool)
      → Scraped
      → (now : ℕ) → Option ScrapeRun
      → ScrapeTables
      → ScrapeOutcome
  unfolding scrape_rows finish_scrape reported_failure fail_run skip_run
  scrape_jobspy true result now run tables = after_scrape result now run tables
  scrape_jobspy false result now run tables = record {
    tables = tables;
    run = update_run (skip_run (lit "JOBSPY_ENABLED=false") now) run;
    chained = false;
    ending = skipped_scrape;
  }
