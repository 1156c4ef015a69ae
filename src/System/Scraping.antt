-- ===== src/System/Scraping.antt =====
-- What a scrape does to the rows (apps/worker/tasks/scrape.py).
use jobbot.Prelude.{
  ℕ, suc, ◌≡◌, refl, inl, inr, Bool, true, false, List, [], ◌∷◌, Option, none, some, Bool-cases,
  is_nil, ◌==◌,
}
use jobbot.Text.{Text}
use jobbot.Status.{legacy_status_from_canonical}
use jobbot.Model.{Job}
use jobbot.Ingest.{ScrapeRun, find_hash, value_or_empty}
use jobbot.Ingest.Unique.{HashesUnique-snoc}
use jobbot.Pipeline.Sweep.{All₂}
use jobbot.Pipeline.Invariant.{IsMirrored}
use jobbot.Scrape.{
  NormalizedJob, ScrapeLoop, scraped_hash, scraped_job, backfilled, backfill, with_company,
}
use jobbot.Scrape.Task.{
  Scraped, crashed, ScrapeTables, store_scraped, scrape_one, scrape_rows, start_scrape,
  after_scrape, scrape_jobspy,
}
use jobbot.System.Changes.{Change, Change-refl}
use jobbot.System.Additions.{Adds-refl, Adds-snoc}
use jobbot.System.Keeps.{Keeps, Keeps-Change, Keeps-Adds, Keeps-refl, Keeps-trans}

backfilled-Change :
    (nj : NormalizedJob) (existing j : Job) → Change false j (backfilled nj existing j)
backfilled-Change nj existing j = record {
  id = refl;
  hash = refl;
  decided = inr refl;
  mirrored = λ h. h;
}

backfill-Change :
    (nj : NormalizedJob) (existing : Job) (jobs : List Job)
    → All₂ (Change false) jobs (backfill nj existing jobs)
unfolding backfill
backfill-Change nj existing [] = tt
backfill-Change nj existing (j ∷ jobs) = elim (Bool-cases (j.id == existing.id)) [
  | inl e ↦ rw e (backfilled-Change nj existing j, backfill-Change nj existing jobs)
  | inr e ↦ rw e (Change-refl false j, backfill-Change nj existing jobs)
]

scraped_job-IsMirrored :
    (id : ℕ) (hash : Text) (nj : NormalizedJob) → IsMirrored (scraped_job id hash nj)
unfolding scraped_job legacy_status_from_canonical
scraped_job-IsMirrored id hash nj = refl

module _ (sha256 : Text → Text) (uuid company_uuid : ℕ → ℕ) where
  store_scraped-Keeps :
      (index : ℕ) (nj : NormalizedJob) (found : Option Job) (st : ScrapeLoop)
      → find_hash (scraped_hash sha256 nj) st.jobs ≡ found
      → Keeps false st.jobs (store_scraped sha256 uuid company_uuid index nj found st).jobs
  unfolding scraped_job
  store_scraped-Keeps index nj none st e =
      let new = scraped_job (uuid index) (scraped_hash sha256 nj) nj in
      Keeps-Adds st.jobs _
        (Adds-snoc st.jobs st.jobs new
          (scraped_job-IsMirrored (uuid index) (scraped_hash sha256 nj) nj) (Adds-refl st.jobs))
        (λ u. HashesUnique-snoc st.jobs new u e)
  store_scraped-Keeps index nj (some existing) st e =
      Keeps-Change false st.jobs _ (backfill-Change nj existing st.jobs)

  scrape_one-Keeps :
      (index : ℕ) (nj : NormalizedJob) (st : ScrapeLoop)
      → Keeps false st.jobs (scrape_one sha256 uuid company_uuid index nj st).jobs
  unfolding scrape_one
  scrape_one-Keeps index nj st =
      store_scraped-Keeps index nj _
        (record st { companies = with_company (company_uuid index) nj.company_name st.companies })
        refl

  scrape_rows-Keeps :
      (index : ℕ) (njs : List NormalizedJob) (st : ScrapeLoop)
      → Keeps false st.jobs (scrape_rows sha256 uuid company_uuid index njs st).jobs
  unfolding scrape_rows
  scrape_rows-Keeps index [] st = Keeps-refl false st.jobs
  scrape_rows-Keeps index (nj ∷ rest) st =
      let next = scrape_one sha256 uuid company_uuid index nj st in
      Keeps-trans false st.jobs next.jobs _ (scrape_one-Keeps index nj st)
        (scrape_rows-Keeps (suc index) rest next)

  after_scrape-Keeps :
      (result : Scraped) (now : ℕ) (run : Option ScrapeRun) (tables : ScrapeTables)
      → Keeps false tables.jobs
          (after_scrape sha256 uuid company_uuid result now run tables).tables.jobs
  after_scrape-Keeps (crashed e) now run tables = Keeps-refl false tables.jobs
  after_scrape-Keeps (Scraped.scraped result) now run tables =
      elim (Bool-cases (is_nil (value_or_empty result.error))) [
        | inl e ↦ rw e (scrape_rows-Keeps 1 result.jobs (start_scrape tables))
        | inr e ↦ rw e (Keeps-refl false tables.jobs)
      ]

  pub scrape_jobspy-Keeps :
      (enabled : Bool) (result : Scraped) (now : ℕ) (run : Option ScrapeRun) (tables : ScrapeTables)
      → Keeps false tables.jobs
          (scrape_jobspy sha256 uuid company_uuid enabled result now run tables).tables.jobs
  unfolding scrape_jobspy
  scrape_jobspy-Keeps true result now run tables = after_scrape-Keeps result now run tables
  scrape_jobspy-Keeps false result now run tables = Keeps-refl false tables.jobs
