-- ===== src/Tests/System.antt =====
-- A history of commits on the test jobs.
use jobbot.Prelude.{refl, some, true, ◌+◌, [], ◌∷◌, none, any, List}
use jobbot.Text.{lit, text_eq}
use jobbot.Status.{legacy_status_from_canonical}
use jobbot.Ingest.{find_hash}
use jobbot.Pipeline.Sweep.{ids}
use jobbot.Pipeline.Chain.{Message}
use jobbot.Scrape.{NormalizedJob}
use jobbot.Scrape.Task.{Scraped}
use jobbot.System.{
  System, scraped, Environment, Event, delivered, ingested, resolved, status_set, bulk_set,
  run_events, is_decision,
}
use jobbot.System.Rows.{Grows}
use jobbot.System.Keeps.{IsConsistent}
use jobbot.System.History.{IsSameJob, run_events-IsConsistent, run_events-Grows}
use jobbot.Tests.Data.{worker, three_jobs}
use jobbot.Tests.Fetched.{digest, normalize, origin, fetched, uuid}
use jobbot.Tests.Resolution.{connectors}

abbrev environment : Environment
environment = record { worker = worker; sha256 = digest; fromisoformat = λ t. none }

abbrev tables : System
tables = record {
  jobs = three_jobs.jobs;
  analyses = [];
  sources = [];
  attempts = [];
  companies = [];
}

abbrev scraped_sre : NormalizedJob
scraped_sre = record {
  title = lit "SRE";
  company_name = lit "Acme";
  location = some (lit "Remote");
  url = lit "https://a.io/j/1";
  apply_url = none;
  description = none;
  posted_at = none;
  remote_flag = true;
  source = "jobspy";
  source_job_id = none;
  raw_payload = [];
}

abbrev history : List Event
history =
    ingested normalize origin uuid fetched 5 none
    ∷ delivered (Message.score (ids (7 ∷ 101 ∷ [])))
    ∷ resolved connectors 8
    ∷ bulk_set (7 ∷ 9 ∷ []) (lit "SAVED")
    ∷ scraped (λ i. i + 200) (λ i. i + 300) true
        (Scraped.scraped
          (record { jobs = scraped_sre ∷ []; fetched = some 1; errors = none; error = none }))
        6 none
    ∷ delivered (Message.classify (ids (7 ∷ [])))
    ∷ status_set 9 (lit "APPLIED")
    ∷ []

tables-IsConsistent : IsConsistent tables.jobs
unfolding legacy_status_from_canonical find_hash text_eq
tables-IsConsistent = record {
  mirrored = (refl, (refl, (refl, tt)));
  unique = (refl, (refl, (refl, tt)));
}

run_events-IsConsistent_example : IsConsistent (run_events environment history tables).jobs
run_events-IsConsistent_example =
    run_events-IsConsistent environment history tables tables-IsConsistent

run_events-Grows_example :
    Grows
      (IsSameJob (any is_decision history))
      tables.jobs
      (run_events environment history tables).jobs
run_events-Grows_example = run_events-Grows environment history tables
