-- ===== src/Tests/Tasks.antt =====
-- The ingest and discovery tasks with connectors that raise or deliver.
use jobbot.Prelude.{
  ℕ, ◌≡◌, refl, true, false, [], none, some, Option, arith, length, ltb, if◌then◌else◌,
}
use jobbot.Text.{Text, lit, text_eq, strip}
use jobbot.Ingest.{CanonicalJob, new_job}
use jobbot.Ingest.Run.{FetchResult, run_canonical_ingest}
use jobbot.Ingest.Tasks.{
  delivered, raised, SourceAdapter, Retry, retry_scheduled, exception_reraised, IsDocumented,
  ProviderFlags, ingest_greenhouse, ingest_lever, run_attempts, untouched, raised_error,
  strip_or_none,
}
use jobbot.Ingest.Attempts.{
  IsRetried, StopsAtLimit, IsOneAttempt, lever_attempt, stuck, lever_attempts-IsOneAttempt,
  lever_attempts-stuck,
}
use jobbot.Ingest.Url.{ingest_url, manual_ingest_pipeline}
use jobbot.Ingest.Finished.{IsFinished, url_raises, ingest_url-IsFinished}
use jobbot.UrlProvider.{UrlParseResult, parse_supported_url}
use jobbot.Discovery.{discovery_origin, shown_by_connector, source_disabled_reason}
use jobbot.Discovery.Boards.{run_source_adapter_persist}
use jobbot.Discovery.Partial.{board_origin, without_error, note_error, partial_batch_kept}
use jobbot.Discovery.Confidence.{found, accepted_content, discovered-has_content_quality}
use jobbot.Tests.Fetched.{
  raw_job, canonical_of, normalize, fetched, no_tables, new_run, digest, uuid,
}

abbrev flags : ProviderFlags
flags = record {
  greenhouse_enabled = false;
  lever_enabled = true;
  ashby_enabled = true;
  url_ingest_enabled = true;
}

abbrev raising : ℕ → Text → Option Text → SourceAdapter
raising n client company = record {
  fetch_raw_jobs = raised (lit "timeout");
  normalize = normalize;
  normalize_raises = λ raw. none;
}

abbrev three_retries : ℕ → Retry
three_retries n = if ltb n 3 then retry_scheduled else exception_reraised

three_retries-IsDocumented : IsDocumented 3 three_retries
three_retries-IsDocumented = record {
  below = λ n h. ground (arith, h);
  at_limit = λ n h. ground (arith, h);
}

greenhouse_disabled :
    (ingest_greenhouse digest uuid flags
      (λ board company. raising 0 board none)
      (lit "acme")
      (lit "Acme")
      retry_scheduled
      5
      (some new_run)
      no_tables).ingested.chained
    ≡ []
unfolding ingest_greenhouse
greenhouse_disabled = refl

three_retries-StopsAtLimit : StopsAtLimit 3 three_retries
three_retries-StopsAtLimit = record { stops = λ n h e. ground (arith, h, e) }

-- A fetch that raises in the first attempt and delivers in the second.
abbrev recovering : ℕ → Text → Option Text → SourceAdapter
recovering n client company = record {
  fetch_raw_jobs = if ltb n 1 then raised (lit "timeout") else delivered fetched;
  normalize = normalize;
  normalize_raises = λ raw. none;
}

second_delivers :
    length
      (run_attempts
        (lever_attempt digest uuid flags recovering (lit "acme") [] three_retries (λ n. n))
        4
        0
        (some new_run)
        no_tables).ingested.tables.jobs
    ≡ 1
unfolding run_attempts ingest_lever
second_delivers = refl

lever_attempts-IsOneAttempt_example :
    IsOneAttempt 0 3
      (lever_attempt digest uuid flags recovering (lit "acme") [] three_retries (λ n. n))
      (λ n.
        IsRetried
          (recovering n (strip (lit "acme")) (strip_or_none [])).fetch_raw_jobs
          (three_retries n))
      (some new_run)
      no_tables
      (run_attempts
        (lever_attempt digest uuid flags recovering (lit "acme") [] three_retries (λ n. n))
        4
        0
        (some new_run)
        no_tables)
lever_attempts-IsOneAttempt_example =
    lever_attempts-IsOneAttempt digest uuid flags recovering (lit "acme") [] three_retries (λ n. n)
      3 (some new_run) no_tables three_retries-StopsAtLimit

lever_attempts-stuck_example :
    run_attempts
      (lever_attempt digest uuid flags raising (lit "acme") [] three_retries (λ n. n))
      4
      0
      (some new_run)
      no_tables
    ≡ stuck (lit "timeout") (some new_run) no_tables
lever_attempts-stuck_example =
    lever_attempts-stuck digest uuid flags raising (lit "acme") [] three_retries (λ n. n) 3
      (λ n. lit "timeout") (some new_run) no_tables three_retries-IsDocumented refl
      (λ n client company. refl)

abbrev delivering : UrlParseResult → SourceAdapter
delivering p = record {
  fetch_raw_jobs = delivered fetched;
  normalize = normalize;
  normalize_raises = λ raw. none;
}

abbrev posting_url : Text
posting_url = lit "https://jobs.lever.co/acme/2"

url_inserts_one :
    length
      (ingest_url digest uuid posting_url
        (lit "{}")
        5
        flags
        delivering
        (some new_run)
        no_tables).ingested.tables.jobs
    ≡ 1
unfolding ingest_url
url_inserts_one = refl

ingest_url-IsFinished_example :
    IsFinished 5 new_run no_tables
      (url_raises delivering (parse_supported_url posting_url))
      (ingest_url digest uuid posting_url (lit "{}") 5 flags delivering (some new_run) no_tables)
ingest_url-IsFinished_example =
    ingest_url-IsFinished digest uuid 5 new_run no_tables posting_url (lit "{}") flags delivering

abbrev failing : UrlParseResult → SourceAdapter
failing p = record {
  fetch_raw_jobs = delivered fetched;
  normalize = normalize;
  normalize_raises = λ raw. some (lit "KeyError");
}

left_running :
    ingest_url digest uuid posting_url (lit "{}") 5 flags failing (some new_run) no_tables
    ≡ record {
      ingested = untouched (some new_run) no_tables;
      ending = raised_error (lit "KeyError");
    }
unfolding ingest_url
left_running = refl

no_pipeline : manual_ingest_pipeline [] ≡ none
unfolding manual_ingest_pipeline
no_pipeline = refl

-- Two records and an error.
abbrev partial : FetchResult
partial = record fetched { errors = 1; error = some (lit "page 2 timed out") }

partial_batch_kept_example :
    run_source_adapter_persist digest normalize uuid "trueup" partial 5 (some new_run) no_tables
    ≡ note_error (some (lit "page 2 timed out")) (
        run_canonical_ingest digest normalize
          (board_origin "trueup")
          uuid
          (without_error partial)
          5
          (some new_run)
          no_tables)
partial_batch_kept_example =
    partial_batch_kept digest normalize uuid "trueup" partial 5 (some new_run) no_tables refl

flag_off :
    source_disabled_reason
      (λ name. if text_eq name (lit "trueup_enabled") then some false else none)
      (lit "trueup")
    ≡ some (lit "TRUEUP_ENABLED=false")
unfolding source_disabled_reason text_eq
flag_off = refl

abbrev linked : CanonicalJob
linked = canonical_of (raw_job (lit "1") (lit "sre")) (lit "sre") (lit "https://acme.com/1")

agg1_not_serp : text_eq (lit "agg1") (lit "serp1") ≡ false
unfolding text_eq
agg1_not_serp = refl

discovered-has_content_quality_example :
    accepted_content
      (new_job (discovery_origin "agg1" (λ raw. none) shown_by_connector) 3 (lit "h") linked)
    ≡ true
unfolding new_job
discovered-has_content_quality_example =
    discovered-has_content_quality
      (new_job (discovery_origin "agg1" (λ raw. none) shown_by_connector) 3 (lit "h") linked)
      (found "agg1" (λ raw. none) shown_by_connector 3 (lit "h") linked agg1_not_serp) refl
