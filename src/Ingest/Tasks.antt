-- ===== src/Ingest/Tasks.antt =====
-- apps/worker/tasks/ingest.py: `ingest_greenhouse`, `ingest_lever` and `ingest_ashby`, as one attempt
-- of the task, and the attempts that Celery makes of it. The connectors, and what `self.retry(exc=e)`
-- raises in an attempt, are arguments.
use jobbot.Prelude.{
  ℕ, zero, suc, Bool, not, List, [], ◌∷◌, Option, none, some, is_nil, if◌then◌else◌, ◌≤◌, ◌<◌, ◌≡◌,
}
use jobbot.Text.{Text, lit, strip}
use jobbot.Ingest.{CanonicalJob, RawJob, ScrapeRun, Tables, Origin, value_or_empty}
use jobbot.Ingest.Run.{
  FetchResult, Ingested, update_run, fail_run, canonical_origin, run_canonical_ingest,
}
use jobbot.Ingest.Greenhouse.{greenhouse_origin, skip_run}
use jobbot.UrlProvider.{Provider, greenhouse, lever, ashby}

-- What a fetch does.
pub data Delivery : Type 0 where
  delivered : FetchResult → Delivery
  raised : Text → Delivery

-- `normalize` gives a canonical job or None where `normalize_raises` gives no exception.
pub record SourceAdapter : Type 0 where
  pub fetch_raw_jobs : Delivery
  pub normalize : RawJob → Option CanonicalJob
  pub normalize_raises : RawJob → Option Text

-- What `self.retry(exc=e)` raises: the signal that schedules the next attempt, the error that says
-- that there is none left, or `e` itself.
pub data Retry : Type 0 where
  retry_scheduled max_retries_exceeded exception_reraised : Retry

-- Celery's documentation of `exc`: once the limit is reached, the given exception is raised in place
-- of MaxRetriesExceededError.
pub record IsDocumented (max_retries : ℕ) (retry : ℕ → Retry) : Type 0 where
  pub below : (n : ℕ) → n < max_retries → retry n ≡ retry_scheduled
  pub at_limit : (n : ℕ) → max_retries ≤ n → retry n ≡ exception_reraised

pub data Ending : Type 0 where
  returned retried : Ending
  raised_error : Text → Ending

pub record Attempt : Type 0 where
  pub ingested : Ingested
  pub ending : Ending

pub record ProviderFlags : Type 0 where
  pub greenhouse_enabled : Bool
  pub lever_enabled : Bool
  pub ashby_enabled : Bool
  pub url_ingest_enabled : Bool

unfoldable pub provider_disabled_reason : ProviderFlags → Provider → Option Text
provider_disabled_reason flags greenhouse =
    if not flags.greenhouse_enabled then some (lit "GREENHOUSE_ENABLED=false") else none
provider_disabled_reason flags lever =
    if not flags.lever_enabled then some (lit "LEVER_ENABLED=false") else none
provider_disabled_reason flags ashby =
    if not flags.ashby_enabled then some (lit "ASHBY_ENABLED=false") else none

-- A task that changes the row of its run and nothing else.
abbrev pub with_run : (ScrapeRun → ScrapeRun) → Option ScrapeRun → Tables → Ingested
with_run f run tables = record {
  tables = tables;
  run = update_run f run;
  chained = [];
  stats = none;
}

abbrev pub untouched : Option ScrapeRun → Tables → Ingested
untouched run tables = record { tables = tables; run = run; chained = []; stats = none }

-- What the loop over the raw jobs raises, if anything.
abbrev pub first_raised : (raises : RawJob → Option Text) → List RawJob → Option Text
first_raised raises [] = none
first_raised raises (raw ∷ rest) = elim (raises raw) [
  | some e ↦ some e
  | none ↦ first_raised raises rest
]

-- A fetch that reports an error is not normalized.
abbrev pub normalize_error : SourceAdapter → FetchResult → Option Text
normalize_error adapter result =
    if is_nil (value_or_empty result.error)
    then first_raised adapter.normalize_raises result.raw_jobs
    else none

-- No task catches what `normalize` raises: the session is rolled back.
abbrev pub unless_raised : Option Text → Ingested → Option ScrapeRun → Tables → Attempt
unless_raised none out run tables = record { ingested = out; ending = returned }
unless_raised (some e) out run tables = record {
  ingested = untouched run tables;
  ending = raised_error e;
}

-- `except Exception as e: try: raise self.retry(exc=e) except self.MaxRetriesExceededError: …; raise`
abbrev pub after_failure : Retry → (e : Text) → (now : ℕ) → Option ScrapeRun → Tables → Attempt
after_failure retry_scheduled e now run tables = record {
  ingested = untouched run tables;
  ending = retried;
}
after_failure max_retries_exceeded e now run tables = record {
  ingested = with_run (fail_run e now) run tables;
  ending = raised_error e;
}
after_failure exception_reraised e now run tables = record {
  ingested = untouched run tables;
  ending = raised_error e;
}

-- `s.strip() or None`
abbrev pub strip_or_none : Text → Option Text
strip_or_none s = if is_nil (strip s) then none else some (strip s)

module _ (sha256 : Text → Text) (uuid : ℕ → ℕ) where
  abbrev pub after_fetch :
      Origin → SourceAdapter → Delivery → Retry → (now : ℕ) → Option ScrapeRun → Tables → Attempt
  after_fetch origin adapter (raised e) retry now run tables = after_failure retry e now run tables
  after_fetch origin adapter (delivered result) retry now run tables =
      unless_raised (normalize_error adapter result)
        (run_canonical_ingest sha256 adapter.normalize origin uuid result now run tables) run tables

  -- From `_skip_run_for_disabled_provider` on.
  abbrev pub unless_disabled :
      Option Text → Origin → SourceAdapter → Retry → (now : ℕ) → Option ScrapeRun → Tables → Attempt
  unless_disabled (some reason) origin adapter retry now run tables = record {
    ingested = with_run (skip_run reason now) run tables;
    ending = returned;
  }
  unless_disabled none origin adapter retry now run tables =
      after_fetch origin adapter adapter.fetch_raw_jobs retry now run tables

  unfoldable pub ingest_greenhouse :
      ProviderFlags
      → (create : (board_token company_name : Text) → SourceAdapter)
      → (board_token company_name : Text) → Retry
      → (now : ℕ) → Option ScrapeRun
      → Tables
      → Attempt
  unfolding run_canonical_ingest skip_run fail_run greenhouse_origin provider_disabled_reason strip
  ingest_greenhouse flags create board_token company_name retry now run tables =
      unless_disabled (provider_disabled_reason flags greenhouse) (greenhouse_origin company_name)
        (create (strip board_token) (strip company_name)) retry now run tables

  unfoldable pub ingest_lever :
      ProviderFlags
      → (create : (client_name : Text) → (company_name : Option Text) → SourceAdapter)
      → (client_name company_name : Text) → Retry
      → (now : ℕ) → Option ScrapeRun
      → Tables
      → Attempt
  unfolding run_canonical_ingest skip_run fail_run canonical_origin provider_disabled_reason strip
  ingest_lever flags create client_name company_name retry now run tables =
      unless_disabled (provider_disabled_reason flags lever) (canonical_origin "lever" none [])
        (create (strip client_name) (strip_or_none company_name)) retry now run tables

  unfoldable pub ingest_ashby :
      ProviderFlags
      → (create : (job_board_name : Text) → (company_name : Option Text) → SourceAdapter)
      → (job_board_name company_name : Text) → Retry
      → (now : ℕ) → Option ScrapeRun
      → Tables
      → Attempt
  unfolding run_canonical_ingest skip_run fail_run canonical_origin provider_disabled_reason strip
  ingest_ashby flags create job_board_name company_name retry now run tables =
      unless_disabled (provider_disabled_reason flags ashby) (canonical_origin "ashby" none [])
        (create (strip job_board_name) (strip_or_none company_name)) retry now run tables

-- Celery runs the next attempt as long as the last one was retried. The fuel counts attempts.
abbrev pub next_attempt : Ending → Attempt → Attempt → Attempt
next_attempt retried last next = next
next_attempt returned last next = last
next_attempt (raised_error e) last next = last

unfoldable pub run_attempts :
    (attempt : (retries : ℕ) → Option ScrapeRun → Tables → Attempt)
    → (fuel retries : ℕ) → Option ScrapeRun
    → Tables
    → Attempt
run_attempts attempt zero retries run tables = record {
  ingested = untouched run tables;
  ending = retried;
}
run_attempts attempt (suc fuel) retries run tables =
    let last = attempt retries run tables in
    let next = run_attempts attempt fuel (suc retries) last.ingested.run last.ingested.tables in
    next_attempt last.ending last next
