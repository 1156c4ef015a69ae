-- ===== src/Discovery/Tasks.antt =====
-- apps/worker/tasks/discovery.py: one attempt of `run_discovery`, and of `run_public_board_source` and
-- `run_auth_board_source`, which share `_run_source_adapter_task`. The connectors, the adapters and what
-- `self.retry(exc=e)` raises are arguments.
use jobbot.Prelude.{ℕ, Bool, not, ◌++◌, Option, none, some, String, ◌==◌, if◌then◌else◌}
use jobbot.Text.{Text, lit, text_eq}
use jobbot.Ingest.{CanonicalJob, RawJob, ScrapeRun, Tables}
use jobbot.Ingest.Run.{fail_run}
use jobbot.Ingest.Greenhouse.{skip_run}
use jobbot.Ingest.Tasks.{
  Delivery, delivered, raised, SourceAdapter, Retry, retry_scheduled, max_retries_exceeded,
  exception_reraised, returned, retried, raised_error, Attempt, with_run, untouched, after_failure,
  unless_raised, normalize_error, first_raised,
}
use jobbot.Discovery.{Settings, skip_reason, run_discovery_persist}
use jobbot.Discovery.Boards.{finalize_failed_run, run_source_adapter_persist}

-- The two connectors that `run_discovery` knows.
pub data DiscoveryConnector : Type 0 where
  agg1 serp1 : DiscoveryConnector

abbrev pub connector_name : DiscoveryConnector → String
connector_name agg1 = "agg1"
connector_name serp1 = "serp1"

abbrev pub connector_of : Text → Option DiscoveryConnector
connector_of name =
    if text_eq name (lit "agg1")
    then some agg1
    else if text_eq name (lit "serp1")
    then some serp1
    else none

pub record DiscoveryFlags : Type 0 where
  pub enable_agg1_discovery : Bool
  pub enable_serp1_discovery : Bool

unfoldable pub discovery_disabled : DiscoveryFlags → DiscoveryConnector → Option Text
discovery_disabled flags agg1 =
    if not flags.enable_agg1_discovery then some (lit "ENABLE_AGG1_DISCOVERY=false") else none
discovery_disabled flags serp1 =
    if not flags.enable_serp1_discovery then some (lit "ENABLE_SERP1_DISCOVERY=false") else none

-- `max_results or 25`
abbrev pub or_25 : Option ℕ → ℕ
or_25 none = 25
or_25 (some n) = if n == 0 then 25 else n

-- A source adapter: what acquiring at most so many records delivers, and its `normalize`.
pub record BoardAdapter : Type 0 where
  pub acquire : (max_results : ℕ) → Delivery
  pub normalize : RawJob → Option CanonicalJob
  pub normalize_raises : RawJob → Option Text

module _ (sha256 : Text → Text) (uuid : ℕ → ℕ) where
  abbrev pub discover :
      (source_name : String)
      → SourceAdapter
      → Delivery
      → Retry
      → (now : ℕ) → Option ScrapeRun
      → Tables
      → Attempt
  discover source_name conn (raised e) retry now run tables = after_failure retry e now run tables
  discover source_name conn (delivered result) retry now run tables =
      unless_raised (normalize_error conn result)
        (run_discovery_persist sha256 conn.normalize uuid source_name result now run tables) run
        tables

  abbrev pub discover_enabled :
      Option Text
      → (source_name : String) → SourceAdapter
      → Retry
      → (now : ℕ) → Option ScrapeRun
      → Tables
      → Attempt
  discover_enabled (some reason) source_name conn retry now run tables = record {
    ingested = with_run (skip_run reason now) run tables;
    ending = returned;
  }
  discover_enabled none source_name conn retry now run tables =
      discover source_name conn conn.fetch_raw_jobs retry now run tables

  abbrev pub discover_with :
      DiscoveryFlags
      → (create : DiscoveryConnector → SourceAdapter) → (connector : Text)
      → Option DiscoveryConnector
      → Retry
      → (now : ℕ) → Option ScrapeRun
      → Tables
      → Attempt
  discover_with flags create connector none retry now run tables = record {
    ingested =
        with_run (fail_run (lit "Unsupported discovery connector: " ++ connector) now) run tables;
    ending = returned;
  }
  discover_with flags create connector (some c) retry now run tables =
      discover_enabled (discovery_disabled flags c) (connector_name c) (create c) retry now run
        tables

  unfoldable pub run_discovery :
      DiscoveryFlags
      → (create : DiscoveryConnector → SourceAdapter) → (connector : Text) → Retry
      → (now : ℕ) → Option ScrapeRun
      → Tables
      → Attempt
  unfolding run_discovery_persist skip_run fail_run discovery_disabled text_eq
  run_discovery flags create connector retry now run tables =
      discover_with flags create connector (connector_of connector) retry now run tables

  -- `except task_self.MaxRetriesExceededError: return _finalize_failed_run(…)`
  abbrev pub after_board_failure :
      Retry → (e : Text) → (now : ℕ) → Option ScrapeRun → Tables → Attempt
  after_board_failure retry_scheduled e now run tables = record {
    ingested = untouched run tables;
    ending = retried;
  }
  after_board_failure max_retries_exceeded e now run tables = record {
    ingested = finalize_failed_run e now run tables;
    ending = returned;
  }
  after_board_failure exception_reraised e now run tables = record {
    ingested = untouched run tables;
    ending = raised_error e;
  }

  abbrev pub after_acquire :
      (source_name : String)
      → BoardAdapter
      → Delivery
      → Retry
      → (now : ℕ) → Option ScrapeRun
      → Tables
      → Attempt
  after_acquire source_name adapter (raised e) retry now run tables =
      after_board_failure retry e now run tables
  after_acquire source_name adapter (delivered result) retry now run tables =
      unless_raised (first_raised adapter.normalize_raises result.raw_jobs)
        (run_source_adapter_persist sha256 adapter.normalize uuid source_name result now run tables)
        run tables

  -- `source_registry.create`, which may raise.
  abbrev pub with_adapter :
      (unsupported : Text)
      → (source_name : String) → (max_results : Option ℕ) → Option BoardAdapter
      → Retry
      → (now : ℕ) → Option ScrapeRun
      → Tables
      → Attempt
  with_adapter unsupported source_name max_results none retry now run tables = record {
    ingested = finalize_failed_run unsupported now run tables;
    ending = returned;
  }
  with_adapter unsupported source_name max_results (some adapter) retry now run tables =
      after_acquire source_name adapter (adapter.acquire (or_25 max_results)) retry now run tables

  abbrev pub unless_skipped :
      Option Text
      → (unsupported : Text) → (source_name : String) → (max_results : Option ℕ)
      → Option BoardAdapter
      → Retry
      → (now : ℕ) → Option ScrapeRun
      → Tables
      → Attempt
  unless_skipped (some reason) unsupported source_name max_results adapter retry now run tables =
      record { ingested = with_run (skip_run reason now) run tables; ending = returned }
  unless_skipped none unsupported source_name max_results adapter retry now run tables =
      with_adapter unsupported source_name max_results adapter retry now run tables

  -- `family` is "public-board" or "auth-board"; `exc` is the text of the registry's error.
  unfoldable pub run_source_adapter_task :
      Settings
      → (bb_browser_enabled : Bool) → (create : Text → Option BoardAdapter) → (exc family : Text)
      → (source_name : String) → (max_results : Option ℕ) → Retry
      → (now : ℕ) → Option ScrapeRun
      → Tables
      → Attempt
  unfolding run_source_adapter_persist finalize_failed_run skip_run skip_reason
  run_source_adapter_task settings bb_browser_enabled create exc family source_name max_results
        retry now run tables =
      let unsupported =
        lit "Unsupported "
        ++ (family ++ (lit " source: " ++ (lit source_name ++ (lit " (" ++ (exc ++ lit ")"))))) in
      unless_skipped (skip_reason settings bb_browser_enabled (lit source_name)) unsupported
        source_name max_results (create (lit source_name)) retry now run tables
