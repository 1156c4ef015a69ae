-- ===== src/Api/Launch.antt =====
-- apps/api/routes/jobs.py: the requests that create a row of scrape_runs and enqueue its task. The id
-- of the run and the settings are arguments. An exception that a handler does not catch is answered
-- with 500. `Literal` fields of a body hold one of their values.
use jobbot.Prelude.{ℕ, Bool, not, [], ◌∷◌, Option, none, some, ◌==◌, if◌then◌else◌}
use jobbot.Text.{Text, lit}
use jobbot.UrlProvider.{UrlParseResult, parse_supported_url}
use jobbot.Discovery.Tasks.{DiscoveryConnector, agg1, serp1, DiscoveryFlags}
use jobbot.Api.{Response, ok, refused}

pub data Connector : Type 0 where
  greenhouse lever ashby : Connector

pub record RunIngestionBody : Type 0 where
  pub connector : Connector
  pub company_name : Text
  pub board_token : Option Text
  pub client_name : Option Text
  pub job_board_name : Option Text

-- What the query of a discovery run may say.
pub record RunDiscoveryBody : Type 0 where
  pub connector : DiscoveryConnector
  pub query : Option Text
  pub location : Option Text
  pub results_per_page : Option ℕ
  pub distance : Option ℕ
  pub max_days_old : Option ℕ
  pub sort_by : Option Text
  pub salary_min : Option ℕ
  pub salary_max : Option ℕ
  pub full_time : Option Bool
  pub part_time : Option Bool
  pub contract : Option Bool
  pub permanent : Option Bool
  pub category : Option Text
  pub max_pages : Option ℕ
  pub max_results : Option ℕ

pub record RunScrapeBody : Type 0 where
  pub query : Option Text
  pub location : Option Text
  pub hours_old : Option ℕ
  pub results_wanted : Option ℕ

pub record SourceAdapterRunBody : Type 0 where
  pub source_name : Text
  pub max_results : Option ℕ

-- `task_fn` with its keyword arguments other than the id of the run.
pub data QueuedTask : Type 0 where
  ingest_greenhouse : (board_token company_name : Text) → QueuedTask
  ingest_lever : (client_name company_name : Text) → QueuedTask
  ingest_ashby : (job_board_name company_name : Text) → QueuedTask
  ingest_url : (url : Text) → QueuedTask
  run_discovery : RunDiscoveryBody → QueuedTask
  scrape_jobspy : RunScrapeBody → QueuedTask
  run_auth_board_source : (source_name : Text) → (max_results : ℕ) → QueuedTask
  run_public_board_source : (source_name : Text) → (max_results : ℕ) → QueuedTask

-- A new run with the status RUNNING, and the message with its id.
pub record Launched : Type 0 where
  pub run_id : ℕ
  pub source : Text
  pub task : QueuedTask

abbrev launch : ℕ → Text → QueuedTask → Response Launched
launch run_id source task = ok record { run_id = run_id; source = source; task = task }

abbrev bad_request : Text → Response Launched
bad_request detail = refused record { status_code = 400; detail = detail }

abbrev forbidden : Text → Response Launched
forbidden detail = refused record { status_code = 403; detail = detail }

-- `if not value: raise`
abbrev with_required :
    (detail : Text) → Option Text → (Text → Response Launched) → Response Launched
with_required detail none f = bad_request detail
with_required detail (some []) f = bad_request detail
with_required detail (some (c ∷ s)) f = f (c ∷ s)

abbrev start_connector : ℕ → Connector → RunIngestionBody → Response Launched
start_connector run_id greenhouse body =
    with_required (lit "board_token required for greenhouse connector.") body.board_token
      (λ token. launch run_id (lit "greenhouse") (ingest_greenhouse token body.company_name))
start_connector run_id lever body =
    with_required (lit "client_name required for lever connector.") body.client_name
      (λ client. launch run_id (lit "lever") (ingest_lever client body.company_name))
start_connector run_id ashby body =
    with_required (lit "job_board_name required for ashby connector.") body.job_board_name
      (λ board. launch run_id (lit "ashby") (ingest_ashby board body.company_name))

unfoldable pub run_ingestion : (run_id : ℕ) → RunIngestionBody → Response Launched
run_ingestion run_id body = start_connector run_id body.connector body

-- `results_per_page or 20`, `sort_by or "date"`
abbrev or_20 : Option ℕ → ℕ
or_20 none = 20
or_20 (some n) = if n == 0 then 20 else n

abbrev or_date : Option Text → Text
or_date none = lit "date"
or_date (some []) = lit "date"
or_date (some (c ∷ s)) = c ∷ s

abbrev discovery_args : RunDiscoveryBody → RunDiscoveryBody
discovery_args body = record body {
  results_per_page = some (or_20 body.results_per_page);
  sort_by = some (or_date body.sort_by);
}

abbrev start_discovery :
    DiscoveryFlags → ℕ → DiscoveryConnector → RunDiscoveryBody → Response Launched
start_discovery flags run_id agg1 body =
    if not flags.enable_agg1_discovery
    then forbidden (lit "AGG-1 discovery is disabled (ENABLE_AGG1_DISCOVERY=false).")
    else launch run_id (lit "agg1") (run_discovery (discovery_args body))
start_discovery flags run_id serp1 body =
    if not flags.enable_serp1_discovery
    then forbidden (lit "SERP1 discovery is disabled (ENABLE_SERP1_DISCOVERY=false).")
    else launch run_id (lit "serp1") (run_discovery (discovery_args body))

unfoldable pub run_discovery_route :
    DiscoveryFlags → (run_id : ℕ) → RunDiscoveryBody → Response Launched
run_discovery_route flags run_id body = start_discovery flags run_id body.connector body

abbrev start_url : ℕ → Text → Option UrlParseResult → Response Launched
start_url run_id url none =
    bad_request (lit "Unsupported job URL. Supported providers: greenhouse, lever, ashby.")
start_url run_id url (some parsed) = launch run_id (lit "url_ingest") (ingest_url url)

unfoldable pub ingest_url_route :
    (url_ingest_enabled : Bool) → (run_id : ℕ) → (url : Text) → Response Launched
unfolding parse_supported_url
ingest_url_route url_ingest_enabled run_id url =
    if not url_ingest_enabled
    then forbidden (lit "URL ingest is disabled (URL_INGEST_ENABLED=false).")
    else start_url run_id url (parse_supported_url url)

abbrev empty_body : RunScrapeBody
empty_body = record { query = none; location = none; hours_old = none; results_wanted = none }

unfoldable pub run_scrape : (run_id : ℕ) → Option RunScrapeBody → Response Launched
run_scrape run_id body =
    launch run_id (lit "jobspy") (scrape_jobspy (elim body [ none ↦ empty_body | some b ↦ b ]))
