-- ===== src/Tests/Launch.antt =====
-- Requests that launch runs.
use jobbot.Prelude.{◌≡◌, refl, none, true}
use jobbot.Text.{lit}
use jobbot.Discovery.{Settings}
use jobbot.Api.{ok, refused}
use jobbot.Api.Launch.{
  SourceAdapterRunBody, Launched, run_auth_board_source, ingest_url, ingest_url_route,
}
use jobbot.Api.Adapters.{run_source_adapter}
use jobbot.Api.Runnable.{IsRunnable, run_source_adapter-IsRunnable}

abbrev all_on : Settings
all_on = λ name. none

abbrev yc_body : SourceAdapterRunBody
yc_body = record { source_name = lit "yc"; max_results = none }

abbrev yc_launched : Launched
yc_launched = record { run_id = 4; source = lit "yc"; task = run_auth_board_source (lit "yc") 25 }

yc_starts : run_source_adapter all_on true 4 yc_body ≡ ok yc_launched
unfolding run_source_adapter
yc_starts = refl

run_source_adapter-IsRunnable_example : IsRunnable all_on true yc_body yc_launched
run_source_adapter-IsRunnable_example =
    run_source_adapter-IsRunnable all_on true 4 yc_body yc_launched yc_starts

-- The factory of a canonical source lacks its connector.
connector_source_fails :
    run_source_adapter all_on true 4 (record { source_name = lit "lever"; max_results = none })
    ≡ refused record { status_code = 500; detail = lit "Internal Server Error" }
unfolding run_source_adapter
connector_source_fails = refl

url_starts :
    ingest_url_route true 5 (lit "https://jobs.lever.co/acme/1")
    ≡ ok record {
      run_id = 5;
      source = lit "url_ingest";
      task = ingest_url (lit "https://jobs.lever.co/acme/1");
    }
unfolding ingest_url_route
url_starts = refl
