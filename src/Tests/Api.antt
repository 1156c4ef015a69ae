-- ===== src/Tests/Api.antt =====
-- Requests on the test jobs.
use mathlib.Core.List.{Perm}
use mathlib.Core.List.Perm
use jobbot.Prelude.{ℕ, ◌≡◌, ◌↔◌, refl, true, false, [], List, map, select, none, Option, arith}
use jobbot.Text.{Text, lit}
use jobbot.Model.{Job}
use jobbot.Resolution.{resolve_discovery_job}
use jobbot.Api.{ok, refused, not_found}
use jobbot.Api.Workflow.{update_job_status, status_not_writable}
use jobbot.Api.Listing.{Rows, JobQuery, matches, job_to_list_item, like, list_jobs}
use jobbot.Api.Paging.{pages, list_jobs-pages}
use jobbot.Api.Resolve.{queued, request_resolution, tries_url, queued_iff}
use jobbot.Api.Manual.{ManualIngestBody, manual_ingest}
use jobbot.Api.Repeat.{IsDuplicateReply, manual_ingest-IsDuplicateReply}
use jobbot.Tests.Data.{three_jobs}
use jobbot.Tests.Fetched.{digest}
use jobbot.Tests.Resolution.{connectors, store}

fresh_not_settable : update_job_status 7 (lit "NEW") three_jobs.jobs ≡ refused status_not_writable
unfolding update_job_status
fresh_not_settable = refl

missing_before_status : update_job_status 1 (lit "NEW") three_jobs.jobs ≡ refused not_found
unfolding update_job_status
missing_before_status = refl

like_any : like false (lit "%a_c%") (lit "xxabcx") ≡ true
unfolding like
like_any = refl

like_escaped : like false (lit "a\\%") (lit "ab") ≡ false
unfolding like
like_escaped = refl

abbrev everything : JobQuery
everything = record {
  user_status = none;
  status = none;
  pipeline_status = none;
  source = none;
  persona = none;
  q = none;
  min_score = none;
  include_rejected = false;
}

abbrev rows : Rows
rows = record { jobs = three_jobs.jobs; analyses = []; artifacts = [] }

abbrev as_stored : List Job → List Job
as_stored jobs = jobs

three_found : (list_jobs as_stored everything 1 2 rows).total ≡ 3
unfolding list_jobs
three_found = refl

list_jobs-pages_example :
    Perm
      (pages (λ page. list_jobs as_stored everything page 2 rows) 2)
      (map (job_to_list_item rows) (select (matches everything rows) rows.jobs))
list_jobs-pages_example =
    list_jobs-pages as_stored everything 2 2 rows (λ js. Perm.rfl) (omega (arith, three_found))

queued_iff_example :
    (request_resolution 7 store.jobs ≡ ok (queued 7))
    ↔ (tries_url (resolve_discovery_job connectors 7 store).reply ≡ true)
queued_iff_example = queued_iff connectors 7 store

abbrev entry : ManualIngestBody
entry = record {
  title = lit "Dev";
  company = lit "Acme";
  location = lit "NYC";
  apply_url = lit "https://acme.com/1";
  description = lit "Go";
  source_url = none;
  posted_at = none;
}

abbrev no_date : Text → Option ℕ
no_date t = none

manual_ingest-IsDuplicateReply_example :
    let first = manual_ingest digest no_date 20 5 (lit "{}") entry three_jobs.jobs in
    IsDuplicateReply first.jobs (manual_ingest digest no_date 21 6 (lit "{}") entry first.jobs)
manual_ingest-IsDuplicateReply_example =
    manual_ingest-IsDuplicateReply digest no_date entry 20 5 21 6 (lit "{}") (lit "{}")
      three_jobs.jobs
