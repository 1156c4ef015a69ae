-- ===== src/Api/Resolve.antt =====
-- apps/api/routes/jobs.py: `resolve_job`, which checks a discovery job before it enqueues its
-- resolution (apps/worker/tasks/resolution.py).
use jobbot.Prelude.{
  ℕ, ◌≡◌, ◌↔◌, inl, inr, Bool, true, false, not, refl, List, Option, none, some, if◌then◌else◌,
  is_nil, Bool-cases,
}
use jobbot.Text.{lit, strip}
use jobbot.Model.{Job, discovery}
use jobbot.Model.Tables.{find_job}
use jobbot.Gate.{role_is}
use jobbot.Ingest.{CanonicalJob, RawJob}
use jobbot.UrlProvider.{UrlParseResult, parse_supported_url}
use jobbot.Resolution.{
  Store, Fetch, fetched, raised, Connector, Reply, is_resolved, url_to_resolve, with_normalized,
  with_match, with_fetch, with_parsed, filter_matching_job, store_resolved, resolve_job,
  resolve_found, resolve_discovery_job,
}
use jobbot.Resolution.Attempts.{find_job-id}
use jobbot.Api.{HttpException, Response, ok, refused, not_found}

-- The status of the reply; a queued resolution is a message to the worker for this job.
pub data ResolveReply : Type 0 where
  queued : (job_id : ℕ) → ResolveReply
  resolved_before : ResolveReply

unfoldable pub not_a_discovery : HttpException
not_a_discovery = record {
  status_code = 400;
  detail = lit "Job is not a discovery record. Resolution applies only to source_role=discovery.";
}

unfoldable pub nothing_to_resolve : HttpException
nothing_to_resolve = record {
  status_code = 400;
  detail = lit "Job has no apply_url or url to resolve.";
}

abbrev pub resolve_existing : Option Job → Response ResolveReply
resolve_existing none = refused not_found
resolve_existing (some job) =
    if not (role_is discovery job.source_role)
    then refused not_a_discovery
    else if is_resolved job.resolution_status
    then ok resolved_before
    else if is_nil (url_to_resolve job)
    then refused nothing_to_resolve
    else ok (queued job.id)

unfoldable pub request_resolution : (job_id : ℕ) → List Job → Response ResolveReply
unfolding find_job strip not_found not_a_discovery nothing_to_resolve
request_resolution job_id jobs = resolve_existing (find_job job_id jobs)

-- The replies of the task that come after its checks of the row.
abbrev pub tries_url : Reply → Bool
tries_url Reply.not_found = false
tries_url Reply.not_discovery = false
tries_url Reply.already_resolved = false
tries_url Reply.no_url = false
tries_url _ = true

module _ (job : Job) (db : Store) where
  with_normalized-tries :
      (p : UrlParseResult) (raw : RawJob) (o : Option CanonicalJob)
      → tries_url (with_normalized p (url_to_resolve job) job raw o db).reply ≡ true
  unfolding store_resolved
  with_normalized-tries p raw none = refl
  with_normalized-tries p raw (some c) = refl

  with_match-tries :
      (p : UrlParseResult) (conn : Connector) (o : Option RawJob)
      → tries_url (with_match p conn (url_to_resolve job) job o db).reply ≡ true
  with_match-tries p conn none = refl
  with_match-tries p conn (some raw) = with_normalized-tries p raw (conn.normalize raw)

  with_fetch-tries :
      (p : UrlParseResult) (conn : Connector) (f : Fetch)
      → tries_url (with_fetch p conn (url_to_resolve job) job f db).reply ≡ true
  with_fetch-tries p conn (raised e) = refl
  with_fetch-tries p conn (fetched raws) = with_match-tries p conn (filter_matching_job p raws)

  with_parsed-tries :
      (connectors : UrlParseResult → Connector) (o : Option UrlParseResult)
      → tries_url (with_parsed connectors (url_to_resolve job) job o db).reply ≡ true
  with_parsed-tries connectors none = refl
  with_parsed-tries connectors (some p) =
      with_fetch-tries p (connectors p) (connectors p).fetch_raw_jobs

  existing_iff :
      (connectors : UrlParseResult → Connector)
      → (resolve_existing (some job) ≡ ok (queued job.id))
        ↔ (tries_url (resolve_job connectors job db).reply ≡ true)
  unfolding resolve_job
  existing_iff connectors = elim (Bool-cases (role_is discovery job.source_role)) [
    | inr e ↦ rw e (λ h. cc h, λ h. cc h)
    | inl e ↦ elim (Bool-cases (is_resolved job.resolution_status)) [
      | inl r ↦ rw (e, r) (λ h. cc h, λ h. cc h)
      | inr r ↦ elim (Bool-cases (is_nil (url_to_resolve job))) [
        | inl u ↦ rw (e, r, u) (λ h. cc h, λ h. cc h)
        | inr u ↦
            rw (e, r, u)
              (
                λ h. with_parsed-tries connectors (parse_supported_url (url_to_resolve job)),
                λ h. refl,
              )
      ]
    ]
  ]

found_iff :
    (connectors : UrlParseResult → Connector) (id : ℕ) (db : Store) (o : Option Job)
    → find_job id db.jobs ≡ o
    → (resolve_existing o ≡ ok (queued id))
      ↔ (tries_url (resolve_found connectors o db).reply ≡ true)
found_iff connectors id db none e = (λ h. cc h, λ h. cc h)
found_iff connectors id db (some job) e =
    rw (← (find_job-id id db.jobs job e)) (existing_iff job db connectors)

-- A resolution is queued exactly for the jobs for which the task gets past its own checks of the
-- row and tries the URL.
pub queued_iff :
    (connectors : UrlParseResult → Connector) (id : ℕ) (db : Store)
    → (request_resolution id db.jobs ≡ ok (queued id))
      ↔ (tries_url (resolve_discovery_job connectors id db).reply ≡ true)
unfolding request_resolution resolve_discovery_job
queued_iff connectors id db = found_iff connectors id db (find_job id db.jobs) refl
