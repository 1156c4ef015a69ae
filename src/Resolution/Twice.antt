-- ===== src/Resolution/Twice.antt =====
-- A second resolution of one job (apps/worker/tasks/resolution.py).
use jobbot.Prelude.{ℕ, ◌≡◌, refl, inl, inr, true, [], ◌∷◌}
use jobbot.Model.{Job, discovery}
use jobbot.Gate.{role_is}
use jobbot.UrlProvider.{UrlParseResult}
use jobbot.Resolution.{
  Store, Connector, Resolved, idle, already_resolved, is_resolved, resolve_job,
  resolve_discovery_job,
}
use jobbot.Resolution.Attempts.{IsSuccess, Outcome, resolve_discovery_job-Outcome}

resolved_job-idle :
    (connectors : UrlParseResult → Connector) (job : Job) (db : Store)
    → role_is discovery job.source_role ≡ true
    → is_resolved job.resolution_status ≡ true
    → resolve_job connectors job db ≡ idle already_resolved db
unfolding resolve_job
resolved_job-idle connectors job db role marked = rw (role, marked) refl

success-idle :
    (later : UrlParseResult → Connector) (id : ℕ) (db : Store) (out : Resolved)
    → IsSuccess id db out
    → resolve_discovery_job later id out.store ≡ idle already_resolved out.store
unfolding resolve_discovery_job
success-idle later id db out s =
    rw s.found (resolved_job-idle later s.row out.store s.still_discovery (rw s.marked refl))

started-idle :
    (later : UrlParseResult → Connector) (id : ℕ) (db : Store) (out : Resolved)
    → Outcome id db out
    → out.chained ≡ id ∷ []
    → resolve_discovery_job later id out.store ≡ idle already_resolved out.store
started-idle later id db out (inl i) started = cc (i.quiet, started)
started-idle later id db out (inr (inl f)) started = cc (f.quiet, started)
started-idle later id db out (inr (inr s)) started = success-idle later id db out s

-- After a resolution that started the chain for a job, a second one of the same job changes nothing
-- and starts nothing, whatever the connectors deliver by then.
pub resolve_discovery_job-once :
    (connectors later : UrlParseResult → Connector) (id : ℕ) (db : Store)
    → (resolve_discovery_job connectors id db).chained ≡ id ∷ []
    → let first = (resolve_discovery_job connectors id db).store in
      resolve_discovery_job later id first ≡ idle already_resolved first
resolve_discovery_job-once connectors later id db started =
    started-idle later id db (resolve_discovery_job connectors id db)
      (resolve_discovery_job-Outcome connectors id db) started
