-- ===== src/System/History.antt =====
-- Any history of commits, from any state of the tables.
use jobbot.Prelude.{◌≡◌, refl, ◌⊎◌, inl, inr, Bool, true, false, ◌||◌, arith, any, List, [], ◌∷◌}
use jobbot.Model.{Job}
use jobbot.Ingest.{Tables}
use jobbot.Ingest.Unique.{run_canonical_ingest-HashesUnique}
use jobbot.System.{
  System, Environment, Event, delivered, ingested, acquired, resolved, status_set, bulk_set,
  entered, scraped, step, run_events, is_decision,
}
use jobbot.System.Rows.{Grows, Grows-map, Grows-refl, Grows-trans}
use jobbot.System.Keeps.{IsConsistent, Keeps, Keeps-Change, Keeps-Adds}
use jobbot.System.Scraping.{scrape_jobspy-Keeps}
use jobbot.System.Changes.{
  Change, Change-refl, Change-trans, deliver-Change, resolve_discovery_job-Change,
  update_job_status-Change, bulk_status-Change,
}
use jobbot.System.Additions.{
  run_source_adapter_persist-Adds, run_source_adapter_persist-HashesUnique,
  run_canonical_ingest-Adds, manual_ingest-Adds, manual_ingest-HashesUnique,
}

step-Keeps :
    (env : Environment) (e : Event) (s : System) → Keeps (is_decision e) s.jobs (step env e s).jobs
unfolding step
step-Keeps env (delivered m) s =
    Keeps-Change false s.jobs _
      (deliver-Change env.worker m record { jobs = s.jobs; analyses = s.analyses })
step-Keeps env (ingested normalize origin uuid result now run) s =
    let tables : Tables = record { jobs = s.jobs; sources = s.sources } in
    Keeps-Adds s.jobs _
      (run_canonical_ingest-Adds env.sha256 normalize origin uuid result now run tables)
      (run_canonical_ingest-HashesUnique env.sha256 normalize origin uuid result now run tables)
step-Keeps env (acquired normalize uuid source_name result now run) s =
    let tables : Tables = record { jobs = s.jobs; sources = s.sources } in
    Keeps-Adds s.jobs _
      (run_source_adapter_persist-Adds env.sha256 normalize uuid source_name result now run tables)
      (run_source_adapter_persist-HashesUnique env.sha256 normalize uuid source_name result now run
        tables)
step-Keeps env (resolved connectors job_id) s = Keeps-Change false s.jobs _ (
    resolve_discovery_job-Change connectors job_id
      record { jobs = s.jobs; sources = s.sources; attempts = s.attempts })
step-Keeps env (status_set job_id user_status) s =
    Keeps-Change true s.jobs _ (update_job_status-Change job_id user_status s.jobs)
step-Keeps env (bulk_set job_ids status) s =
    Keeps-Change true s.jobs _ (bulk_status-Change job_ids status s.jobs)
step-Keeps env (entered id now payload body) s =
    Keeps-Adds s.jobs _ (manual_ingest-Adds env.sha256 env.fromisoformat id now payload body s.jobs)
      (manual_ingest-HashesUnique env.sha256 env.fromisoformat id now payload body s.jobs)
step-Keeps env (scraped uuid company_uuid enabled result now run) s =
    scrape_jobspy-Keeps env.sha256 uuid company_uuid enabled result now run
      record { jobs = s.jobs; sources = s.sources; companies = s.companies }

-- Through any sequence of commits by the worker tasks, the scrape, ingest, discovery and resolution
-- tasks and the requests of the user, the legacy status mirrors the two canonical ones in every row
-- and no two rows share a dedup hash, if both hold before.
pub run_events-IsConsistent :
    (env : Environment) (es : List Event) (s : System)
    → IsConsistent s.jobs
    → IsConsistent (run_events env es s).jobs
unfolding run_events
run_events-IsConsistent env [] s h = h
run_events-IsConsistent env (e ∷ es) s h =
    run_events-IsConsistent env es (step env e s) ((step-Keeps env e s).consistent h)

-- The row has the id and the hash that it had, and the user's decision too if none was made.
pub record IsSameJob (decides : Bool) (a b : Job) : Type 0 where
  pub id : b.id ≡ a.id
  pub hash : b.dedup_hash ≡ a.dedup_hash
  pub decided : (decides ≡ true) ⊎ (b.user_status ≡ a.user_status)

Change-weaken : (d e : Bool) → (d ≡ true → e ≡ true) → (a b : Job) → Change d a b → Change e a b
Change-weaken d e f a b c = record {
  id = c.id;
  hash = c.hash;
  decided = elim c.decided [ inl t ↦ inl (f t) | inr u ↦ inr u ];
  mirrored = c.mirrored;
}

or_right : (a b : Bool) → b ≡ true → (a || b) ≡ true
or_right a b h = ground arith

history-Grows :
    (env : Environment) (es : List Event) (s : System)
    → Grows (Change (any is_decision es)) s.jobs (run_events env es s).jobs
unfolding run_events
history-Grows env [] s = Grows-refl (Change false) (Change-refl false) s.jobs
history-Grows env (e ∷ es) s =
    let d = any is_decision (e ∷ es) in
    let next = step env e s in
    Grows-trans (Change d) (Change-trans d) s.jobs next.jobs _
      (Grows-map (Change (is_decision e)) (Change d)
        (Change-weaken (is_decision e) d (λ h. rw h refl)) s.jobs next.jobs
        (step-Keeps env e s).grows)
      (Grows-map (Change (any is_decision es)) (Change d)
        (Change-weaken (any is_decision es) d
          (λ h. or_right (is_decision e) (any is_decision es) h))
        next.jobs _ (history-Grows env es next))

-- Through any sequence of commits, every row stays at its place with its id and its dedup hash, new
-- rows only come behind, and where no request set a status, every row keeps what the user decided.
pub run_events-Grows :
    (env : Environment) (es : List Event) (s : System)
    → Grows (IsSameJob (any is_decision es)) s.jobs (run_events env es s).jobs
run_events-Grows env es s =
    Grows-map (Change (any is_decision es)) (IsSameJob (any is_decision es))
      (λ a b c. record { id = c.id; hash = c.hash; decided = c.decided }) s.jobs _
      (history-Grows env es s)
