-- ===== src/System/Changes.antt =====
-- What each commit changes in the rows that are there, and what it adds.
use jobbot.Prelude.{
  ℕ, ◌≡◌, refl, ◌∙◌, ap, ◌⊎◌, inl, inr, Bool, true, false, List, [], ◌∷◌, Option, none, some,
}
use jobbot.Text.{Text}
use jobbot.Status.{UserStatus}
use jobbot.Model.{Job}
use jobbot.Model.Tables.{find_job, put_job}
use jobbot.Ingest.{CanonicalJob, RawJob}
use jobbot.Pipeline.Sweep.{Db, All₂}
use jobbot.Pipeline.Chain.{Worker, Message, deliver}
use jobbot.Pipeline.Invariant.{IsMirrored, Source, Visited, Visited-IsMirrored, deliver-Visited}
use jobbot.UrlProvider.{UrlParseResult}
use jobbot.Resolution.{
  Store, Connector, enrich, reset_for_reprocessing, store_resolved, resolve_discovery_job,
}
use jobbot.Resolution.Attempts.{find_job-id, resolve_discovery_job-keeps}
use jobbot.Api.{writable_user_status}
use jobbot.Api.Workflow.{
  BulkUpdated, with_user_status, update_found, update_job_status, bulk_one, bulk_loop,
  bulk_writable, bulk_status,
}
use jobbot.System.{updated_jobs, bulk_jobs}
use jobbot.System.Rows.{All₂-refl, All₂-trans, All₂-map, put_job-All₂}

-- The row keeps its id and its hash, the user's decision unless the commit is one, and a status that
-- mirrors the other two if it did.
pub record Change (decides : Bool) (a b : Job) : Type 0 where
  pub id : b.id ≡ a.id
  pub hash : b.dedup_hash ≡ a.dedup_hash
  pub decided : (decides ≡ true) ⊎ (b.user_status ≡ a.user_status)
  pub mirrored : IsMirrored a → IsMirrored b

pub Change-refl : (d : Bool) (a : Job) → Change d a a
Change-refl d a = record { id = refl; hash = refl; decided = inr refl; mirrored = λ h. h }

decided_trans :
    (d : Bool) (u v w : UserStatus)
    → (d ≡ true) ⊎ (v ≡ u)
    → (d ≡ true) ⊎ (w ≡ v)
    → (d ≡ true) ⊎ (w ≡ u)
decided_trans d u v w (inl e) q = inl e
decided_trans d u v w (inr e) (inl f) = inl f
decided_trans d u v w (inr e) (inr f) = inr (f ∙ e)

pub Change-trans : (d : Bool) (a b c : Job) → Change d a b → Change d b c → Change d a c
Change-trans d a b c p q = record {
  id = q.id ∙ p.id;
  hash = q.hash ∙ p.hash;
  decided = decided_trans d a.user_status b.user_status c.user_status p.decided q.decided;
  mirrored = λ h. q.mirrored (p.mirrored h);
}

-- A task of the chain.
Visited-Change : (a b : Job) → Visited a b → Change false a b
Visited-Change a b v = record {
  id = ap (λ (r : Source). r.id) v.same;
  hash = ap (λ (r : Source). r.dedup_hash) v.same;
  decided = inr (ap (λ (r : Source). r.user_status) v.same);
  mirrored = Visited-IsMirrored v;
}

pub deliver-Change :
    (w : Worker) (m : Message) (db : Db) → All₂ (Change false) db.jobs (deliver w m db).jobs
deliver-Change w m db =
    All₂-map Visited (Change false) Visited-Change db.jobs _ (deliver-Visited w m db)

-- A resolution.
enrich-Change :
    (p : UrlParseResult) (c : CanonicalJob) (job : Job)
    → Change false job (reset_for_reprocessing (enrich p c job))
unfolding enrich reset_for_reprocessing
enrich-Change p c job = record { id = refl; hash = refl; decided = inr refl; mirrored = λ h. refl }

stored-Change :
    (id : ℕ) (db : Store) (job : Job) (p : UrlParseResult) (raw : RawJob) (c : CanonicalJob)
    → find_job id db.jobs ≡ some job
    → All₂ (Change false) db.jobs (store_resolved p raw c job db).store.jobs
unfolding store_resolved
stored-Change id db job p raw c there =
    let change = enrich-Change p c job in
    put_job-All₂ (Change false) (Change-refl false) id job _ db.jobs there
      (change.id ∙ find_job-id id db.jobs job there) change

pub resolve_discovery_job-Change :
    (connectors : UrlParseResult → Connector) (id : ℕ) (db : Store)
    → All₂ (Change false) db.jobs (resolve_discovery_job connectors id db).store.jobs
resolve_discovery_job-Change connectors id db =
    let same = All₂-refl (Change false) (Change-refl false) db.jobs in
    resolve_discovery_job-keeps db (λ out. All₂ (Change false) db.jobs out.store.jobs) connectors id
      (λ reply. same) (λ job there reply reason url provider. same)
      (λ job there role p raw c. stored-Change id db job p raw c there)

-- A decision of the user.
with_user_status-Change : (u : UserStatus) (job : Job) → Change true job (with_user_status u job)
unfolding with_user_status
with_user_status-Change u job = record {
  id = refl;
  hash = refl;
  decided = inl refl;
  mirrored = λ h. refl;
}

decide-Change :
    (u : UserStatus) (id : ℕ) (job : Job) (jobs : List Job)
    → find_job id jobs ≡ some job
    → All₂ (Change true) jobs (put_job (with_user_status u job) jobs)
decide-Change u id job jobs there =
    let change = with_user_status-Change u job in
    put_job-All₂ (Change true) (Change-refl true) id job _ jobs there
      (change.id ∙ find_job-id id jobs job there) change

update_found-Change :
    (id : ℕ) (jobs : List Job) (o : Option Job) (u : Option UserStatus)
    → find_job id jobs ≡ o
    → All₂ (Change true) jobs (updated_jobs (update_found o u jobs) jobs)
update_found-Change id jobs none u e = All₂-refl (Change true) (Change-refl true) jobs
update_found-Change id jobs (some job) none e = All₂-refl (Change true) (Change-refl true) jobs
update_found-Change id jobs (some job) (some u) e = decide-Change u id job jobs e

pub update_job_status-Change :
    (id : ℕ) (user_status : Text) (jobs : List Job)
    → All₂ (Change true) jobs (updated_jobs (update_job_status id user_status jobs) jobs)
unfolding update_job_status
update_job_status-Change id user_status jobs =
    update_found-Change id jobs (find_job id jobs) (writable_user_status user_status) refl

bulk_one-Change :
    (u : UserStatus) (id : ℕ) (st : BulkUpdated) (o : Option Job)
    → find_job id st.jobs ≡ o
    → All₂ (Change true) st.jobs (bulk_one u o st).jobs
bulk_one-Change u id st none e = All₂-refl (Change true) (Change-refl true) st.jobs
bulk_one-Change u id st (some job) e = decide-Change u id job st.jobs e

bulk_loop-Change :
    (u : UserStatus) (ids : List ℕ) (st : BulkUpdated)
    → All₂ (Change true) st.jobs (bulk_loop u ids st).jobs
unfolding bulk_loop
bulk_loop-Change u [] st = All₂-refl (Change true) (Change-refl true) st.jobs
bulk_loop-Change u (id ∷ ids) st =
    let next = bulk_one u (find_job id st.jobs) st in
    All₂-trans (Change true) (Change-trans true) st.jobs next.jobs _
      (bulk_one-Change u id st (find_job id st.jobs) refl) (bulk_loop-Change u ids next)

bulk_writable-Change :
    (ids : List ℕ) (jobs : List Job) (o : Option UserStatus)
    → All₂ (Change true) jobs (bulk_jobs (bulk_writable o ids jobs) jobs)
bulk_writable-Change ids jobs none = All₂-refl (Change true) (Change-refl true) jobs
bulk_writable-Change ids jobs (some u) = bulk_loop-Change u ids record { jobs = jobs; updated = 0 }

pub bulk_status-Change :
    (ids : List ℕ) (status : Text) (jobs : List Job)
    → All₂ (Change true) jobs (bulk_jobs (bulk_status ids status jobs) jobs)
unfolding bulk_status
bulk_status-Change ids status jobs = bulk_writable-Change ids jobs (writable_user_status status)
