-- ===== src/Api/Repeat.antt =====
-- A manual entry that is sent twice (apps/api/routes/jobs.py).
use jobbot.Prelude.{ℕ, ◌≡◌, refl, List, [], Option, none, some, true, some_of, is_some_of, is_some}
use jobbot.Text.{Text}
use jobbot.Model.{Job}
use jobbot.Ingest.{find_hash}
use jobbot.Ingest.Unique.{find_hash-new}
use jobbot.Api.Manual.{
  ManualIngestBody, ManualIngested, manual_hash, manual_job, manual_insert, manual_ingest,
}

-- The reply says DUPLICATE: no row is added and no chain is started.
pub record IsDuplicateReply (jobs : List Job) (out : ManualIngested) : Type 0 where
  pub kept : out.jobs ≡ jobs
  pub unnamed : out.job_id ≡ none
  pub quiet : out.chained ≡ []

module _ (sha256 : Text → Text) (fromisoformat : Text → Option ℕ) (body : ManualIngestBody) where
  known_is_duplicate :
      (id now : ℕ) (payload : Text) (jobs : List Job)
      → is_some (find_hash (manual_hash sha256 body) jobs) ≡ true
      → IsDuplicateReply jobs (manual_ingest sha256 fromisoformat id now payload body jobs)
  unfolding manual_ingest
  known_is_duplicate id now payload jobs h =
      let (existing, e) = some_of (find_hash (manual_hash sha256 body) jobs) h in
      rw e record { kept = refl; unnamed = refl; quiet = refl }

  insert_is_known :
      (id now : ℕ) (payload : Text) (jobs : List Job) (o : Option Job)
      → find_hash (manual_hash sha256 body) jobs ≡ o
      → is_some (
          find_hash
            (manual_hash sha256 body)
            (manual_insert sha256 fromisoformat id now payload body o jobs).jobs)
        ≡ true
  unfolding manual_job
  insert_is_known id now payload jobs (some existing) e = is_some_of _ e
  insert_is_known id now payload jobs none e =
      find_hash-new jobs (manual_job fromisoformat id (manual_hash sha256 body) payload body)

  -- A manual entry that is sent again, at whatever time, gets the reply DUPLICATE, adds no row and
  -- starts no chain.
  pub manual_ingest-IsDuplicateReply :
      (id now id' now' : ℕ) (payload payload' : Text) (jobs : List Job)
      → let first = manual_ingest sha256 fromisoformat id now payload body jobs in
        IsDuplicateReply first.jobs
          (manual_ingest sha256 fromisoformat id' now' payload' body first.jobs)
  manual_ingest-IsDuplicateReply id now id' now' payload payload' jobs =
      known_is_duplicate id' now' payload' _ (
        unfold manual_ingest in
        insert_is_known id now payload jobs (find_hash (manual_hash sha256 body) jobs) refl)
