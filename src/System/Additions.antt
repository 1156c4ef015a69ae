-- ===== src/System/Additions.antt =====
-- What an ingest run and a manual entry add to the rows.
use jobbot.Prelude.{
  String, ℕ, suc, ◌≡◌, refl, inl, inr, ◌⊎◌, List, [], ◌∷◌, ◌++◌, Option, none, some, All,
  All-append, Bool-cases, is_nil,
}
use jobbot.Text.{Text}
use jobbot.Status.{legacy_status_from_canonical}
use jobbot.Model.{Job}
use jobbot.Ingest.{
  CanonicalJob, RawJob, ScrapeRun, Origin, Loop, Tables, find_hash, hash_of, new_job,
  value_or_empty,
}
use jobbot.Ingest.Run.{
  FetchResult, insert_row, duplicate_row, skip_row, ingest_one, ingest_rows, start,
  run_canonical_ingest,
}
use jobbot.Ingest.Counts.{IsDuplicate, IsInsert, ingest_one-keeps}
use jobbot.Ingest.Unique.{HashesUnique, HashesUnique-snoc, run_canonical_ingest-HashesUnique}
use jobbot.Pipeline.Invariant.{IsMirrored}
use jobbot.Api.Manual.{ManualIngestBody, manual_hash, manual_job, manual_insert, manual_ingest}
use jobbot.Discovery.Boards.{run_source_adapter_persist, finalize_failed_run}
use jobbot.Discovery.Partial.{board_origin, without_error, run_source_adapter_persist-cases}
use jobbot.System.Rows.{Grows, Grows-refl, Grows-snoc}

-- Rows that stay as they are, with mirrored ones behind them.
pub record Adds (before after : List Job) : Type 0 where
  pub grows : Grows (λ a b. b ≡ a) before after
  pub mirrored : All IsMirrored before → All IsMirrored after

pub Adds-refl : (rows : List Job) → Adds rows rows
Adds-refl rows = record { grows = Grows-refl (λ a b. b ≡ a) (λ a. refl) rows; mirrored = λ h. h }

pub Adds-snoc :
    (before after : List Job) (n : Job)
    → IsMirrored n
    → Adds before after
    → Adds before (after ++ n ∷ [])
Adds-snoc before after n m adds = record {
  grows = Grows-snoc (λ a b. b ≡ a) before after n adds.grows;
  mirrored = λ h. All-append IsMirrored after (n ∷ []) (adds.mirrored h) (m, tt);
}

new_job-IsMirrored :
    (origin : Origin) (id : ℕ) (hash : Text) (c : CanonicalJob)
    → IsMirrored (new_job origin id hash c)
unfolding new_job legacy_status_from_canonical
new_job-IsMirrored origin id hash c = refl

module _ (sha256 : Text → Text) (normalize : RawJob → Option CanonicalJob) (origin : Origin)
    (uuid : ℕ → ℕ) where
  Adds-case :
      (rows : List Job) (index : ℕ) (raw : RawJob) (c : CanonicalJob) (st after : Loop)
      → IsDuplicate sha256 normalize origin uuid index raw c st after
        ⊎ IsInsert sha256 normalize origin uuid index raw c st after
      → Adds rows st.jobs
      → Adds rows after.jobs
  unfolding duplicate_row insert_row
  Adds-case rows index raw c st after (inl d) adds = rw d.same adds
  Adds-case rows index raw c st after (inr n) adds =
      rw n.same (
        Adds-snoc rows st.jobs _ (new_job-IsMirrored origin (uuid index) (hash_of sha256 c) c) adds)

  Adds-rows :
      (rows : List Job) (index : ℕ) (raws : List RawJob) (st : Loop)
      → Adds rows st.jobs
      → Adds rows (ingest_rows sha256 normalize origin uuid index raws st).jobs
  unfolding ingest_rows skip_row
  Adds-rows rows index [] st adds = adds
  Adds-rows rows index (raw ∷ rest) st adds =
      Adds-rows rows (suc index) rest (ingest_one sha256 normalize origin uuid index raw st) (
        ingest_one-keeps sha256 normalize origin uuid
          (λ before after. Adds rows before.jobs → Adds rows after.jobs) (λ i r s h. h)
          (λ i r c s after e cases h. Adds-case rows i r c s after cases h) index raw st adds)

  pub run_canonical_ingest-Adds :
      (result : FetchResult) (now : ℕ) (run : Option ScrapeRun) (tables : Tables)
      → Adds tables.jobs
          (run_canonical_ingest sha256 normalize origin uuid result now run tables).tables.jobs
  unfolding run_canonical_ingest start
  run_canonical_ingest-Adds result now run tables =
      elim (Bool-cases (is_nil (value_or_empty result.error))) [
        | inl e ↦
            rw e (Adds-rows tables.jobs 1 result.raw_jobs (start tables) (Adds-refl tables.jobs))
        | inr e ↦ rw e (Adds-refl tables.jobs)
      ]

module _ (sha256 : Text → Text) (normalize : RawJob → Option CanonicalJob) (uuid : ℕ → ℕ)
    (source_name : String) (result : FetchResult) (now : ℕ) where
  pub run_source_adapter_persist-Adds :
      (run : Option ScrapeRun) (tables : Tables)
      → Adds tables.jobs
          (run_source_adapter_persist sha256 normalize uuid source_name result now run
            tables).tables.jobs
  unfolding finalize_failed_run
  run_source_adapter_persist-Adds run tables =
      elim (run_source_adapter_persist-cases sha256 normalize uuid source_name result now run
        tables) [
          | inl e ↦ rw e (Adds-refl tables.jobs)
          | inr e ↦ rw e (
              run_canonical_ingest-Adds sha256 normalize (board_origin source_name) uuid
                (without_error result) now run tables)
        ]

  pub run_source_adapter_persist-HashesUnique :
      (run : Option ScrapeRun) (tables : Tables)
      → HashesUnique tables.jobs
      → HashesUnique
          (run_source_adapter_persist sha256 normalize uuid source_name result now run
            tables).tables.jobs
  unfolding finalize_failed_run
  run_source_adapter_persist-HashesUnique run tables u =
      elim (run_source_adapter_persist-cases sha256 normalize uuid source_name result now run
        tables) [
          | inl e ↦ rw e u
          | inr e ↦ rw e (
              run_canonical_ingest-HashesUnique sha256 normalize (board_origin source_name) uuid
                (without_error result) now run tables u)
        ]

module _ (sha256 : Text → Text) (fromisoformat : Text → Option ℕ) (id now : ℕ) (payload : Text)
    (body : ManualIngestBody) where
  manual_job-IsMirrored : (hash : Text) → IsMirrored (manual_job fromisoformat id hash payload body)
  unfolding manual_job legacy_status_from_canonical
  manual_job-IsMirrored hash = refl

  manual_insert-Adds :
      (o : Option Job) (jobs : List Job)
      → Adds jobs (manual_insert sha256 fromisoformat id now payload body o jobs).jobs
  manual_insert-Adds (some existing) jobs = Adds-refl jobs
  manual_insert-Adds none jobs = Adds-snoc jobs jobs _ (manual_job-IsMirrored _) (Adds-refl jobs)

  pub manual_ingest-Adds :
      (jobs : List Job)
      → Adds jobs (manual_ingest sha256 fromisoformat id now payload body jobs).jobs
  unfolding manual_ingest
  manual_ingest-Adds jobs = manual_insert-Adds (find_hash (manual_hash sha256 body) jobs) jobs

  manual_insert-HashesUnique :
      (o : Option Job) (jobs : List Job)
      → find_hash (manual_hash sha256 body) jobs ≡ o
      → HashesUnique jobs
      → HashesUnique (manual_insert sha256 fromisoformat id now payload body o jobs).jobs
  unfolding manual_job
  manual_insert-HashesUnique (some existing) jobs e u = u
  manual_insert-HashesUnique none jobs e u = HashesUnique-snoc jobs _ u e

  pub manual_ingest-HashesUnique :
      (jobs : List Job)
      → HashesUnique jobs
      → HashesUnique (manual_ingest sha256 fromisoformat id now payload body jobs).jobs
  unfolding manual_ingest
  manual_ingest-HashesUnique jobs u = manual_insert-HashesUnique _ jobs refl u
