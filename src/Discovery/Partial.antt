-- ===== src/Discovery/Partial.antt =====
-- A batch that carries records and an error (apps/worker/tasks/discovery.py).
use jobbot.Prelude.{
  Bool, ◌⊎◌, ℕ, ◌≡◌, refl, inl, inr, true, false, not, ◌&&◌, Option, none, some, String, Bool-cases,
  is_nil,
}
use jobbot.Text.{Text}
use jobbot.Ingest.{CanonicalJob, RawJob, ScrapeRun, Tables, Origin, value_or_empty}
use jobbot.Ingest.Run.{FetchResult, Ingested, finish_run, update_run, run_canonical_ingest}
use jobbot.Discovery.{discovery_origin, shown_by_adapter}
use jobbot.Discovery.Boards.{finalize_failed_run, run_source_adapter_persist}

abbrev pub board_origin : String → Origin
board_origin source_name = discovery_origin source_name (λ raw. some raw.captured) shown_by_adapter

-- The batch as if its acquisition had ended without the error.
abbrev pub without_error : FetchResult → FetchResult
without_error result = record result { error = none }

abbrev pub note_error : Option Text → Ingested → Ingested
note_error error out = record out {
  run = update_run (λ r. record r { error_text = error }) out.run;
}

module _ (sha256 : Text → Text) (normalize : RawJob → Option CanonicalJob) (uuid : ℕ → ℕ)
    (source_name : String) (result : FetchResult) (now : ℕ) where
  kept_with_error :
      (run : Option ScrapeRun) (tables : Tables)
      → (not (is_nil (value_or_empty result.error)) && is_nil result.raw_jobs) ≡ false
      → run_source_adapter_persist sha256 normalize uuid source_name result now run tables
        ≡ note_error result.error (
            run_canonical_ingest sha256 normalize
              (board_origin source_name)
              uuid
              (without_error result)
              now
              run
              tables)
  unfolding run_source_adapter_persist run_canonical_ingest finish_run
  kept_with_error none tables e = rw e refl
  kept_with_error (some run) tables e = rw e refl

  -- A batch that has records is ingested exactly as if its acquisition had ended without its error,
  -- which is then stored with the finished run.
  pub partial_batch_kept :
      (run : Option ScrapeRun) (tables : Tables)
      → is_nil result.raw_jobs ≡ false
      → run_source_adapter_persist sha256 normalize uuid source_name result now run tables
        ≡ note_error result.error (
            run_canonical_ingest sha256 normalize
              (board_origin source_name)
              uuid
              (without_error result)
              now
              run
              tables)
  partial_batch_kept run tables some_records =
      kept_with_error run tables (no_failure (is_nil (value_or_empty result.error)) some_records)
    where
      no_failure :
          (b : Bool) → is_nil result.raw_jobs ≡ false → (not b && is_nil result.raw_jobs) ≡ false
      no_failure true h = refl
      no_failure false h = h

  -- Either the batch fails and the tables stay, or it is ingested as if it had no error.
  pub run_source_adapter_persist-cases :
      (run : Option ScrapeRun) (tables : Tables)
      → (run_source_adapter_persist sha256 normalize uuid source_name result now run tables
          ≡ finalize_failed_run (value_or_empty result.error) now run tables)
        ⊎ (run_source_adapter_persist sha256 normalize uuid source_name result now run tables
            ≡ note_error result.error (
                run_canonical_ingest sha256 normalize
                  (board_origin source_name)
                  uuid
                  (without_error result)
                  now
                  run
                  tables))
  unfolding run_source_adapter_persist
  run_source_adapter_persist-cases run tables =
      elim (Bool-cases (not (is_nil (value_or_empty result.error)) && is_nil result.raw_jobs)) [
        | inl e ↦ inl (rw e refl)
        | inr e ↦ inr (kept_with_error run tables e)
      ]
