-- ===== src/Ingest/Finished.antt =====
-- The run of a URL (apps/worker/tasks/ingest.py, `ingest_url`).
use jobbot.Prelude.{
  ℕ, suc, ◌≤◌, ◌≡◌, ◌≢◌, refl, inl, inr, false, [], ◌∷◌, Option, none, some, arith, Bool-cases,
  length, is_nil,
}
use jobbot.Text.{Text, lit}
use jobbot.Ingest.{CanonicalJob, RawJob, RunStatus, ScrapeRun, Tables, Origin, value_or_empty}
use jobbot.Ingest.Run.{
  FetchResult, Ingested, fail_run, finish_run, start, ingest_rows, run_canonical_ingest,
}
use jobbot.Ingest.Greenhouse.{skip_run}
use jobbot.Ingest.Counts.{run_canonical_ingest-IsAccounted}
use jobbot.Ingest.Tasks.{
  Delivery, delivered, raised, SourceAdapter, ProviderFlags, provider_disabled_reason, with_run,
  Attempt, returned, raised_error, untouched,
}
use jobbot.Ingest.Url.{
  ended, ingested_by, missing_run, filtered, url_origin, with_match, with_delivery, with_provider,
  with_parsed, ingest_url,
}
use jobbot.UrlProvider.{UrlParseResult, parse_supported_url}
use jobbot.Resolution.{filter_matching_job}

-- The run has ended at this time, and at most one row was added.
pub record IsSettled (now jobs : ℕ) (out : Ingested) : Type 0 where
  pub run : ScrapeRun
  pub there : out.run ≡ some run
  pub ended : run.status ≢ RunStatus.running
  pub at_time : run.finished_at ≡ some now
  pub rows : length out.tables.jobs ≤ suc jobs

-- What the connector of a URL raises while it normalizes.
abbrev pub url_raises :
    (create : UrlParseResult → SourceAdapter) → Option UrlParseResult → RawJob → Option Text
url_raises create none raw = none
url_raises create (some p) raw = (create p).normalize_raises raw

-- An attempt returns with a settled run, or it raises what the connector raises for a raw job, and
-- then leaves the run and the tables as they were.
pub data IsFinished (now : ℕ) (run : ScrapeRun) (tables : Tables) (raises : RawJob → Option Text)
    (attempt : Attempt) : Type 0 where
  settled :
      attempt.ending ≡ returned
      → IsSettled now (length tables.jobs) attempt.ingested
      → IsFinished now run tables raises attempt
  normalize_raised :
      (raw : RawJob) (error : Text)
      → raises raw ≡ some error
      → attempt ≡ record { ingested = untouched (some run) tables; ending = raised_error error }
      → IsFinished now run tables raises attempt

module _ (sha256 : Text → Text) (uuid : ℕ → ℕ) (now : ℕ) (run : ScrapeRun) (tables : Tables) where
  with_run-IsSettled :
      (f : ScrapeRun → ScrapeRun)
      → (f run).status ≢ RunStatus.running
      → (f run).finished_at ≡ some now
      → IsSettled now (length tables.jobs) (with_run f (some run) tables)
  with_run-IsSettled f ended at_time = record {
    run = f run;
    there = refl;
    ended = ended;
    at_time = at_time;
    rows = omega arith;
  }

  skip-IsSettled :
      (reason : Text)
      → IsSettled now (length tables.jobs) (with_run (skip_run reason now) (some run) tables)
  unfolding skip_run
  skip-IsSettled reason = with_run-IsSettled (skip_run reason now) (λ e. cc e) refl

  fail-IsSettled :
      (error : Text)
      → IsSettled now (length tables.jobs) (with_run (fail_run error now) (some run) tables)
  unfolding fail_run
  fail-IsSettled error = with_run-IsSettled (fail_run error now) (λ e. cc e) refl

  error-IsSettled :
      (normalize : RawJob → Option CanonicalJob) (origin : Origin) (result : FetchResult)
      → is_nil (value_or_empty result.error) ≡ false
      → IsSettled now
          (length tables.jobs)
          (run_canonical_ingest sha256 normalize origin uuid result now (some run) tables)
  unfolding run_canonical_ingest
  error-IsSettled normalize origin result e = rw e (fail-IsSettled (value_or_empty result.error))

  one_row :
      (normalize : RawJob → Option CanonicalJob) (origin : Origin) (raw : RawJob)
      → length
          (run_canonical_ingest sha256 normalize origin uuid
            (filtered raw)
            now
            (some run)
            tables).tables.jobs
        ≤ suc (length tables.jobs)
  one_row normalize origin raw =
      let a =
        run_canonical_ingest-IsAccounted sha256 normalize origin uuid (filtered raw) now run tables
          refl in
      omega (arith, a.rows, a.bounded)

  one-IsSettled :
      (normalize : RawJob → Option CanonicalJob) (origin : Origin) (raw : RawJob)
      → IsSettled now
          (length tables.jobs)
          (run_canonical_ingest sha256 normalize origin uuid (filtered raw) now (some run) tables)
  unfolding run_canonical_ingest finish_run
  one-IsSettled normalize origin raw = record {
    run =
        finish_run (filtered raw)
          (ingest_rows sha256 normalize origin uuid 1 (raw ∷ []) (start tables)) now run;
    there = refl;
    ended = λ e. cc e;
    at_time = refl;
    rows = one_row normalize origin raw;
  }

  one-IsFinished :
      (url payload : Text) (p : UrlParseResult) (adapter : SourceAdapter) (raw : RawJob)
      (o : Option Text)
      → adapter.normalize_raises raw ≡ o
      → IsFinished now run tables adapter.normalize_raises
          (ingested_by sha256 uuid url payload now adapter p (filtered raw) (some run) tables)
  one-IsFinished url payload p adapter raw none e =
      rw e (settled refl (one-IsSettled adapter.normalize (url_origin p) raw))
  one-IsFinished url payload p adapter raw (some error) e = normalize_raised raw error e (rw e refl)

  match-IsFinished :
      (url payload : Text) (p : UrlParseResult) (adapter : SourceAdapter) (result : FetchResult)
      (o : Option RawJob)
      → IsFinished now run tables adapter.normalize_raises
          (with_match sha256 uuid url payload now p adapter result o (some run) tables)
  unfolding missing_run
  match-IsFinished url payload p adapter result none =
      settled refl (with_run-IsSettled (missing_run p url payload result now) (λ e. cc e) refl)
  match-IsFinished url payload p adapter result (some raw) =
      one-IsFinished url payload p adapter raw (adapter.normalize_raises raw) refl

  delivery-IsFinished :
      (url payload : Text) (p : UrlParseResult) (adapter : SourceAdapter) (d : Delivery)
      → IsFinished now run tables adapter.normalize_raises
          (with_delivery sha256 uuid url payload now p adapter d (some run) tables)
  delivery-IsFinished url payload p adapter (raised e) = settled refl (fail-IsSettled e)
  delivery-IsFinished url payload p adapter (delivered result) =
      elim (Bool-cases (is_nil (value_or_empty result.error))) [
        | inl e ↦
            rw e (
              match-IsFinished url payload p adapter result (filter_matching_job p result.raw_jobs))
        | inr e ↦ rw e (settled refl (error-IsSettled adapter.normalize (url_origin p) result e))
      ]

  provider-IsFinished :
      (url payload : Text) (reason : Option Text) (p : UrlParseResult) (adapter : SourceAdapter)
      → IsFinished now run tables adapter.normalize_raises
          (with_provider sha256 uuid url payload now reason p adapter (some run) tables)
  provider-IsFinished url payload (some reason) p adapter = settled refl (skip-IsSettled reason)
  provider-IsFinished url payload none p adapter =
      delivery-IsFinished url payload p adapter adapter.fetch_raw_jobs

  parsed-IsFinished :
      (url payload : Text) (flags : ProviderFlags) (create : UrlParseResult → SourceAdapter)
      (o : Option UrlParseResult)
      → IsFinished now run tables
          (url_raises create o)
          (with_parsed sha256 uuid url payload now flags create o (some run) tables)
  parsed-IsFinished url payload flags create none =
      settled refl (fail-IsSettled (lit "Unsupported job URL"))
  parsed-IsFinished url payload flags create (some p) =
      provider-IsFinished url payload (provider_disabled_reason flags p.provider) p (create p)

  -- Whatever the URL, the flags and the connector are, either the URL task returns, its run is in a
  -- final status with the time of its end and at most one job was added, or the connector's
  -- normalize raised an exception for a raw job, the task ends with that exception, and the run and
  -- the tables are as they were before.
  pub ingest_url-IsFinished :
      (url payload : Text) (flags : ProviderFlags) (create : UrlParseResult → SourceAdapter)
      → IsFinished now run tables
          (url_raises create (parse_supported_url url))
          (ingest_url sha256 uuid url payload now flags create (some run) tables)
  unfolding ingest_url
  ingest_url-IsFinished url payload flags create = elim (Bool-cases flags.url_ingest_enabled) [
    | inl e ↦ rw e (parsed-IsFinished url payload flags create (parse_supported_url url))
    | inr e ↦ rw e (settled refl (skip-IsSettled (lit "URL_INGEST_ENABLED=false")))
  ]
