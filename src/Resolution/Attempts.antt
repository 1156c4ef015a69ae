-- ===== src/Resolution/Attempts.antt =====
-- What a resolution leaves, on every branch, and what a second one does.
use jobbot.Prelude.{
  ℕ, suc, ◌≡◌, refl, sym, subst, ◌⊎◌, inl, inr, true, false, List, [], ◌∷◌, ◌++◌, Option, none,
  some, arith, length, length-append, Bool-cases, Option-cases, is_nil, ap, ◌==◌, ==_iff,
}
use jobbot.Text.{Text}
use jobbot.Status.{PipelineStatus}
use jobbot.Model.{Job, resolved_canonical, failed, discovery}
use jobbot.Model.Tables.{find_job, put_job}
use jobbot.Gate.{role_is}
use jobbot.Ingest.{CanonicalJob, RawJob}
use jobbot.UrlProvider.{Provider, UrlParseResult, parse_supported_url}
use jobbot.Pipeline.Invariant.{IsMirrored}
use jobbot.Resolution.{
  Attempt, Store, Fetch, fetched, raised, Connector, Reply, Resolved, enrich,
  reset_for_reprocessing, failed_attempt, record_attempt, store_resolved, fail, idle,
  with_normalized, with_match, with_fetch, with_parsed, filter_matching_job, is_resolved,
  url_to_resolve, resolve_job, resolve_discovery_job,
}

pub find_job-id : (id : ℕ) (rows : List Job) (j : Job) → find_job id rows ≡ some j → j.id ≡ id
unfolding find_job
find_job-id id [] j h = cc h
find_job-id id (k ∷ rows) j h = elim (Bool-cases (k.id == id)) [
  | inl e ↦
      let same : some k ≡ some j = rw e at h in
      let row : k ≡ j = cc same in rw (← row) ((==_iff k.id id).0 e)
  | inr e ↦ find_job-id id rows j (rw e at h)
]

pub find_job-put_job :
    (id : ℕ) (rows : List Job) (old new : Job)
    → find_job id rows ≡ some old
    → new.id ≡ id
    → find_job id (put_job new rows) ≡ some new
unfolding find_job put_job
find_job-put_job id [] old new h e = cc h
find_job-put_job id (k ∷ rows) old new h e = elim (Bool-cases (k.id == id)) [
  | inl c ↦
      let here : (new.id == id) ≡ true = (==_iff new.id id).1 e in
      let same : (k.id == new.id) ≡ true = subst (λ n. (k.id == n) ≡ true) (sym e) c in
      rw (same, here) refl
  | inr c ↦
      let other : (k.id == new.id) ≡ false = subst (λ n. (k.id == n) ≡ false) (sym e) c in
      rw (other, c) (find_job-put_job id rows old new (rw c at h) e)
]

-- The store is as before, and no chain is started.
pub record IsIdle (db : Store) (out : Resolved) : Type 0 where
  pub kept : out.store ≡ db
  pub quiet : out.chained ≡ []

-- Only the failed attempt is logged, for this job.
pub record IsFailure (id : ℕ) (db : Store) (out : Resolved) : Type 0 where
  pub attempt : Attempt
  pub logged : out.store ≡ record_attempt attempt db
  pub outcome : attempt.resolution_status ≡ failed
  pub owner : attempt.job_id ≡ id
  pub quiet : out.chained ≡ []

-- The row of the job is resolved, back at the start of the pipeline with the mirrored status, one
-- attempt is logged, and the chain is started for this job.
pub record IsSuccess (id : ℕ) (db : Store) (out : Resolved) : Type 0 where
  pub row : Job
  pub found : find_job id out.store.jobs ≡ some row
  pub marked : row.resolution_status ≡ some resolved_canonical
  pub rewound : row.pipeline_status ≡ PipelineStatus.ingested
  pub mirrored : IsMirrored row
  pub still_discovery : role_is discovery row.source_role ≡ true
  pub logged : length out.store.attempts ≡ suc (length db.attempts)
  pub started : out.chained ≡ id ∷ []

abbrev pub Outcome : ℕ → Store → Resolved → Type 0
Outcome id db out = IsIdle db out ⊎ IsFailure id db out ⊎ IsSuccess id db out

length-snoc : {A : Type 0} (xs : List A) (x : A) → length (xs ++ x ∷ []) ≡ suc (length xs)
length-snoc xs x = omega (arith, length-append xs (x ∷ []))

-- What holds of an untouched store, of every logged failure and of every success holds of what a
-- resolution leaves.
module _ (db : Store) (P : Resolved → Type 0) where
  abbrev pub OnFailure : Job → Type 0
  OnFailure job =
      (reply : Reply) (reason : Text) (url : Option Text) (provider : Option Provider)
      → P (fail job reply reason url provider db)

  abbrev pub OnSuccess : Job → Type 0
  OnSuccess job =
      (p : UrlParseResult) (raw : RawJob) (c : CanonicalJob) → P (store_resolved p raw c job db)

  module _ (job : Job) (failure : OnFailure job) (success : OnSuccess job) where
    with_normalized-keeps :
        (p : UrlParseResult) (url : Text) (raw : RawJob) (o : Option CanonicalJob)
        → P (with_normalized p url job raw o db)
    with_normalized-keeps p url raw none = failure _ _ _ _
    with_normalized-keeps p url raw (some c) = success p raw c

    with_match-keeps :
        (p : UrlParseResult) (conn : Connector) (url : Text) (o : Option RawJob)
        → P (with_match p conn url job o db)
    with_match-keeps p conn url none = failure _ _ _ _
    with_match-keeps p conn url (some raw) = with_normalized-keeps p url raw (conn.normalize raw)

    with_fetch-keeps :
        (p : UrlParseResult) (conn : Connector) (url : Text) (f : Fetch)
        → P (with_fetch p conn url job f db)
    with_fetch-keeps p conn url (raised e) = failure _ _ _ _
    with_fetch-keeps p conn url (fetched raws) =
        with_match-keeps p conn url (filter_matching_job p raws)

    with_parsed-keeps :
        (connectors : UrlParseResult → Connector) (url : Text) (o : Option UrlParseResult)
        → P (with_parsed connectors url job o db)
    with_parsed-keeps connectors url none = failure _ _ _ _
    with_parsed-keeps connectors url (some p) =
        with_fetch-keeps p (connectors p) url (connectors p).fetch_raw_jobs

  resolve_job-keeps :
      (connectors : UrlParseResult → Connector) (job : Job)
      → ((reply : Reply) → P (idle reply db))
      → (role_is discovery job.source_role ≡ true → OnFailure job)
      → (role_is discovery job.source_role ≡ true → OnSuccess job)
      → P (resolve_job connectors job db)
  unfolding resolve_job
  resolve_job-keeps connectors job quiet failure success =
      elim (Bool-cases (role_is discovery job.source_role)) [
        | inr e ↦ rw e (quiet _)
        | inl e ↦ elim (Bool-cases (is_resolved job.resolution_status)) [
          | inl r ↦ rw (e, r) (quiet _)
          | inr r ↦ elim (Bool-cases (is_nil (url_to_resolve job))) [
            | inl u ↦ rw (e, r, u) (failure e _ _ _ _)
            | inr u ↦
                rw (e, r, u)
                  (with_parsed-keeps job (failure e) (success e) connectors (url_to_resolve job)
                    (parse_supported_url (url_to_resolve job)))
          ]
        ]
      ]

  pub resolve_discovery_job-keeps :
      (connectors : UrlParseResult → Connector) (id : ℕ)
      → ((reply : Reply) → P (idle reply db))
      → ((job : Job) → find_job id db.jobs ≡ some job → OnFailure job)
      → ((job : Job)
          → find_job id db.jobs ≡ some job
          → role_is discovery job.source_role ≡ true
          → OnSuccess job)
      → P (resolve_discovery_job connectors id db)
  unfolding resolve_discovery_job
  resolve_discovery_job-keeps connectors id quiet failure success =
      elim (Option-cases (find_job id db.jobs)) [
        | inl e ↦ rw e (quiet _)
        | inr (job, e) ↦
            rw e (resolve_job-keeps connectors job quiet (λ r. failure job e) (success job e))
      ]

store_resolved-IsSuccess :
    (id : ℕ) (db : Store) (job : Job) (p : UrlParseResult) (raw : RawJob) (c : CanonicalJob)
    → find_job id db.jobs ≡ some job
    → role_is discovery job.source_role ≡ true
    → IsSuccess id db (store_resolved p raw c job db)
unfolding store_resolved enrich reset_for_reprocessing
store_resolved-IsSuccess id db job p raw c there role = record {
  row = reset_for_reprocessing (enrich p c job);
  found =
      find_job-put_job id db.jobs job (reset_for_reprocessing (enrich p c job)) there
        (find_job-id id db.jobs job there);
  marked = refl;
  rewound = refl;
  mirrored = refl;
  still_discovery = role;
  logged = length-snoc db.attempts _;
  started = ap (λ (i : ℕ). i ∷ []) (find_job-id id db.jobs job there);
}

fail-IsFailure :
    (id : ℕ) (db : Store) (job : Job)
    → find_job id db.jobs ≡ some job
    → OnFailure db (IsFailure id db) job
unfolding failed_attempt
fail-IsFailure id db job there reply reason url provider = record {
  attempt = failed_attempt job reason url provider;
  logged = refl;
  outcome = refl;
  owner = find_job-id id db.jobs job there;
  quiet = refl;
}

-- Every resolution either leaves the store alone, or logs one failed attempt of the job and changes
-- nothing else, or marks the job as resolved, puts it back at the start of the pipeline with the
-- mirrored status, logs one attempt and starts the chain for exactly this job.
pub resolve_discovery_job-Outcome :
    (connectors : UrlParseResult → Connector) (id : ℕ) (db : Store)
    → Outcome id db (resolve_discovery_job connectors id db)
resolve_discovery_job-Outcome connectors id db =
    resolve_discovery_job-keeps db (Outcome id db) connectors id
      (λ reply. inl record { kept = refl; quiet = refl })
      (λ job there reply reason url provider.
        inr (inl (fail-IsFailure id db job there reply reason url provider)))
      (λ job there role p raw c. inr (inr (store_resolved-IsSuccess id db job p raw c there role)))
