-- ===== src/Ingest/Rerun.antt =====
-- A second run over the same fetched list.
use jobbot.Prelude.{
  ℕ, suc, ◌≡◌, refl, sym, ap, subst, ◌∙◌, inl, inr, false, List, [], ◌∷◌, Option, none, some,
  Bool-cases, is_nil, All,
}
use jobbot.Text.{Text}
use jobbot.Ingest.{CanonicalJob, RawJob, ScrapeRun, Tables, Loop, note_urls, Origin, value_or_empty}
use jobbot.Ingest.Run.{
  FetchResult, skip_row, duplicate_row, visit, ingest_one, ingest_rows, start, run_canonical_ingest,
}
use jobbot.Ingest.Counts.{Known, ingest_canonical-cases, ingest_one-keeps}
use jobbot.Ingest.Urls.{ReadsBack}
use jobbot.Ingest.Rounds.{Round, Known-after, Known-stays, known_url-grows, ReadsBack-Round}

-- A round that leaves the rows, the known URLs and the inserted ids as they are.
record Quiet (st after : Loop) : Type 0 where
  rows : after.jobs ≡ st.jobs
  urls : after.apply_url_to_job_id ≡ st.apply_url_to_job_id
  ids : after.inserted_job_ids ≡ st.inserted_job_ids

module _ (sha256 : Text → Text) (normalize : RawJob → Option CanonicalJob) (origin : Origin)
    (uuid : ℕ → ℕ) where
  -- Every job of the list that has a canonical form is known.
  abbrev AllKnown : Loop → List RawJob → Type 0
  AllKnown st raws =
      All
        (λ raw.
          (c : CanonicalJob) → normalize raw ≡ some c → Known sha256 normalize origin uuid c st)
        raws

  one-Known :
      (index : ℕ) (raw : RawJob) (c : CanonicalJob) (st : Loop)
      → normalize raw ≡ some c
      → Known sha256 normalize origin uuid c (ingest_one sha256 normalize origin uuid index raw st)
  unfolding ingest_one
  one-Known index raw c st e =
      subst (Known sha256 normalize origin uuid c)
        (sym (ap (λ o. visit sha256 normalize origin uuid o index raw st) e))
        (Known-after sha256 normalize origin uuid index raw c st _
          (ingest_canonical-cases sha256 normalize origin uuid index raw c st))

  rows_stay :
      (k : CanonicalJob) (index : ℕ) (raws : List RawJob) (st : Loop)
      → Known sha256 normalize origin uuid k st
      → Known sha256 normalize origin uuid k
          (ingest_rows sha256 normalize origin uuid index raws st)
  unfolding ingest_rows skip_row
  rows_stay k index [] st h = h
  rows_stay k index (raw ∷ rest) st h =
      rows_stay k (suc index) rest (ingest_one sha256 normalize origin uuid index raw st) (
        ingest_one-keeps sha256 normalize origin uuid
          (λ before after.
            Known sha256 normalize origin uuid k before
            → Known sha256 normalize origin uuid k after)
          (λ i r s g. g)
          (λ i r c s after e round g.
            Known-stays sha256 normalize origin uuid k i r c s after round g)
          index raw st h)

  rows_known :
      (index : ℕ) (raws : List RawJob) (st : Loop)
      → AllKnown (ingest_rows sha256 normalize origin uuid index raws st) raws
  unfolding ingest_rows
  rows_known index [] st = tt
  rows_known index (raw ∷ rest) st =
      let next = ingest_one sha256 normalize origin uuid index raw st in
      (
        λ c e. rows_stay c (suc index) rest next (one-Known index raw c st e),
        rows_known (suc index) rest next,
      )

  rows_read_back :
      ((raw : RawJob) (c : CanonicalJob)
        → normalize raw ≡ some c
        → is_nil (value_or_empty c.apply_url) ≡ false)
      → (index : ℕ) (raws : List RawJob) (st : Loop) → ReadsBack st
      → ReadsBack (ingest_rows sha256 normalize origin uuid index raws st)
  unfolding ingest_rows skip_row
  rows_read_back given index [] st back = back
  rows_read_back given index (raw ∷ rest) st back =
      rows_read_back given (suc index) rest (ingest_one sha256 normalize origin uuid index raw st) (
        ingest_one-keeps sha256 normalize origin uuid
          (λ before after. ReadsBack before → ReadsBack after) (λ i r s g. g)
          (λ i r c s after e round g.
            ReadsBack-Round sha256 normalize origin uuid i r c s after (given r c e) round g)
          index raw st back)

  Quiet-Round :
      (index : ℕ) (raw : RawJob) (c : CanonicalJob) (st after : Loop)
      → Known sha256 normalize origin uuid c st
      → Round sha256 normalize origin uuid index raw c st after
      → Quiet st after
  unfolding duplicate_row
  Quiet-Round index raw c st after h (inl d) =
      rw d.same record { rows = refl; urls = refl; ids = refl }
  Quiet-Round index raw c st after (inl h) (inr n) = cc (rw n.new_url at h)
  Quiet-Round index raw c st after (inr h) (inr n) = cc (rw n.new_hash at h)

  Quiet-visit :
      (index : ℕ) (raw : RawJob) (st : Loop) (o : Option CanonicalJob)
      → normalize raw ≡ o
      → ((c : CanonicalJob) → normalize raw ≡ some c → Known sha256 normalize origin uuid c st)
      → Quiet st (visit sha256 normalize origin uuid o index raw st)
  unfolding skip_row
  Quiet-visit index raw st none e h = record { rows = refl; urls = refl; ids = refl }
  Quiet-visit index raw st (some c) e h =
      Quiet-Round index raw c st _ (h c e)
        (ingest_canonical-cases sha256 normalize origin uuid index raw c st)

  still_known :
      (st after : Loop) (raws : List RawJob)
      → Quiet st after
      → AllKnown st raws
      → AllKnown after raws
  still_known st after [] q h = tt
  still_known st after (raw ∷ rest) q (here, h) =
      (λ c e. rw (q.rows, q.urls) (here c e), still_known st after rest q h)

  Quiet-rows :
      (index : ℕ) (raws : List RawJob) (st : Loop)
      → AllKnown st raws
      → Quiet st (ingest_rows sha256 normalize origin uuid index raws st)
  unfolding ingest_rows ingest_one
  Quiet-rows index [] st h = record { rows = refl; urls = refl; ids = refl }
  Quiet-rows index (raw ∷ rest) st (here, h) =
      let next = ingest_one sha256 normalize origin uuid index raw st in
      let q : Quiet st next = Quiet-visit index raw st (normalize raw) refl here in
      let r = Quiet-rows (suc index) rest next (still_known st next rest q h) in
      record { rows = r.rows ∙ q.rows; urls = r.urls ∙ q.urls; ids = r.ids ∙ q.ids }

  known_at_start :
      (st : Loop) (raws : List RawJob)
      → ReadsBack st
      → AllKnown st raws
      → AllKnown (start (record { jobs = st.jobs; sources = st.sources })) raws
  unfolding start
  known_at_start st [] back h = tt
  known_at_start st (raw ∷ rest) back (here, h) =
      (λ c e. known_from c (here c e), known_at_start st rest back h)
    where
      known_from :
          (c : CanonicalJob)
          → Known sha256 normalize origin uuid c st
          → Known sha256 normalize origin uuid c
              (start (record { jobs = st.jobs; sources = st.sources }))
      known_from c (inl k) =
          inl (known_url-grows c st.apply_url_to_job_id (note_urls st.jobs []) back k)
      known_from c (inr k) = inr k

-- If every canonical job has an apply URL, then a second ingest run over the list that the first
-- one fetched inserts no job and starts no chain.
pub rerun_inserts_nothing :
    (sha256 : Text → Text) (normalize : RawJob → Option CanonicalJob) (origin : Origin)
    (uuid again : ℕ → ℕ)
    → ((raw : RawJob) (c : CanonicalJob)
        → normalize raw ≡ some c
        → is_nil (value_or_empty c.apply_url) ≡ false)
    → (result : FetchResult) (now later : ℕ) (run second_run : Option ScrapeRun) (tables : Tables)
    → let first = run_canonical_ingest sha256 normalize origin uuid result now run tables in
      let second =
        run_canonical_ingest sha256 normalize origin again result later second_run first.tables in
      (second.tables.jobs ≡ first.tables.jobs) × (second.chained ≡ [])
unfolding run_canonical_ingest start
rerun_inserts_nothing sha256 normalize origin uuid again given result now later run second_run
      tables =
    let st = ingest_rows sha256 normalize origin uuid 1 result.raw_jobs (start tables) in
    let q =
      Quiet-rows sha256 normalize origin again 1 result.raw_jobs
        (start (record { jobs = st.jobs; sources = st.sources }))
        (known_at_start sha256 normalize origin again st result.raw_jobs
          (rows_read_back sha256 normalize origin uuid given 1 result.raw_jobs (start tables)
            (λ u h. h))
          (rows_known sha256 normalize origin uuid 1 result.raw_jobs (start tables))) in
    elim (Bool-cases (is_nil (value_or_empty result.error))) [
      | inl e ↦ rw e (q.rows, q.ids)
      | inr e ↦ rw e (refl, refl)
    ]
