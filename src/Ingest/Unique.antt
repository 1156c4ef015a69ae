-- ===== src/Ingest/Unique.antt =====
-- The unique hash of a job through an ingest run (apps/worker/tasks/ingest.py).
use jobbot.Prelude.{
  ℕ, suc, ◌≡◌, refl, ◌⊎◌, inl, inr, true, false, List, [], ◌∷◌, ◌++◌, Option, none, is_some,
  Bool-cases, is_nil,
}
use jobbot.Text.{Text, text_eq}
use jobbot.Text.Laws.{text_eq_sound, text_eq_refl}
use jobbot.Model.{Job}
use jobbot.Ingest.{
  CanonicalJob, RawJob, ScrapeRun, Tables, Loop, find_hash, Origin, hash_of, value_or_empty,
  new_job,
}
use jobbot.Ingest.Run.{
  FetchResult, skip_row, duplicate_row, insert_row, ingest_one, ingest_rows, start,
  run_canonical_ingest,
}
use jobbot.Ingest.Counts.{IsDuplicate, IsInsert, ingest_one-keeps}

pub find_hash-snoc-none :
    (hash : Text) (js : List Job) (n : Job)
    → find_hash hash js ≡ none
    → text_eq n.dedup_hash hash ≡ false
    → find_hash hash (js ++ n ∷ []) ≡ none
unfolding find_hash
find_hash-snoc-none hash [] n h e = rw e refl
find_hash-snoc-none hash (j ∷ js) n h e = elim (Bool-cases (text_eq j.dedup_hash hash)) [
  | inl c ↦ cc (rw c at h)
  | inr c ↦ rw c (find_hash-snoc-none hash js n (rw c at h) e)
]

pub find_hash-snoc :
    (hash : Text) (js : List Job) (n : Job)
    → is_some (find_hash hash js) ≡ true
    → is_some (find_hash hash (js ++ n ∷ [])) ≡ true
unfolding find_hash
find_hash-snoc hash [] n h = cc h
find_hash-snoc hash (j ∷ js) n h = elim (Bool-cases (text_eq j.dedup_hash hash)) [
  | inl c ↦ rw c refl
  | inr c ↦ rw c (find_hash-snoc hash js n (rw c at h))
]

pub find_hash-new :
    (js : List Job) (n : Job) → is_some (find_hash n.dedup_hash (js ++ n ∷ [])) ≡ true
unfolding find_hash
find_hash-new [] n = rw (text_eq_refl n.dedup_hash) refl
find_hash-new (j ∷ js) n = elim (Bool-cases (text_eq j.dedup_hash n.dedup_hash)) [
  | inl c ↦ rw c refl
  | inr c ↦ rw c (find_hash-new js n)
]

-- The unique index on jobs.dedup_hash.
abbrev pub HashesUnique : List Job → Type 0
HashesUnique [] = Unit
HashesUnique (j ∷ js) = (find_hash j.dedup_hash js ≡ none) × HashesUnique js

not_found_head :
    (hash : Text) (j : Job) (js : List Job)
    → find_hash hash (j ∷ js) ≡ none
    → (text_eq hash j.dedup_hash ≡ false) × (find_hash hash js ≡ none)
unfolding find_hash
not_found_head hash j js h = elim (Bool-cases (text_eq j.dedup_hash hash)) [
  | inl c ↦ cc (rw c at h)
  | inr c ↦ elim (Bool-cases (text_eq hash j.dedup_hash)) [
    | inl d ↦
        let e = text_eq_sound hash j.dedup_hash d in
        let f : text_eq j.dedup_hash hash ≡ true = rw e (text_eq_refl j.dedup_hash) in cc (c, f)
    | inr d ↦ (d, rw c at h)
  ]
]

pub HashesUnique-snoc :
    (js : List Job) (n : Job)
    → HashesUnique js
    → find_hash n.dedup_hash js ≡ none
    → HashesUnique (js ++ n ∷ [])
unfolding find_hash
HashesUnique-snoc [] n u h = (refl, tt)
HashesUnique-snoc (j ∷ js) n (first, u) h =
    let (apart, rest) = not_found_head n.dedup_hash j js h in
    (find_hash-snoc-none j.dedup_hash js n first apart, HashesUnique-snoc js n u rest)

module _ (sha256 : Text → Text) (normalize : RawJob → Option CanonicalJob) (origin : Origin)
    (uuid : ℕ → ℕ) where
  unique_case :
      (index : ℕ) (raw : RawJob) (c : CanonicalJob) (st after : Loop)
      → IsDuplicate sha256 normalize origin uuid index raw c st after
        ⊎ IsInsert sha256 normalize origin uuid index raw c st after
      → HashesUnique st.jobs
      → HashesUnique after.jobs
  unfolding duplicate_row insert_row new_job
  unique_case index raw c st after (inl d) u = rw d.same u
  unique_case index raw c st after (inr n) u =
      rw n.same
        (HashesUnique-snoc st.jobs (new_job origin (uuid index) (hash_of sha256 c) c) u n.new_hash)

  unique_rows :
      (index : ℕ) (raws : List RawJob) (st : Loop)
      → HashesUnique st.jobs
      → HashesUnique (ingest_rows sha256 normalize origin uuid index raws st).jobs
  unfolding ingest_rows skip_row
  unique_rows index [] st u = u
  unique_rows index (raw ∷ rest) st u =
      unique_rows (suc index) rest (ingest_one sha256 normalize origin uuid index raw st) (
        ingest_one-keeps sha256 normalize origin uuid
          (λ before after. HashesUnique before.jobs → HashesUnique after.jobs) (λ i r s h. h)
          (λ i r c s after e cases h. unique_case i r c s after cases h) index raw st u)

  -- An ingest run never makes two jobs share a dedup hash, whatever the connector delivers and
  -- whether or not its fetch failed.
  pub run_canonical_ingest-HashesUnique :
      (result : FetchResult) (now : ℕ) (run : Option ScrapeRun) (tables : Tables)
      → HashesUnique tables.jobs
      → HashesUnique
          (run_canonical_ingest sha256 normalize origin uuid result now run tables).tables.jobs
  unfolding run_canonical_ingest start
  run_canonical_ingest-HashesUnique result now run tables u =
      elim (Bool-cases (is_nil (value_or_empty result.error))) [
        | inl e ↦ rw e (unique_rows 1 result.raw_jobs (start tables) u)
        | inr e ↦ rw e u
      ]
