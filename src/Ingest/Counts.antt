-- ===== src/Ingest/Counts.antt =====
-- What one round of the ingest loop does, and what the counters count.
use jobbot.Prelude.{
  ℕ, suc, ◌+◌, ◌≡◌, refl, subst, ◌≤◌, ◌⊎◌, inl, inr, true, List, [], ◌∷◌, ◌++◌, Option, none, some,
  arith, length, length-append, is_some, is_nil,
}
use jobbot.Text.{Text, lit}
use jobbot.Model.{Job}
use jobbot.Ingest.{
  CanonicalJob, RawJob, ScrapeRun, Stats, Tables, Loop, find_hash, Origin, hash_of, value_or_empty,
}
use jobbot.Ingest.Run.{
  FetchResult, skip_row, duplicate_row, insert_row, known_url, ingest_canonical, ingest_one, settle,
  visit, ingest_rows, start, finish_run, Ingested, run_canonical_ingest,
}

module _ (sha256 : Text → Text) (normalize : RawJob → Option CanonicalJob) (origin : Origin)
    (uuid : ℕ → ℕ) where
  -- A duplicate: its URL or its hash is there.
  abbrev pub Known : CanonicalJob → Loop → Type 0
  Known c st =
      (is_some (known_url c st.apply_url_to_job_id) ≡ true)
      ⊎ (is_some (find_hash (hash_of sha256 c) st.jobs) ≡ true)

  pub record IsDuplicate (index : ℕ) (raw : RawJob) (c : CanonicalJob) (before after : Loop)
      : Type 0 where
    pub reason : Text
    pub id : ℕ
    pub known : Known c before
    pub same : after ≡ duplicate_row origin index raw (hash_of sha256 c) c reason id before

  pub record IsInsert (index : ℕ) (raw : RawJob) (c : CanonicalJob) (before after : Loop)
      : Type 0 where
    pub new_url : known_url c before.apply_url_to_job_id ≡ none
    pub new_hash : find_hash (hash_of sha256 c) before.jobs ≡ none
    pub same : after ≡ insert_row origin index raw (hash_of sha256 c) c (uuid index) before

  settle-cases :
      (index : ℕ) (raw : RawJob) (c : CanonicalJob) (st : Loop) (o : Option ℕ) (p : Option Job)
      → known_url c st.apply_url_to_job_id ≡ o
      → find_hash (hash_of sha256 c) st.jobs ≡ p
      → let after = settle sha256 normalize origin uuid o p index raw c st in
        IsDuplicate index raw c st after ⊎ IsInsert index raw c st after
  settle-cases index raw c st (some id) p e f =
      inl record { reason = lit "exact_url"; id = id; known = inl (rw e refl); same = refl }
  settle-cases index raw c st none (some j) e f =
      inl record { reason = lit "dedup_hash"; id = j.id; known = inr (rw f refl); same = refl }
  settle-cases index raw c st none none e f = inr record { new_url = e; new_hash = f; same = refl }

  pub ingest_canonical-cases :
      (index : ℕ) (raw : RawJob) (c : CanonicalJob) (st : Loop)
      → IsDuplicate index raw c st (ingest_canonical sha256 normalize origin uuid index raw c st)
        ⊎ IsInsert index raw c st (ingest_canonical sha256 normalize origin uuid index raw c st)
  unfolding ingest_canonical
  ingest_canonical-cases index raw c st = settle-cases index raw c st _ _ refl refl

  visit_keeps :
      (P : Loop → Loop → Type 0)
      → ((index : ℕ) (raw : RawJob) (st : Loop) → P st (skip_row origin index raw st))
      → ((index : ℕ) (raw : RawJob) (c : CanonicalJob) (st after : Loop)
          → normalize raw ≡ some c
          → IsDuplicate index raw c st after ⊎ IsInsert index raw c st after
          → P st after)
      → (index : ℕ) (raw : RawJob) (st : Loop) (o : Option CanonicalJob) → normalize raw ≡ o
      → P st (visit sha256 normalize origin uuid o index raw st)
  visit_keeps P skip keep index raw st none e = skip index raw st
  visit_keeps P skip keep index raw st (some c) e =
      keep index raw c st _ e (ingest_canonical-cases index raw c st)

  -- What each of the three kinds of round keeps.
  pub ingest_one-keeps :
      (P : Loop → Loop → Type 0)
      → ((index : ℕ) (raw : RawJob) (st : Loop) → P st (skip_row origin index raw st))
      → ((index : ℕ) (raw : RawJob) (c : CanonicalJob) (st after : Loop)
          → normalize raw ≡ some c
          → IsDuplicate index raw c st after ⊎ IsInsert index raw c st after
          → P st after)
      → (index : ℕ) (raw : RawJob) (st : Loop)
      → P st (ingest_one sha256 normalize origin uuid index raw st)
  unfolding ingest_one
  ingest_one-keeps P skip keep index raw st = visit_keeps P skip keep index raw st _ refl

-- Every round adds one item, and the counters agree with what was added.
record Counted (jobs rounds : ℕ) (st : Loop) : Type 0 where
  items : length st.run_items ≡ rounds
  ids : length st.inserted_job_ids ≡ st.inserted
  rows : length st.jobs ≡ jobs + st.inserted
  bounded : st.inserted + st.duplicates ≤ rounds

length-snoc : {A : Type 0} (xs : List A) (x : A) → length (xs ++ x ∷ []) ≡ suc (length xs)
length-snoc xs x = omega (arith, length-append xs (x ∷ []))

Counted-start : (tables : Tables) → Counted (length tables.jobs) 0 (start tables)
unfolding start
Counted-start tables = record {
  items = refl;
  ids = refl;
  rows = omega arith;
  bounded = omega arith;
}

module _ (sha256 : Text → Text) (normalize : RawJob → Option CanonicalJob) (origin : Origin)
    (uuid : ℕ → ℕ) where
  Counted-case :
      (jobs rounds index : ℕ) (raw : RawJob) (c : CanonicalJob) (st after : Loop)
      → IsDuplicate sha256 normalize origin uuid index raw c st after
        ⊎ IsInsert sha256 normalize origin uuid index raw c st after
      → Counted jobs rounds st
      → Counted jobs (suc rounds) after
  unfolding duplicate_row insert_row
  Counted-case jobs rounds index raw c st after (inl d) k = rw d.same record {
    items = omega (arith, k.items, length-snoc st.run_items _);
    ids = k.ids;
    rows = k.rows;
    bounded = omega (arith, k.bounded);
  }
  Counted-case jobs rounds index raw c st after (inr n) k = rw n.same record {
    items = omega (arith, k.items, length-snoc st.run_items _);
    ids = omega (arith, k.ids, length-snoc st.inserted_job_ids _);
    rows = omega (arith, k.rows, length-snoc st.jobs _);
    bounded = omega (arith, k.bounded);
  }

  Counted-one :
      (jobs rounds index : ℕ) (raw : RawJob) (st : Loop)
      → Counted jobs rounds st
      → Counted jobs (suc rounds) (ingest_one sha256 normalize origin uuid index raw st)
  unfolding skip_row duplicate_row insert_row
  Counted-one jobs rounds index raw st h =
      ingest_one-keeps sha256 normalize origin uuid
        (λ before after. Counted jobs rounds before → Counted jobs (suc rounds) after)
        (λ i r s k. record {
          items = omega (arith, k.items, length-snoc s.run_items _);
          ids = k.ids;
          rows = k.rows;
          bounded = omega (arith, k.bounded);
        })
        (λ i r c s after e cases k. Counted-case jobs rounds i r c s after cases k) index raw st h

  Counted-rows :
      (jobs rounds index : ℕ) (raws : List RawJob) (st : Loop)
      → Counted jobs rounds st
      → Counted jobs (length raws + rounds) (ingest_rows sha256 normalize origin uuid index raws st)
  unfolding ingest_rows
  Counted-rows jobs rounds index [] st h =
      let e : rounds ≡ 0 + rounds = omega arith in subst (λ n. Counted jobs n st) e h
  Counted-rows jobs rounds index (raw ∷ rest) st h =
      let e : length rest + suc rounds ≡ suc (length rest) + rounds = omega arith in
      subst
        (λ n. Counted jobs n (
          ingest_rows sha256 normalize origin uuid (suc index) rest
            (ingest_one sha256 normalize origin uuid index raw st)))
        e
        (Counted-rows jobs (suc rounds) (suc index) rest _ (Counted-one jobs rounds index raw st h))

-- A finished run and what it returns agree with the tables and with the fetched list.
pub record IsAccounted (result : FetchResult) (jobs : ℕ) (out : Ingested) : Type 0 where
  pub run : ScrapeRun
  pub stats : Stats
  pub finished : out.run ≡ some run
  pub reported : run.stats_json ≡ some stats
  pub returned :
      out.stats
      ≡ some record {
        fetched = stats.fetched;
        inserted = stats.inserted;
        duplicates = stats.duplicates;
      }
  pub fetched : (stats.fetched ≡ result.fetched) × (stats.errors ≡ result.errors)
  pub items : length run.items_json ≡ length result.raw_jobs
  pub chained : length out.chained ≡ stats.inserted
  pub rows : length out.tables.jobs ≡ jobs + stats.inserted
  pub bounded : stats.inserted + stats.duplicates ≤ length result.raw_jobs

module _ (sha256 : Text → Text) (normalize : RawJob → Option CanonicalJob) (origin : Origin)
    (uuid : ℕ → ℕ) where
  pub run_canonical_ingest-IsAccounted :
      (result : FetchResult) (now : ℕ) (run : ScrapeRun) (tables : Tables)
      → is_nil (value_or_empty result.error) ≡ true
      → IsAccounted result
          (length tables.jobs)
          (run_canonical_ingest sha256 normalize origin uuid result now (some run) tables)
  unfolding run_canonical_ingest finish_run
  run_canonical_ingest-IsAccounted result now run tables fine =
      let k =
        Counted-rows sha256 normalize origin uuid (length tables.jobs) 0 1 result.raw_jobs
          (start tables) (Counted-start tables) in
      rw fine record {
        run =
            finish_run result
              (ingest_rows sha256 normalize origin uuid 1 result.raw_jobs (start tables)) now run;
        stats = _;
        finished = refl;
        reported = refl;
        returned = refl;
        fetched = (refl, refl);
        items = omega (arith, k.items);
        chained = k.ids;
        rows = k.rows;
        bounded = omega (arith, k.bounded);
      }
