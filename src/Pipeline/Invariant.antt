-- ===== src/Pipeline/Invariant.antt =====
-- A row before and after a delivery (apps/worker/tasks).
use jobbot.Prelude.{
  ℕ, ◌≡◌, refl, sym, ◌⊎◌, inl, inr, Bool, true, List, [], ◌∷◌, Option, none, some, All, Bool-cases,
  is_nil, ltb, subst, and-eq-true, ap,
}
use jobbot.Text.{Text}
use jobbot.Status.{PipelineStatus, UserStatus, legacy_status_from_canonical, status_eq}
use jobbot.Status.Mirror.{status_eq_sound}
use jobbot.Model.{Job, JobAnalysis, Suggestion, SourceRole, ResolutionStatus}
use jobbot.Scoring.{text_of}
use jobbot.ResumeMatching.{CatalogRow}
use jobbot.Pipeline.Sweep.{Db, TaskInput, targeted, All₂, sweep-All₂}
use jobbot.Pipeline.Score.{Settings, judged, score_one, score_jobs}
use jobbot.Pipeline.Classify.{classify_one, classify_jobs}
use jobbot.Pipeline.AtsMatch.{match_one, ats_match_resume}
use jobbot.Pipeline.Recommend.{
  recommend_one, visit_suggestion, suggestion_for, evaluate_generation_gate,
}
use jobbot.Pipeline.Chain.{Worker, Message, score, classify, ats_match, gate, deliver, deliver_all}

abbrev pub IsMirrored : Job → Type 0
IsMirrored j = j.status ≡ legacy_status_from_canonical j.pipeline_status j.user_status

-- One step along INGESTED -> SCORED or REJECTED, SCORED -> CLASSIFIED -> ATS_ANALYZED -> RESUME_READY.
pub data Edge : PipelineStatus → PipelineStatus → Type 0 where
  accept : Edge PipelineStatus.ingested PipelineStatus.scored
  reject : Edge PipelineStatus.ingested PipelineStatus.rejected
  persona : Edge PipelineStatus.scored PipelineStatus.classified
  keywords : Edge PipelineStatus.classified PipelineStatus.ats_analyzed
  suggest : Edge PipelineStatus.ats_analyzed PipelineStatus.resume_ready

-- What a row keeps: its identity, what the user decided, and what was ingested.
pub record Source : Type 0 where
  pub id : ℕ
  pub user_status : UserStatus
  pub dedup_hash : Text
  pub title : Text
  pub normalized_title : Text
  pub normalized_company : Text
  pub url : Text
  pub apply_url : Option Text
  pub description : Option Text
  pub source_role : Option SourceRole
  pub resolution_status : Option ResolutionStatus
  pub stale_flag : Bool

abbrev pub source_of : Job → Source
source_of j = record {
  id = j.id;
  user_status = j.user_status;
  dedup_hash = j.dedup_hash;
  title = j.title;
  normalized_title = j.normalized_title;
  normalized_company = j.normalized_company;
  url = j.url;
  apply_url = j.apply_url;
  description = j.description;
  source_role = j.source_role;
  resolution_status = j.resolution_status;
  stale_flag = j.stale_flag;
}

-- What one visit does to a row: either it takes one step along an edge and derives the legacy status
-- anew, or it leaves both statuses.
pub record Visited (a b : Job) : Type 0 where
  pub same : source_of b ≡ source_of a
  pub moved :
      (Edge a.pipeline_status b.pipeline_status × IsMirrored b)
      ⊎ ((b.pipeline_status ≡ a.pipeline_status) × (b.status ≡ a.status))

Visited-refl : (a : Job) → Visited a a
Visited-refl a = record { same = refl; moved = inr (refl, refl) }

Edge-from : {p q r : PipelineStatus} → status_eq p q ≡ true → Edge q r → Edge p r
Edge-from {p} {q} {r} e h = subst (λ (x : PipelineStatus). Edge x r) (sym (status_eq_sound p q e)) h

targeted_status :
    (input : TaskInput) (s : PipelineStatus) (j : Job)
    → targeted input s j ≡ true
    → status_eq j.pipeline_status s ≡ true
unfolding targeted
targeted_status input s j h = (and-eq-true _ _ h).0

judged-Edge : (st : Settings) (total : ℕ) → Edge PipelineStatus.ingested (judged st total)
judged-Edge st total = elim (Bool-cases (ltb total st.scoring_threshold)) [
  | inl e ↦ rw e reject
  | inr e ↦ rw e accept
]

score_one-Visited :
    (st : Settings) (input : TaskInput) (j : Job) (table : List JobAnalysis)
    → targeted input PipelineStatus.ingested j ≡ true
    → Visited j (score_one st j table).row
unfolding score_one
score_one-Visited st input j table h = record {
  same = refl;
  moved =
      inl (Edge-from (targeted_status input PipelineStatus.ingested j h) (judged-Edge st _), refl);
}

classify_one-Visited :
    (input : TaskInput) (j : Job) (table : List JobAnalysis)
    → targeted input PipelineStatus.scored j ≡ true
    → Visited j (classify_one j table).row
unfolding classify_one
classify_one-Visited input j table h = record {
  same = refl;
  moved = inl (Edge-from (targeted_status input PipelineStatus.scored j h) persona, refl);
}

match_one-Visited :
    (st : Settings) (input : TaskInput) (j : Job) (table : List JobAnalysis)
    → targeted input PipelineStatus.classified j ≡ true
    → Visited j (match_one st j table).row
unfolding match_one
match_one-Visited st input j table h = elim (Bool-cases (is_nil (text_of j.description))) [
  | inl e ↦ rw e (Visited-refl j)
  | inr e ↦ rw e (record {
    same = refl;
    moved = inl (Edge-from (targeted_status input PipelineStatus.classified j h) keywords, refl);
  })
]

visit_suggestion-Visited :
    (now : ℕ) (j : Job) (table : List JobAnalysis) (s : Option Suggestion)
    → status_eq j.pipeline_status PipelineStatus.ats_analyzed ≡ true
    → Visited j (visit_suggestion now j table s).row
visit_suggestion-Visited now j table none h = record { same = refl; moved = inr (refl, refl) }
visit_suggestion-Visited now j table (some s) h = record {
  same = refl;
  moved = inl (Edge-from h suggest, refl);
}

recommend_one-Visited :
    (catalog : List CatalogRow) (now : ℕ) (j : Job) (table : List JobAnalysis)
    → Visited j (recommend_one catalog now j table).row
unfolding recommend_one
recommend_one-Visited catalog now j table =
    elim (Bool-cases (status_eq j.pipeline_status PipelineStatus.ats_analyzed)) [
      | inl e ↦ rw e (visit_suggestion-Visited now j table (suggestion_for catalog j table) e)
      | inr e ↦ rw e (Visited-refl j)
    ]

pub deliver-Visited :
    (w : Worker) (m : Message) (db : Db) → All₂ Visited db.jobs (deliver w m db).jobs
unfolding deliver score_jobs classify_jobs ats_match_resume evaluate_generation_gate
deliver-Visited w (score input) db =
    sweep-All₂ _ _ Visited Visited-refl (score_one-Visited w.settings input) db.jobs db.analyses
deliver-Visited w (classify input) db =
    sweep-All₂ _ _ Visited Visited-refl (classify_one-Visited input) db.jobs db.analyses
deliver-Visited w (ats_match input) db =
    sweep-All₂ _ _ Visited Visited-refl (match_one-Visited w.settings input) db.jobs db.analyses
deliver-Visited w (gate now input) db =
    sweep-All₂ _ _ Visited Visited-refl (λ j table h. recommend_one-Visited w.catalog now j table)
      db.jobs db.analyses

pub Visited-IsMirrored : {a b : Job} → Visited a b → IsMirrored a → IsMirrored b
Visited-IsMirrored {a} {b} v h =
    mirrored_after a b (ap (λ (r : Source). r.user_status) v.same) v.moved h
  where
    mirrored_after :
        (a b : Job)
        → b.user_status ≡ a.user_status
        → (Edge a.pipeline_status b.pipeline_status × IsMirrored b)
          ⊎ ((b.pipeline_status ≡ a.pipeline_status) × (b.status ≡ a.status))
        → IsMirrored a
        → IsMirrored b
    mirrored_after a b u (inl (e, m)) h = m
    mirrored_after a b u (inr (p, s)) h = cc

All-Visited :
    (rows rows' : List Job) → All₂ Visited rows rows' → All IsMirrored rows → All IsMirrored rows'
All-Visited [] [] v h = tt
All-Visited [] (b ∷ bs) v h = absurd v
All-Visited (a ∷ rest) [] v h = absurd v
All-Visited (a ∷ rest) (b ∷ bs) v h = (Visited-IsMirrored v.0 h.0, All-Visited rest bs v.1 h.1)

-- The legacy status mirrors the two canonical ones in every row after any sequence of deliveries,
-- if it does so before.
pub deliver_all-IsMirrored :
    (w : Worker) (ms : List Message) (db : Db)
    → All IsMirrored db.jobs
    → All IsMirrored (deliver_all w ms db).jobs
unfolding deliver_all
deliver_all-IsMirrored w [] db h = h
deliver_all-IsMirrored w (m ∷ ms) db h =
    deliver_all-IsMirrored w ms (deliver w m db)
      (All-Visited db.jobs (deliver w m db).jobs (deliver-Visited w m db) h)
