-- ===== src/Pipeline/Redelivery.antt =====
-- The second delivery of a message (apps/worker/tasks). The tasks acknowledge a message only
-- when they are done, so the broker may deliver it again.
use jobbot.Prelude.{
  ℕ, ◌≡◌, refl, inl, inr, Bool, true, false, List, Option, none, some, arith, Bool-cases, is_nil,
}
use jobbot.Status.{PipelineStatus, status_eq}
use jobbot.Model.{Job, JobAnalysis, Suggestion}
use jobbot.Model.Tables.{find_analysis}
use jobbot.Scoring.{text_of, or_text}
use jobbot.ResumeMatching.{CatalogRow}
use jobbot.ResumeMatching.Best.{suggest_resume_for_job-none_iff}
use jobbot.Pipeline.Sweep.{
  Db, TaskInput, targeted, Visit, Swept, sweep, Settled, sweep-All, sweep-Settled,
}
use jobbot.Pipeline.Score.{Settings, judged, score_one, score_jobs}
use jobbot.Pipeline.Classify.{classify_one, classify_jobs}
use jobbot.Pipeline.AtsMatch.{match_one, ats_match_resume}
use jobbot.Pipeline.Recommend.{
  recommend_one, visit_suggestion, suggestion_for, persona_of, listed, evaluate_generation_gate,
}
use jobbot.Pipeline.Chain.{Worker, Message, score, classify, ats_match, gate, deliver}

not_targeted :
    (input : TaskInput) (s : PipelineStatus) (j : Job)
    → status_eq j.pipeline_status s ≡ false
    → targeted input s j ≡ false
unfolding targeted
not_targeted input s j e = rw e refl

judged_not_ingested :
    (st : Settings) (total : ℕ) → status_eq (judged st total) PipelineStatus.ingested ≡ false
unfolding status_eq
judged_not_ingested st total = ground arith

score_one-Settled :
    (st : Settings) (input : TaskInput) (j : Job) (table : List JobAnalysis)
    → Settled (targeted input PipelineStatus.ingested) (score_one st) (score_one st j table).row
unfolding score_one
score_one-Settled st input j table = inl (not_targeted input _ _ (judged_not_ingested st _))

classify_one-Settled :
    (input : TaskInput) (j : Job) (table : List JobAnalysis)
    → Settled (targeted input PipelineStatus.scored) classify_one (classify_one j table).row
unfolding classify_one
classify_one-Settled input j table =
    inl (not_targeted input PipelineStatus.scored _ (unfold status_eq in refl))

match_one-Settled :
    (st : Settings) (input : TaskInput) (j : Job) (table : List JobAnalysis)
    → Settled (targeted input PipelineStatus.classified) (match_one st) (match_one st j table).row
unfolding match_one
match_one-Settled st input j table = elim (Bool-cases (is_nil (text_of j.description))) [
  | inl e ↦ rw e (inr (λ later. rw e refl))
  | inr e ↦ rw e (inl (not_targeted input PipelineStatus.classified _ (unfold status_eq in refl)))
]

-- Whether there is a suggestion depends on the catalog alone.
no_suggestion :
    (catalog : List CatalogRow) (j k : Job) (table table' : List JobAnalysis)
    → suggestion_for catalog j table ≡ none
    → suggestion_for catalog k table' ≡ none
unfolding suggestion_for
no_suggestion catalog j k table table' h = (suggest_resume_for_job-none_iff _ _ _ catalog).1 (
    (suggest_resume_for_job-none_iff (or_text j.title j.normalized_title) (text_of j.description)
        (persona_of (find_analysis j.id table)) catalog).0
      h)

module _ (catalog : List CatalogRow) (now later : ℕ) (selects : Job → Bool) where
  visit_suggestion-Settled :
      (j : Job) (table : List JobAnalysis) (s : Option Suggestion)
      → status_eq j.pipeline_status PipelineStatus.ats_analyzed ≡ true
      → suggestion_for catalog j table ≡ s
      → Settled selects (recommend_one catalog later) (visit_suggestion now j table s).row
  unfolding recommend_one status_eq
  visit_suggestion-Settled j table (some s) e h = inr (λ again. refl)
  visit_suggestion-Settled j table none e h =
      inr (λ again. rw (e, no_suggestion catalog j _ table again h) refl)

  recommend_one-Settled :
      (j : Job) (table : List JobAnalysis)
      → Settled selects (recommend_one catalog later) (recommend_one catalog now j table).row
  unfolding recommend_one
  recommend_one-Settled j table =
      elim (Bool-cases (status_eq j.pipeline_status PipelineStatus.ats_analyzed)) [
        | inl e ↦ rw e (visit_suggestion-Settled j table (suggestion_for catalog j table) e refl)
        | inr e ↦ rw e (inr (λ again. rw e refl))
      ]

-- The same message at another time of day.
abbrev pub again : ℕ → Message → Message
again later (gate now input) = gate later input
again later m = m

Db-path : (a b : Db) → a.jobs ≡ b.jobs → a.analyses ≡ b.analyses → a ≡ b
Db-path a b p q = λ i. record { jobs = p i; analyses = q i }

abbrev swept_db : Swept → Db
swept_db run = record { jobs = run.rows; analyses = run.analyses }

resweep :
    (selects : Job → Bool) (body body' : Job → List JobAnalysis → Visit) (db : Db)
    → ((j : Job) (table : List JobAnalysis) → Settled selects body' (body j table).row)
    → let once = sweep selects body db.jobs db.analyses in
      swept_db (sweep selects body' once.rows once.analyses) ≡ swept_db once
resweep selects body body' db settles =
    let once = sweep selects body db.jobs db.analyses in
    let (rows, analyses, ids) = sweep-Settled selects body' once.rows once.analyses (
      sweep-All selects body (Settled selects body') (λ j e. inl e) (λ j table e. settles j table)
        db.jobs db.analyses) in
    Db-path (swept_db (sweep selects body' once.rows once.analyses)) (swept_db once) rows analyses

-- A task message that is delivered a second time right after the first, however much later, leaves
-- the jobs and the analyses as they are.
pub redelivery_harmless :
    (w : Worker) (m : Message) (later : ℕ) (db : Db)
    → deliver w (again later m) (deliver w m db) ≡ deliver w m db
unfolding deliver score_jobs classify_jobs ats_match_resume evaluate_generation_gate
redelivery_harmless w (score input) later db =
    resweep (targeted input PipelineStatus.ingested) _ (score_one w.settings) db
      (score_one-Settled w.settings input)
redelivery_harmless w (classify input) later db =
    resweep (targeted input PipelineStatus.scored) _ classify_one db (classify_one-Settled input)
redelivery_harmless w (ats_match input) later db =
    resweep (targeted input PipelineStatus.classified) _ (match_one w.settings) db
      (match_one-Settled w.settings input)
redelivery_harmless w (gate now input) later db =
    resweep (listed input) _ (recommend_one w.catalog later) db
      (recommend_one-Settled w.catalog now later (listed input))
