-- ===== src/Pipeline/Lost.antt =====
-- What the gate stores of its suggestions (apps/worker/tasks/generation.py).
use jobbot.Prelude.{
  ℕ, ◌≡◌, refl, Bool, false, Bool-cases, inl, inr, List, [], ◌∷◌, Option, none, some, All,
  Option-cases, ◌==◌,
}
use jobbot.Status.{PipelineStatus, status_eq}
use jobbot.Model.{Job, JobAnalysis, Suggestion}
use jobbot.Model.Tables.{find_analysis}
use jobbot.ResumeMatching.{CatalogRow}
use jobbot.Pipeline.Sweep.{Db, TaskInput, Visit, sweep}
use jobbot.Pipeline.Recommend.{
  no_scores, store_suggestion, visit_suggestion, suggestion_for, recommend_one, listed,
  evaluate_generation_gate,
}

-- The row stores scores, as every row that the scoring or the classification task has written.
abbrev pub Scored : JobAnalysis → Type 0
Scored a = no_scores a.persona_specific_scores ≡ false

found-Scored :
    (id : ℕ) (table : List JobAnalysis) (a : JobAnalysis)
    → All Scored table
    → find_analysis id table ≡ some a
    → Scored a
unfolding find_analysis
found-Scored id [] a all h = cc h
found-Scored id (b ∷ table) a all h = elim (Bool-cases (b.job_id == id)) [
  | inl e ↦ let row : some b ≡ some a = rw e at h in let same : b ≡ a = cc row in rw (← same) all.0
  | inr e ↦ found-Scored id table a all.1 (rw e at h)
]

store_suggestion-same :
    (id : ℕ) (s : Suggestion) (table : List JobAnalysis)
    → All Scored table
    → store_suggestion id s table ≡ table
unfolding store_suggestion
store_suggestion-same id s table all = elim (Option-cases (find_analysis id table)) [
  | inl e ↦ rw (store_suggestion, e) refl
  | inr (a, e) ↦ rw (store_suggestion, e, found-Scored id table a all e) refl
]

sweep-same :
    (selects : Job → Bool) (body : Job → List JobAnalysis → Visit) (table : List JobAnalysis)
    → ((j : Job) → (body j table).analyses ≡ table)
    → (rows : List Job) → (sweep selects body rows table).analyses ≡ table
unfolding sweep
sweep-same selects body table same [] = refl
sweep-same selects body table same (j ∷ js) = elim (Bool-cases (selects j)) [
  | inl c ↦ rw (c, sweep, same j) (sweep-same selects body table same js)
  | inr c ↦ rw (c, sweep) (sweep-same selects body table same js)
]

module _ (catalog : List CatalogRow) (now : ℕ) (table : List JobAnalysis)
    (all : All Scored table) where
  visit_suggestion-same :
      (j : Job) (o : Option Suggestion) → (visit_suggestion now j table o).analyses ≡ table
  visit_suggestion-same j none = refl
  visit_suggestion-same j (some s) = store_suggestion-same j.id s table all

  recommend_one-same : (j : Job) → (recommend_one catalog now j table).analyses ≡ table
  unfolding recommend_one
  recommend_one-same j =
      elim (Bool-cases (status_eq j.pipeline_status PipelineStatus.ats_analyzed)) [
        | inl e ↦ rw e (visit_suggestion-same j (suggestion_for catalog j table))
        | inr e ↦ rw e refl
      ]

-- Where every analysis stores scores, the gate stores none of its suggestions.
pub suggestions_lost :
    (catalog : List CatalogRow) (now : ℕ) (input : TaskInput) (db : Db)
    → All Scored db.analyses
    → (evaluate_generation_gate catalog now input db).0.analyses ≡ db.analyses
unfolding evaluate_generation_gate
suggestions_lost catalog now input db all =
    sweep-same (listed input) (recommend_one catalog now) db.analyses
      (recommend_one-same catalog now db.analyses all) db.jobs
