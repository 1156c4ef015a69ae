-- ===== src/Pipeline/Recommend.antt =====
-- apps/worker/tasks/generation.py: the recommendation gate. `now` is the time of the run.
use jobbot.Prelude.{
  ℕ, Bool, true, false, not, ◌||◌, is_some, List, [], Option, none, some, if◌then◌else◌, length,
  mem,
}
use jobbot.Text.{Text, lit}
use jobbot.Status.{PipelineStatus, legacy_status_from_canonical, status_eq}
use jobbot.Model.{
  Job, JobAnalysis, Persona, backend, platform_infra, hybrid, ScoresJson, Suggestion, empty_scores,
  no_catalog, because,
}
use jobbot.Model.Tables.{find_analysis, upsert}
use jobbot.Scoring.{or_text, text_of}
use jobbot.ResumeMatching.{CatalogRow, suggest_resume_for_job}
use jobbot.Pipeline.Sweep.{Db, TaskInput, nothing, ids, chain_output, Visit, sweep}

pub record GateResult : Type 0 where
  pub evaluated : ℕ
  pub recommended : ℕ
  pub queued : ℕ

-- Persona.value
abbrev pub persona_value : Persona → Text
persona_value backend = lit "BACKEND"
persona_value platform_infra = lit "PLATFORM_INFRA"
persona_value hybrid = lit "HYBRID"

abbrev pub persona_of : Option JobAnalysis → Option Text
persona_of none = none
persona_of (some a) = elim a.matched_persona [ none ↦ none | some p ↦ some (persona_value p) ]

-- `not scores`: None and {}.
abbrev pub no_scores : Option ScoresJson → Bool
no_scores none = true
no_scores (some s) =
    not (is_some s.breakdown || is_some s.classification_signals || is_some s.resume_suggestion)

abbrev pub with_suggestion : Suggestion → JobAnalysis → JobAnalysis
with_suggestion s a = record a {
  persona_specific_scores = some (record empty_scores { resume_suggestion = some s });
}

-- What the commit writes of the analysis row, if there is one. A dict that is not empty is changed in
-- place and assigned again: the mapper compares the column with that same object, finds it unchanged
-- and does not write it.
unfoldable pub store_suggestion : ℕ → Suggestion → List JobAnalysis → List JobAnalysis
unfolding find_analysis upsert
store_suggestion id s table = elim (find_analysis id table) [
  | none ↦ table
  | some a ↦
      if no_scores a.persona_specific_scores then upsert id a (with_suggestion s) table else table
]

abbrev pub visit_suggestion : ℕ → Job → List JobAnalysis → Option Suggestion → Visit
visit_suggestion now job table none = record {
  row = record job {
    generation_eligibility = some "ineligible";
    generation_reason = some no_catalog;
  };
  analyses = table;
  reported = false;
}
visit_suggestion now job table (some s) = record {
  row = record job {
    generation_eligibility = some "eligible";
    generation_reason = some (because s.rationale);
    artifact_ready_at = some now;
    pipeline_status = PipelineStatus.resume_ready;
    status = legacy_status_from_canonical PipelineStatus.resume_ready job.user_status;
  };
  analyses = store_suggestion job.id s table;
  reported = true;
}

unfoldable pub suggestion_for : List CatalogRow → Job → List JobAnalysis → Option Suggestion
suggestion_for catalog job table =
    suggest_resume_for_job (or_text job.title job.normalized_title) (text_of job.description)
      (persona_of (find_analysis job.id table)) catalog

-- One round of the loop: only ATS_ANALYZED jobs are looked at.
unfoldable pub recommend_one : List CatalogRow → ℕ → Job → List JobAnalysis → Visit
recommend_one catalog now job table =
    if not (status_eq job.pipeline_status PipelineStatus.ats_analyzed)
    then record { row = job; analyses = table; reported = false }
    else visit_suggestion now job table (suggestion_for catalog job table)

-- The ids that the gate works on: unlike the tasks before it, none at all for an empty list.
abbrev pub gate_ids : TaskInput → List ℕ
gate_ids nothing = []
gate_ids (ids is) = is
gate_ids (chain_output is) = is

abbrev pub listed : TaskInput → Job → Bool
listed input j = mem j.id (gate_ids input)

unfoldable pub evaluate_generation_gate : List CatalogRow → ℕ → TaskInput → Db → Db × GateResult
unfolding sweep
evaluate_generation_gate catalog now input db =
    let run = sweep (listed input) (recommend_one catalog now) db.jobs db.analyses in
    (
      record { jobs = run.rows; analyses = run.analyses },
      record { evaluated = length (gate_ids input); recommended = length run.job_ids; queued = 0 },
    )
