-- ===== src/GenerationRuns/Settled.antt =====
-- The life cycle of a generation run through its task (apps/worker/tasks/resume.py).
use jobbot.Prelude.{
  ℕ, ◌≡◌, refl, inl, inr, Bool, true, false, List, [], ◌∷◌, Option, none, some, ◌==◌, Bool-cases,
}
use jobbot.Text.{Text, lit, text_eq}
use jobbot.GenerationRuns.{
  GenerationRunStatus, GenerationRun, GenerationStore, find_run, get_run, set_on, as_running,
  as_success, as_failed, Generation, raised, returned, TaskResult, succeeded, gave_error, reraised,
  settle_result, settle_generation, mark_generation_run_success, mark_generation_run_failed,
  mark_generation_run_running, generate_grounded_resume_task,
}

-- The run says what the task returned: the artifact, or a reason.
abbrev pub Tells : TaskResult → GenerationRun → Type 0
Tells (succeeded artifact_id) r =
    (r.status ≡ GenerationRunStatus.success)
    × (r.artifact_id ≡ some artifact_id)
    × (r.failure_reason ≡ none)
Tells (gave_error error) r =
    (r.status ≡ GenerationRunStatus.failed) × (r.failure_reason ≡ some error)
Tells (reraised text) r =
    (r.status ≡ GenerationRunStatus.failed) × ((reason : Text) × (r.failure_reason ≡ some reason))

pub record IsSettled (id now : ℕ) (out : GenerationStore × TaskResult) : Type 0 where
  pub run : GenerationRun
  pub found : get_run (some id) out.0.runs ≡ some run
  pub finished : run.finished_at ≡ some now
  pub told : Tells out.1 run

find_run-set_on :
    (f : GenerationRun → GenerationRun)
    → ((x : GenerationRun) → (f x).id ≡ x.id)
    → (id : ℕ) (runs : List GenerationRun) (r : GenerationRun) → find_run id runs ≡ some r
    → find_run id (set_on f id runs) ≡ some (f r)
find_run-set_on f keeps id [] r h = cc h
find_run-set_on f keeps id (x ∷ runs) r h = elim (Bool-cases (x.id == id)) [
  | inl e ↦
      let row : some x ≡ some r = rw e at h in
      let same : x ≡ r = cc row in
      let here : ((f x).id == id) ≡ true = rw (keeps x) e in rw (e, here) (cc same)
  | inr e ↦ rw (e, e) (find_run-set_on f keeps id runs r (rw e at h))
]

module _ (id : ℕ) (triggered_by : Text) (job_id now : ℕ) where
  failed-IsSettled :
      (reason : Text) (result : TaskResult) (s : GenerationStore) (r : GenerationRun)
      → find_run id s.runs ≡ some r
      → Tells result (as_failed reason now r)
      → IsSettled id now (mark_generation_run_failed (some id) reason now s, result)
  unfolding mark_generation_run_failed get_run
  failed-IsSettled reason result s r found told = record {
    run = as_failed reason now r;
    found = find_run-set_on (as_failed reason now) (λ x. refl) id s.runs r found;
    finished = refl;
    told = told;
  }

  success-IsSettled :
      (artifact_id : ℕ) (s : GenerationStore) (r : GenerationRun)
      → find_run id s.runs ≡ some r
      → IsSettled id now (
        mark_generation_run_success (some id) artifact_id triggered_by job_id now s,
        succeeded artifact_id,
      )
  unfolding mark_generation_run_success get_run
  success-IsSettled artifact_id s r found = record {
    run = as_success artifact_id now r;
    found = find_run-set_on (as_success artifact_id now) (λ x. refl) id s.runs r found;
    finished = refl;
    told = (refl, refl, refl);
  }

  settle_result-IsSettled :
      (is_success : Bool) (artifact : Option ℕ) (error : Option Text) (s : GenerationStore)
      (r : GenerationRun)
      → find_run id s.runs ≡ some r
      → IsSettled id now
          (settle_result (some id) triggered_by job_id now is_success artifact error s)
  settle_result-IsSettled true (some artifact_id) error s r found =
      success-IsSettled artifact_id s r found
  settle_result-IsSettled true none error s r found = failed-IsSettled _ _ s r found (refl, refl)
  settle_result-IsSettled false artifact error s r found =
      failed-IsSettled _ _ s r found (refl, refl)

  settle_generation-IsSettled :
      (generation : Generation) (s : GenerationStore) (r : GenerationRun)
      → find_run id s.runs ≡ some r
      → IsSettled id now (settle_generation (some id) triggered_by job_id now generation s)
  settle_generation-IsSettled (raised text class_name) s r found =
      failed-IsSettled _ _ s r found (refl, (_, refl))
  settle_generation-IsSettled (returned status artifact error) s r found =
      settle_result-IsSettled (text_eq status (lit "success")) artifact error s r found

  -- If the row of the generation run exists, then after the resume task, whatever the generator
  -- returned or raised, the run has the time of its end and tells the outcome: SUCCESS with the
  -- artifact that was returned and without a reason, or FAILED with the error that was returned, or
  -- FAILED with a reason if an exception is raised again.
  pub generate_grounded_resume_task-IsSettled :
      (generation : Generation) (s : GenerationStore) (r : GenerationRun)
      → get_run (some id) s.runs ≡ some r
      → IsSettled id now
          (generate_grounded_resume_task (some id) triggered_by job_id now generation s)
  unfolding generate_grounded_resume_task mark_generation_run_running get_run
  generate_grounded_resume_task-IsSettled generation s r found =
      settle_generation-IsSettled generation (mark_generation_run_running (some id) s)
        (as_running r) (find_run-set_on as_running (λ x. refl) id s.runs r found)
