-- ===== src/GenerationRuns.antt =====
-- apps/worker/tasks/generation_runs.py and apps/worker/tasks/resume.py. What
-- `generate_grounded_resume` does, and the clock, are arguments. The column jobs.auto_generated_at
-- stands in a list of its own, by the job's id.
pub mod Settled
use jobbot.Prelude.{
  ℕ, Bool, true, false, ◌&&◌, List, [], ◌∷◌, Option, none, some, ◌==◌, is_some, if◌then◌else◌,
}
use jobbot.Text.{Text, lit, text_eq}
use jobbot.Model.{Job}
use jobbot.Model.Tables.{find_job}

pub data GenerationRunStatus : Type 0 where
  queued running success failed skipped : GenerationRunStatus

pub record GenerationRun : Type 0 where
  pub id : ℕ
  pub job_id : ℕ
  pub status : GenerationRunStatus
  pub failure_reason : Option Text
  pub artifact_id : Option ℕ
  pub triggered_by : Option Text
  pub finished_at : Option ℕ

pub record GenerationStore : Type 0 where
  pub runs : List GenerationRun
  pub jobs : List Job
  pub auto_generated_at : List (ℕ × ℕ)

unfoldable pub build_generation_run : (id job_id : ℕ) → (triggered_by : Text) → GenerationRun
build_generation_run id job_id triggered_by = record {
  id = id;
  job_id = job_id;
  status = queued;
  failure_reason = none;
  artifact_id = none;
  triggered_by = some triggered_by;
  finished_at = none;
}

abbrev pub find_run : ℕ → List GenerationRun → Option GenerationRun
find_run id [] = none
find_run id (r ∷ runs) = if r.id == id then some r else find_run id runs

unfoldable pub get_run : (generation_run_id : Option ℕ) → List GenerationRun → Option GenerationRun
get_run none runs = none
get_run (some id) runs = find_run id runs

-- The attributes that are set on the run of the id, if there is one.
abbrev pub set_on : (GenerationRun → GenerationRun) → ℕ → List GenerationRun → List GenerationRun
set_on f id [] = []
set_on f id (r ∷ runs) = if r.id == id then f r ∷ runs else r ∷ set_on f id runs

abbrev pub mark :
    (GenerationRun → GenerationRun)
    → (generation_run_id : Option ℕ) → List GenerationRun
    → List GenerationRun
mark f none runs = runs
mark f (some id) runs = set_on f id runs

abbrev pub as_running : GenerationRun → GenerationRun
as_running run = record run { status = running; finished_at = none; failure_reason = none }

unfoldable pub mark_generation_run_running : Option ℕ → GenerationStore → GenerationStore
mark_generation_run_running generation_run_id s = record s {
  runs = mark as_running generation_run_id s.runs;
}

abbrev pub as_success : (artifact_id now : ℕ) → GenerationRun → GenerationRun
as_success artifact_id now run = record run {
  status = success;
  artifact_id = some artifact_id;
  failure_reason = none;
  finished_at = some now;
}

-- `if triggered_by == "auto"`, for a job that is there.
abbrev note_auto : (triggered_by : Text) → (job_id now : ℕ) → GenerationStore → List (ℕ × ℕ)
note_auto triggered_by job_id now s =
    if text_eq triggered_by (lit "auto") && is_some (find_job job_id s.jobs)
    then (job_id, now) ∷ s.auto_generated_at
    else s.auto_generated_at

unfoldable pub mark_generation_run_success :
    Option ℕ
    → (artifact_id : ℕ) → (triggered_by : Text) → (job_id now : ℕ) → GenerationStore
    → GenerationStore
unfolding text_eq find_job get_run
mark_generation_run_success generation_run_id artifact_id triggered_by job_id now s = record s {
  runs = mark (as_success artifact_id now) generation_run_id s.runs;
  auto_generated_at =
      if is_some (get_run generation_run_id s.runs)
      then note_auto triggered_by job_id now s
      else s.auto_generated_at;
}

abbrev pub as_failed : (reason : Text) → (now : ℕ) → GenerationRun → GenerationRun
as_failed reason now run = record run {
  status = failed;
  failure_reason = some reason;
  finished_at = some now;
}

unfoldable pub mark_generation_run_failed :
    Option ℕ → (reason : Text) → (now : ℕ) → GenerationStore → GenerationStore
mark_generation_run_failed generation_run_id reason now s = record s {
  runs = mark (as_failed reason now) generation_run_id s.runs;
}

-- What `generate_grounded_resume` does: it raises, or returns a result.
pub data Generation : Type 0 where
  raised : (text class_name : Text) → Generation
  returned : (status : Text) → (artifact_id : Option ℕ) → (error : Option Text) → Generation

-- What the task returns, or the exception that it raises again.
pub data TaskResult : Type 0 where
  succeeded : (artifact_id : ℕ) → TaskResult
  gave_error : (error : Text) → TaskResult
  reraised : (text : Text) → TaskResult

abbrev or_text : Text → Text → Text
or_text [] d = d
or_text (c ∷ s) d = c ∷ s

abbrev error_or_unknown : Option Text → Text
error_or_unknown none = lit "Unknown error"
error_or_unknown (some e) = or_text e (lit "Unknown error")

module _ (generation_run_id : Option ℕ) (triggered_by : Text) (job_id now : ℕ) where
  abbrev give_up : Option Text → GenerationStore → GenerationStore × TaskResult
  give_up error s = (
    mark_generation_run_failed generation_run_id (error_or_unknown error) now s,
    gave_error (error_or_unknown error),
  )

  abbrev pub settle_result :
      (is_success : Bool) → Option ℕ → Option Text → GenerationStore → GenerationStore × TaskResult
  settle_result true (some artifact_id) error s = (
    mark_generation_run_success generation_run_id artifact_id triggered_by job_id now s,
    succeeded artifact_id,
  )
  settle_result true none error s = give_up error s
  settle_result false artifact error s = give_up error s

  abbrev pub settle_generation : Generation → GenerationStore → GenerationStore × TaskResult
  settle_generation (raised text class_name) s =
      (mark_generation_run_failed generation_run_id (or_text text class_name) now s, reraised text)
  settle_generation (returned status artifact error) s =
      settle_result (text_eq status (lit "success")) artifact error s

  unfoldable pub generate_grounded_resume_task :
      Generation → GenerationStore → GenerationStore × TaskResult
  unfolding mark_generation_run_running mark_generation_run_success mark_generation_run_failed
      text_eq
  generate_grounded_resume_task generation s =
      settle_generation generation (mark_generation_run_running generation_run_id s)
