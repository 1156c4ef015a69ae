-- ===== src/Tests/Generation.antt =====
-- A generation run whose generator raises.
use jobbot.Prelude.{◌≡◌, refl, [], ◌∷◌, none, some}
use jobbot.Text.{lit}
use jobbot.GenerationRuns.{
  GenerationRun, GenerationStore, Generation, build_generation_run, get_run,
  generate_grounded_resume_task,
}
use jobbot.GenerationRuns.Settled.{IsSettled, generate_grounded_resume_task-IsSettled}

abbrev queued_run : GenerationRun
queued_run = record (build_generation_run 3 7 (lit "auto")) { finished_at = none }

abbrev store : GenerationStore
store = record { runs = queued_run ∷ []; jobs = []; auto_generated_at = [] }

run_found : get_run (some 3) store.runs ≡ some queued_run
unfolding get_run build_generation_run
run_found = refl

generate_grounded_resume_task-IsSettled_example : IsSettled 3 9 (
    generate_grounded_resume_task
      (some 3)
      (lit "auto")
      7
      9
      (Generation.raised [] (lit "ValueError"))
      store)
generate_grounded_resume_task-IsSettled_example =
    generate_grounded_resume_task-IsSettled 3 (lit "auto") 7 9
      (Generation.raised [] (lit "ValueError")) store queued_run run_found
