-- ===== src/Pipeline/Chain.antt =====
-- The chain score -> classify -> ats_match -> recommendation gate that the ingest tasks start, and
-- the tasks as steps that a worker takes in any order and any number of times.
use jobbot.Prelude.{ℕ, List, [], ◌∷◌}
use jobbot.ResumeMatching.{CatalogRow}
use jobbot.Pipeline.Sweep.{Db, TaskInput, ids, chain_output}
use jobbot.Pipeline.Score.{Settings, score_jobs}
use jobbot.Pipeline.Classify.{classify_jobs}
use jobbot.Pipeline.AtsMatch.{ats_match_resume}
use jobbot.Pipeline.Recommend.{GateResult, evaluate_generation_gate}

-- What the worker is configured with: the settings and the resume catalog.
pub record Worker : Type 0 where
  pub settings : Settings
  pub catalog : List CatalogRow

-- A delivered task message. The broker may deliver one twice: the tasks acknowledge late.
pub data Message : Type 0 where
  score classify ats_match : TaskInput → Message
  gate : (now : ℕ) → TaskInput → Message

unfoldable pub deliver : Worker → Message → Db → Db
deliver w (score input) db = (score_jobs w.settings input db).0
deliver w (classify input) db = (classify_jobs input db).0
deliver w (ats_match input) db = (ats_match_resume w.settings input db).0
deliver w (gate now input) db = (evaluate_generation_gate w.catalog now input db).0

-- Messages of any number of chains, in the order in which the workers take them.
unfoldable pub deliver_all : Worker → List Message → Db → Db
deliver_all w [] db = db
deliver_all w (m ∷ ms) db = deliver_all w ms (deliver w m db)

-- (score_jobs.s(ids) | classify_jobs.s() | ats_match_resume.s() | evaluate_generation_gate.s()).delay()
-- when no other task runs in between.
unfoldable pub run_chain : Worker → ℕ → List ℕ → Db → Db × GateResult
run_chain w now inserted_job_ids db =
    let (db₁, scored) = score_jobs w.settings (ids inserted_job_ids) db in
    let (db₂, classified) = classify_jobs (chain_output scored.job_ids) db₁ in
    let (db₃, matched) = ats_match_resume w.settings (chain_output classified.job_ids) db₂ in
    evaluate_generation_gate w.catalog now (chain_output matched.job_ids) db₃
