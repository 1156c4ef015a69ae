-- ===== src/Pipeline/Isolation.antt =====
-- Which rows a chain leaves alone.
use jobbot.Prelude.{
  ℕ, ◌≡◌, refl, inl, inr, true, false, List, [], ◌∷◌, All, Among, mem, is_nil, ==_iff, and-eq-true,
  Bool-cases, ◌==◌,
}
use jobbot.Status.{PipelineStatus, status_eq}
use jobbot.Model.{Job, JobAnalysis}
use jobbot.Scoring.{text_of}
use jobbot.Pipeline.Sweep.{
  Db, TaskInput, ids, chain_output, chosen, targeted, Visit, sweep, sweep_passes, sweep-All_ids,
}
use jobbot.Pipeline.Score.{score_one, score_jobs}
use jobbot.Pipeline.Classify.{classify_one, classify_jobs}
use jobbot.Pipeline.AtsMatch.{match_one, ats_match_resume}
use jobbot.Pipeline.Recommend.{recommend_one, listed, evaluate_generation_gate}
use jobbot.Pipeline.Chain.{Worker, run_chain}
use jobbot.Pipeline.Progress.{Passes, score_stage, classify_stage, chosen_of_mem, chosen_of_mem_ids}

-- An input that names the ids `is`, of which there are some.
record Names (input : TaskInput) (is : List ℕ) : Type 0 where
  exact : (k : ℕ) → chosen input k ≡ mem k is

Names-ids : (is : List ℕ) (k : ℕ) → mem k is ≡ true → Names (ids is) is
unfolding chosen
Names-ids [] k m = cc m
Names-ids (i ∷ is) k m = record { exact = λ n. refl }

Names-chain : (is : List ℕ) (k : ℕ) → mem k is ≡ true → Names (chain_output is) is
unfolding chosen
Names-chain [] k m = cc m
Names-chain (i ∷ is) k m = record { exact = λ n. refl }

targeted_not :
    (input : TaskInput) (is : List ℕ) (p : PipelineStatus) (k : Job)
    → Names input is
    → mem k.id is ≡ false
    → targeted input p k ≡ false
unfolding targeted
targeted_not input is p k names out =
    let e : chosen input k.id ≡ false = rw (names.exact k.id) out in
    elim (Bool-cases (status_eq k.pipeline_status p)) [ inl s ↦ rw (s, e) refl | inr s ↦ rw s refl ]

targeted-mem :
    (input : TaskInput) (is : List ℕ) (p : PipelineStatus) (j : Job)
    → Names input is
    → targeted input p j ≡ true
    → mem j.id is ≡ true
unfolding targeted
targeted-mem input is p j names h =
    let (s, c) = and-eq-true (status_eq j.pipeline_status p) (chosen input j.id) h in
    rw (names.exact j.id) at c

-- What is not among the larger list is not among the smaller.
mem-within :
    (k : ℕ) (xs is : List ℕ) → All (λ i. mem i is ≡ true) xs → mem k is ≡ false → mem k xs ≡ false
mem-within k [] is h out = refl
mem-within k (x ∷ xs) is (here, h) out = elim (Bool-cases (x == k)) [
  | inr e ↦ rw e (mem-within k xs is h out)
  | inl e ↦ let same : x ≡ k = (==_iff x k).0 e in cc (here, same, out)
]

-- One task: the row stays, and the ids that are handed on are among those that were given.
module _ (body : Job → List JobAnalysis → Visit) (input : TaskInput) (is : List ℕ)
    (p : PipelineStatus) (names : Names input is) where
  leaves :
      (k : Job) (db : Db)
      → mem k.id is ≡ false
      → Among k db.jobs
      → Among k (sweep (targeted input p) body db.jobs db.analyses).rows
        × (mem k.id (sweep (targeted input p) body db.jobs db.analyses).job_ids ≡ false)
  leaves k db out among = (
    sweep_passes (targeted input p) body k db.jobs db.analyses (targeted_not input is p k names out)
        among,
    mem-within k.id (sweep (targeted input p) body db.jobs db.analyses).job_ids is
        (sweep-All_ids (targeted input p) body (λ i. mem i is ≡ true)
          (λ j h. targeted-mem input is p j names h) db.jobs db.analyses)
        out,
  )

-- If one of the new jobs that the chain is started for has a description and reaches the scoring
-- threshold, then the chain leaves every row whose id it was not started with exactly as it was.
pub run_chain-isolated :
    (w : Worker) (now : ℕ) (is : List ℕ) (db : Db) (j k : Job)
    → Among j db.jobs
    → mem j.id is ≡ true
    → j.pipeline_status ≡ PipelineStatus.ingested
    → is_nil (text_of j.description) ≡ false
    → Passes w.settings j
    → Among k db.jobs
    → mem k.id is ≡ false
    → Among k (run_chain w now is db).0.jobs
unfolding run_chain score_jobs classify_jobs ats_match_resume evaluate_generation_gate
run_chain-isolated w now is db j k among m fresh described passes there out =
    let scored = score_jobs w.settings (ids is) db in
    let (at, m₁) =
      score_stage w.settings (ids is) j db among (chosen_of_mem_ids is j.id m) fresh described
        passes in
    let i₁ = scored.1.job_ids in
    let classified = classify_jobs (chain_output i₁) scored.0 in
    let (at₂, m₂) = classify_stage (chain_output i₁) j.id scored.0 (chosen_of_mem i₁ j.id m₁) at in
    let i₂ = classified.1.job_ids in
    let matched = ats_match_resume w.settings (chain_output i₂) classified.0 in
    let (k₁, o₁) =
      leaves (score_one w.settings) (ids is) is PipelineStatus.ingested (Names-ids is j.id m) k db
        out there in
    let (k₂, o₂) =
      leaves classify_one (chain_output i₁) i₁ PipelineStatus.scored (Names-chain i₁ j.id m₁) k
        scored.0 o₁ k₁ in
    let (k₃, o₃) =
      leaves (match_one w.settings) (chain_output i₂) i₂ PipelineStatus.classified
        (Names-chain i₂ j.id m₂) k classified.0 o₂ k₂ in
    sweep_passes (listed (chain_output matched.1.job_ids)) (recommend_one w.catalog now) k
      matched.0.jobs matched.0.analyses o₃ k₃
