-- ===== src/Pipeline/Progress.antt =====
-- How far the chain takes a job.
use jobbot.Prelude.{
  ℕ, ◌+◌, ◌≡◌, ◌≢◌, refl, ◌∙◌, ap, inl, inr, true, false, ◌&&◌, List, [], ◌∷◌, Option, none, some,
  arith, All, Among, any, mem, Option-cases, is_nil, length,
}
use jobbot.Status.{PipelineStatus, status_eq}
use jobbot.Status.Mirror.{status_eq_refl}
use jobbot.Model.{Job, JobAnalysis, Suggestion, because}
use jobbot.Text.{Text}
use jobbot.Model.Tables.{find_analysis}
use jobbot.Scoring.{text_of, or_text, score_job, load_master_skills}
use jobbot.ResumeMatching.{CatalogRow, non_empty, suggest_resume_for_job}
use jobbot.ResumeMatching.Best.{suggest_resume_for_job-none_iff}
use jobbot.Pipeline.Sweep.{
  Db, TaskInput, ids, chain_output, chosen, targeted, Visit, sweep_counts, sweep_passes,
  sweep_reports,
}
use jobbot.Pipeline.Score.{Settings, accepted, judged, score_one, score_jobs}
use jobbot.Pipeline.Classify.{classify_one, classify_jobs}
use jobbot.Pipeline.AtsMatch.{match_one, ats_match_resume}
use jobbot.Pipeline.Recommend.{
  recommend_one, visit_suggestion, suggestion_for, persona_of, listed, evaluate_generation_gate,
}
use jobbot.Pipeline.Chain.{Worker, run_chain}

-- The score task counts every job that it found as rejected or hands it on to the next task.
pub score_jobs_counts :
    (st : Settings) (input : TaskInput) (db : Db)
    → let r = (score_jobs st input db).1 in r.rejected + length r.job_ids ≡ r.scored
unfolding score_jobs
score_jobs_counts st input db =
    sweep_counts (targeted input PipelineStatus.ingested) (score_one st) db.jobs db.analyses

-- The catalog has a resume with an id and a label.
abbrev pub HasResume : List CatalogRow → Type 0
HasResume catalog = any (λ r. non_empty r.id && non_empty r.label) catalog ≡ true

not-All_unusable :
    (catalog : List CatalogRow)
    → HasResume catalog
    → ¬ All (λ r. (non_empty r.id && non_empty r.label) ≡ false) catalog
not-All_unusable [] h all = cc
not-All_unusable (r ∷ rest) h (bad, all) = not-All_unusable rest (rw bad at h) all

has_suggestion :
    (catalog : List CatalogRow) (j : Job) (table : List JobAnalysis)
    → HasResume catalog
    → suggestion_for catalog j table ≢ none
unfolding suggestion_for
has_suggestion catalog j table h e = not-All_unusable catalog h (
    (suggest_resume_for_job-none_iff (or_text j.title j.normalized_title) (text_of j.description)
        (persona_of (find_analysis j.id table)) catalog).0
      e)

-- A job that is `id` and is at `p`, with a description, is among the rows.
pub record At (p : PipelineStatus) (k : ℕ) (rows : List Job) : Type 0 where
  pub job : Job
  pub found : Among job rows
  pub id : job.id ≡ k
  pub status : job.pipeline_status ≡ p
  pub described : is_nil (text_of job.description) ≡ false

pub chosen_of_mem : (is : List ℕ) (k : ℕ) → mem k is ≡ true → chosen (chain_output is) k ≡ true
unfolding chosen
chosen_of_mem [] k h = refl
chosen_of_mem (i ∷ is) k h = h

pub chosen_of_mem_ids : (is : List ℕ) (k : ℕ) → mem k is ≡ true → chosen (ids is) k ≡ true
unfolding chosen
chosen_of_mem_ids [] k h = refl
chosen_of_mem_ids (i ∷ is) k h = h

-- `if ids:` fails for an empty list too.
chosen_empty : (k : ℕ) → chosen (chain_output []) k ≡ true
unfolding chosen
chosen_empty k = refl

targeted_of :
    (input : TaskInput) (p : PipelineStatus) (j : Job)
    → j.pipeline_status ≡ p
    → chosen input j.id ≡ true
    → targeted input p j ≡ true
unfolding targeted
targeted_of input p j e h = rw (e, status_eq_refl p, h) refl

-- Classification takes a SCORED job that it is given to CLASSIFIED, and hands it on.
pub classify_stage :
    (input : TaskInput) (k : ℕ) (db : Db)
    → chosen input k ≡ true
    → At PipelineStatus.scored k db.jobs
    → At PipelineStatus.classified k (classify_jobs input db).0.jobs
      × (mem k (classify_jobs input db).1.job_ids ≡ true)
unfolding classify_jobs classify_one
classify_stage input k db c at =
    let (b, v, found, reported) =
      sweep_reports (targeted input PipelineStatus.scored) classify_one at.job db.jobs db.analyses
        (targeted_of input PipelineStatus.scored at.job at.status (rw at.id c)) (λ t. refl)
        at.found in
    (
      record {
        job = b;
        found = found;
        id = rw v.same at.id;
        status = rw v.same refl;
        described = rw v.same at.described;
      },
      rw at.id at reported,
    )

-- The ATS task takes a CLASSIFIED job with a description to ATS_ANALYZED, and hands it on.
ats_stage :
    (st : Settings) (input : TaskInput) (k : ℕ) (db : Db)
    → chosen input k ≡ true
    → At PipelineStatus.classified k db.jobs
    → At PipelineStatus.ats_analyzed k (ats_match_resume st input db).0.jobs
      × (mem k (ats_match_resume st input db).1.job_ids ≡ true)
unfolding ats_match_resume match_one
ats_stage st input k db c at =
    let (b, v, found, reported) =
      sweep_reports (targeted input PipelineStatus.classified) (match_one st) at.job db.jobs
        db.analyses (targeted_of input PipelineStatus.classified at.job at.status (rw at.id c))
        (λ t. rw at.described refl) at.found in
    let same = rw at.described at v.same in
    (
      record {
        job = b;
        found = found;
        id = rw same at.id;
        status = rw same refl;
        described = rw same at.described;
      },
      rw at.id at reported,
    )

-- A job that is ready since `now`, for the reason of a resume that is suggested for its texts, is
-- among the rows.
pub record IsReady (catalog : List CatalogRow) (now k : ℕ) (rows : List Job) : Type 0 where
  pub job : Job
  pub found : Among job rows
  pub id : job.id ≡ k
  pub status : job.pipeline_status ≡ PipelineStatus.resume_ready
  pub since : job.artifact_ready_at ≡ some now
  pub eligible : job.generation_eligibility ≡ some "eligible"
  pub persona : Option Text
  pub suggestion : Suggestion
  pub suggested :
      suggest_resume_for_job
        (or_text job.title job.normalized_title)
        (text_of job.description)
        persona
        catalog
      ≡ some suggestion
  pub reason : job.generation_reason ≡ some (because suggestion.rationale)

recommended :
    (catalog : List CatalogRow) (now : ℕ) (j : Job) (table : List JobAnalysis)
    → HasResume catalog
    → j.pipeline_status ≡ PipelineStatus.ats_analyzed
    → (s : Suggestion) × (recommend_one catalog now j table ≡ visit_suggestion now j table (some s))
      × (suggestion_for catalog j table ≡ some s)
unfolding recommend_one
recommended catalog now j table h e = elim (Option-cases (suggestion_for catalog j table)) [
  | inl missing ↦ absurd (has_suggestion catalog j table h missing)
  | inr (s, found) ↦
      let q : status_eq j.pipeline_status PipelineStatus.ats_analyzed ≡ true =
        rw e (status_eq_refl PipelineStatus.ats_analyzed) in
      (s, rw (q, found) refl, found)
]

-- The gate marks an ATS_ANALYZED job as ready if the catalog has a resume.
gate_stage :
    (catalog : List CatalogRow) (now : ℕ) (is : List ℕ) (k : ℕ) (db : Db)
    → HasResume catalog
    → mem k is ≡ true
    → At PipelineStatus.ats_analyzed k db.jobs
    → IsReady catalog now k (evaluate_generation_gate catalog now (chain_output is) db).0.jobs
unfolding evaluate_generation_gate suggestion_for
gate_stage catalog now is k db h m at =
    let (b, v, found, reported) =
      sweep_reports (listed (chain_output is)) (recommend_one catalog now) at.job db.jobs
        db.analyses (rw at.id m)
        (λ t. let (s, e, f) = recommended catalog now at.job t h at.status in rw e refl) at.found in
    let (s, e, suggested) = recommended catalog now at.job v.table h at.status in
    let same = v.same ∙ ap (λ (x : Visit). x.row) e in
    record {
      job = b;
      found = found;
      id = rw same at.id;
      status = rw same refl;
      since = rw same refl;
      eligible = rw same refl;
      persona = persona_of (find_analysis at.job.id v.table);
      suggestion = s;
      suggested = rw same suggested;
      reason = rw same refl;
    }

-- From classification on, the chain takes every SCORED job with a description that it is given to
-- RESUME_READY.
rest_of_chain :
    (w : Worker) (now : ℕ) (is : List ℕ) (k : ℕ) (db : Db)
    → HasResume w.catalog
    → chosen (chain_output is) k ≡ true
    → At PipelineStatus.scored k db.jobs
    → let classified = classify_jobs (chain_output is) db in
      let matched = ats_match_resume w.settings (chain_output classified.1.job_ids) classified.0 in
      IsReady w.catalog now k
        (evaluate_generation_gate w.catalog now (chain_output matched.1.job_ids) matched.0).0.jobs
rest_of_chain w now is k db h c at =
    let classified = classify_jobs (chain_output is) db in
    let (at₂, m₂) = classify_stage (chain_output is) k db c at in
    let matched = ats_match_resume w.settings (chain_output classified.1.job_ids) classified.0 in
    let (at₃, m₃) =
      ats_stage w.settings (chain_output classified.1.job_ids) k classified.0
        (chosen_of_mem classified.1.job_ids k m₂) at₂ in
    gate_stage w.catalog now matched.1.job_ids k matched.0 h m₃ at₃

-- The job reaches the scoring threshold.
abbrev pub Passes : Settings → Job → Type 0
Passes st j = accepted st (score_job j (load_master_skills st.master_skills)).0 ≡ true

judged-accepted :
    (st : Settings) (total : ℕ) → accepted st total ≡ true → judged st total ≡ PipelineStatus.scored
judged-accepted st total h = ground arith

-- Scoring takes a new job that reaches the threshold to SCORED, and hands it on.
pub score_stage :
    (st : Settings) (input : TaskInput) (j : Job) (db : Db)
    → Among j db.jobs
    → chosen input j.id ≡ true
    → j.pipeline_status ≡ PipelineStatus.ingested
    → is_nil (text_of j.description) ≡ false
    → Passes st j
    → At PipelineStatus.scored j.id (score_jobs st input db).0.jobs
      × (mem j.id (score_jobs st input db).1.job_ids ≡ true)
unfolding score_jobs score_one
score_stage st input j db among c fresh described passes =
    let (b, v, found, reported) =
      sweep_reports (targeted input PipelineStatus.ingested) (score_one st) j db.jobs db.analyses
        (targeted_of input PipelineStatus.ingested j fresh c) (λ t. passes) among in
    (
      record {
        job = b;
        found = found;
        id = rw v.same refl;
        status =
            ap (λ (x : Job). x.pipeline_status) v.same
            ∙ judged-accepted st (score_job j (load_master_skills st.master_skills)).0 passes;
        described = rw v.same described;
      },
      reported,
    )

-- A job that is not new is there after scoring as before.
score_passes :
    (st : Settings) (input : TaskInput) (k : Job) (db : Db)
    → Among k db.jobs
    → k.pipeline_status ≡ PipelineStatus.scored
    → Among k (score_jobs st input db).0.jobs
unfolding score_jobs targeted status_eq
score_passes st input k db among scored =
    sweep_passes (targeted input PipelineStatus.ingested) (score_one st) k db.jobs db.analyses
      (rw scored refl) among

-- The chain takes every new job with a description that it is started for, and that reaches the
-- scoring threshold, to RESUME_READY as eligible, ready since the time of the run and with the
-- rationale of a resume that is suggested for its title and description as the reason, if the
-- catalog has a resume with an id and a label and no other task runs in between.
pub run_chain-IsReady :
    (w : Worker) (now : ℕ) (is : List ℕ) (db : Db) (j : Job)
    → HasResume w.catalog
    → Among j db.jobs
    → mem j.id is ≡ true
    → j.pipeline_status ≡ PipelineStatus.ingested
    → is_nil (text_of j.description) ≡ false
    → Passes w.settings j
    → IsReady w.catalog now j.id (run_chain w now is db).0.jobs
unfolding run_chain
run_chain-IsReady w now is db j h among m fresh described passes =
    let scored = score_jobs w.settings (ids is) db in
    let (at, m₁) =
      score_stage w.settings (ids is) j db among (chosen_of_mem_ids is j.id m) fresh described
        passes in
    rest_of_chain w now scored.1.job_ids j.id scored.0 h (chosen_of_mem scored.1.job_ids j.id m₁) at

-- If the chain's own jobs are all rejected, the score task hands an empty list on, and the rest of
-- the chain takes every other SCORED job with a description of the whole table to RESUME_READY, if
-- the catalog has a resume.
pub rejected_chain_takes_over :
    (w : Worker) (now : ℕ) (is : List ℕ) (db : Db) (k : Job)
    → HasResume w.catalog
    → (score_jobs w.settings (ids is) db).1.job_ids ≡ []
    → Among k db.jobs
    → k.pipeline_status ≡ PipelineStatus.scored
    → is_nil (text_of k.description) ≡ false
    → IsReady w.catalog now k.id (run_chain w now is db).0.jobs
unfolding run_chain
rejected_chain_takes_over w now is db k h empty among scored described =
    let scored_db = score_jobs w.settings (ids is) db in
    rest_of_chain w now scored_db.1.job_ids k.id scored_db.0 h (rw empty (chosen_empty k.id))
      record {
        job = k;
        found = score_passes w.settings (ids is) k db among scored;
        id = refl;
        status = scored;
        described = described;
      }
