-- ===== src/Tests/Pipeline.antt =====
-- The tasks at three jobs.
use jobbot.Prelude.{◌≡◌, refl, inl, inr, [], ◌∷◌, All}
use jobbot.Text.{lit, strip}
use jobbot.Status.{status_eq}
use jobbot.Status.{legacy_status_from_canonical}
use jobbot.Scoring.{
  score_job, load_master_skills, score_title_relevance, score_seniority_fit, score_domain_alignment,
  score_tech_stack, score_location_remote, weighted_sum, clamp_round,
}
use jobbot.Pipeline.Sweep.{ids, targeted, chosen}
use jobbot.Pipeline.Score.{score_jobs, score_one}
use jobbot.Pipeline.Chain.{Message, deliver, run_chain}
use jobbot.Pipeline.Invariant.{IsMirrored}
use jobbot.Pipeline.Redelivery.{again, redelivery_harmless}
use jobbot.Pipeline.Progress.{IsReady, Passes, run_chain-IsReady, rejected_chain_takes_over}
use jobbot.Pipeline.Recommend.{evaluate_generation_gate}
use jobbot.Pipeline.Lost.{Scored, suggestions_lost}
use jobbot.Pipeline.Sweep.{Db, sweep}
use jobbot.Model.Tables.{upsert}
use jobbot.Pipeline.Isolation.{run_chain-isolated}
use jobbot.Prelude.{Among}
use jobbot.Tests.Data.{fit_job, waiting_job, unfit_job, settings, worker, three_jobs}

fit_title : score_title_relevance (lit "full stack") ≡ 100
unfolding score_title_relevance strip
fit_title = refl

fit_seniority : score_seniority_fit (lit "full stack") (lit "Go") ≡ 100
unfolding score_seniority_fit
fit_seniority = refl

fit_domain : score_domain_alignment (lit "Go") ≡ 50
unfolding score_domain_alignment
fit_domain = refl

fit_tech :
    score_tech_stack (lit "Go") (load_master_skills settings.master_skills)
    ≡ record { num = 100; den = 1 }
unfolding score_tech_stack load_master_skills
fit_tech = refl

fit_score : (score_job fit_job (load_master_skills settings.master_skills)).0 ≡ 900
unfolding score_job score_location_remote clamp_round weighted_sum
fit_score = rw (fit_title, fit_seniority, fit_domain, fit_tech) refl

unfit_title : score_title_relevance (lit "chef") ≡ 30
unfolding score_title_relevance strip
unfit_title = refl

unfit_seniority : score_seniority_fit (lit "chef") (lit "Us") ≡ 100
unfolding score_seniority_fit
unfit_seniority = refl

unfit_domain : score_domain_alignment (lit "Us") ≡ 50
unfolding score_domain_alignment
unfit_domain = refl

unfit_tech :
    score_tech_stack (lit "Us") (load_master_skills settings.master_skills)
    ≡ record { num = 50; den = 1 }
unfolding score_tech_stack load_master_skills
unfit_tech = refl

unfit_score : (score_job unfit_job (load_master_skills settings.master_skills)).0 ≡ 650
unfolding score_job score_location_remote clamp_round weighted_sum
unfit_score = rw (unfit_title, unfit_seniority, unfit_domain, unfit_tech) refl

fit-Passes : Passes settings fit_job
fit-Passes = rw fit_score refl

unfit_rejected : (score_jobs settings (ids (9 ∷ [])) three_jobs).1.job_ids ≡ []
unfolding score_jobs score_one targeted chosen status_eq
unfit_rejected = rw unfit_score refl

three-IsMirrored : All IsMirrored three_jobs.jobs
unfolding legacy_status_from_canonical
three-IsMirrored = (refl, (refl, (refl, tt)))

run_chain-IsReady_example :
    IsReady worker.catalog 40 7 (run_chain worker 40 (7 ∷ []) three_jobs).0.jobs
run_chain-IsReady_example =
    run_chain-IsReady worker 40 (7 ∷ []) three_jobs fit_job refl (inr (inl refl)) refl refl refl
      fit-Passes

rejected_chain_takes_over_example :
    IsReady worker.catalog 40 8 (run_chain worker 40 (9 ∷ []) three_jobs).0.jobs
rejected_chain_takes_over_example =
    rejected_chain_takes_over worker 40 (9 ∷ []) three_jobs waiting_job refl unfit_rejected
      (inr (inr (inl refl))) refl refl

abbrev first_score : Message
first_score = Message.score (ids (7 ∷ 9 ∷ []))

redelivery_harmless_example :
    deliver worker (again 50 first_score) (deliver worker first_score three_jobs)
    ≡ deliver worker first_score three_jobs
redelivery_harmless_example = redelivery_harmless worker first_score 50 three_jobs

run_chain-isolated_example : Among waiting_job (run_chain worker 40 (7 ∷ 9 ∷ []) three_jobs).0.jobs
run_chain-isolated_example =
    run_chain-isolated worker 40 (7 ∷ 9 ∷ []) three_jobs fit_job waiting_job (inr (inl refl)) refl
      refl refl fit-Passes (inr (inr (inl refl))) refl

abbrev scored_jobs : Db
scored_jobs = deliver worker first_score three_jobs

stored-Scored : All Scored scored_jobs.analyses
unfolding deliver score_jobs targeted score_one sweep upsert
stored-Scored = (refl, (refl, tt))

-- The suggestions for the scored jobs are lost.
gate_stores_nothing :
    (evaluate_generation_gate worker.catalog 40 (ids (7 ∷ [])) scored_jobs).0.analyses
    ≡ scored_jobs.analyses
gate_stores_nothing = suggestions_lost worker.catalog 40 (ids (7 ∷ [])) scored_jobs stored-Scored
