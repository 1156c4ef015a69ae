-- ===== src/Model/Tables.antt =====
-- The statements on tables that the tasks share: select by primary key, select the analysis of a
-- job, and INSERT … ON CONFLICT (job_id) DO UPDATE.
use jobbot.Prelude.{ℕ, ◌≡◌, Option, none, some, List, [], ◌∷◌, arith, ◌==◌, if◌then◌else◌}
use jobbot.Model.{Job, JobAnalysis}

-- session.get(Job, id)
unfoldable pub find_job : ℕ → List Job → Option Job
find_job id [] = none
find_job id (j ∷ js) = if j.id == id then some j else find_job id js

-- The session writes a changed row back under its primary key.
unfoldable pub put_job : Job → List Job → List Job
put_job job [] = []
put_job job (j ∷ js) = if j.id == job.id then job ∷ js else j ∷ put_job job js

-- select(JobAnalysis).where(JobAnalysis.job_id == id)
unfoldable pub find_analysis : ℕ → List JobAnalysis → Option JobAnalysis
find_analysis id [] = none
find_analysis id (a ∷ rows) = if a.job_id == id then some a else find_analysis id rows

unfoldable pub upsert :
    ℕ → JobAnalysis → (JobAnalysis → JobAnalysis) → List JobAnalysis → List JobAnalysis
upsert id values update [] = values ∷ []
upsert id values update (a ∷ rows) =
    if a.job_id == id then update a ∷ rows else a ∷ upsert id values update rows

abbrev pub KeepsKey : (JobAnalysis → JobAnalysis) → Type 0
KeepsKey update = (a : JobAnalysis) → (update a).job_id ≡ a.job_id

abbrev pub upserted : JobAnalysis → (JobAnalysis → JobAnalysis) → Option JobAnalysis → JobAnalysis
upserted values update none = values
upserted values update (some a) = update a

module _ (id : ℕ) (values : JobAnalysis) (update : JobAnalysis → JobAnalysis)
    (named : values.job_id ≡ id) (keeps : KeepsKey update) where
  -- After an upsert of the analysis of a job, the row of the job is the inserted or the updated
  -- one, and the rows of other jobs are as before.
  pub find_analysis-upsert :
      (k : ℕ) (rows : List JobAnalysis)
      → find_analysis k (upsert id values update rows) ≡ (
          if id == k
          then some (upserted values update (find_analysis id rows))
          else find_analysis k rows)
  unfolding find_analysis upsert
  find_analysis-upsert k [] = ground arith
  find_analysis-upsert k (a ∷ rows) = ground (arith, find_analysis-upsert k rows, keeps a)
