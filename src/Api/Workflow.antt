-- ===== src/Api/Workflow.antt =====
-- apps/api/routes/jobs.py: `update_job_status` and `bulk_status`.
use jobbot.Prelude.{ℕ, suc, List, [], ◌∷◌, Option, none, some}
use jobbot.Text.{Text, lit}
use jobbot.Status.{UserStatus, legacy_status_from_canonical}
use jobbot.Model.{Job}
use jobbot.Model.Tables.{find_job, put_job}
use jobbot.Api.{HttpException, Response, ok, refused, not_found, writable_user_status}

unfoldable pub status_not_writable : HttpException
status_not_writable = record {
  status_code = 400;
  detail =
      lit "user_status must be one of ['APPLIED', 'ARCHIVED', 'SAVED']; NEW is not client-settable";
}

unfoldable pub with_user_status : UserStatus → Job → Job
with_user_status u job = record job {
  user_status = u;
  status = legacy_status_from_canonical job.pipeline_status u;
}

-- The rows, and the body of the reply.
pub record Updated : Type 0 where
  pub jobs : List Job
  pub id : ℕ
  pub user_status : UserStatus

abbrev pub update_found : Option Job → Option UserStatus → List Job → Response Updated
update_found none u jobs = refused not_found
update_found (some job) none jobs = refused status_not_writable
update_found (some job) (some u) jobs =
    ok record { jobs = put_job (with_user_status u job) jobs; id = job.id; user_status = u }

unfoldable pub update_job_status : (job_id : ℕ) → (user_status : Text) → List Job → Response Updated
unfolding find_job put_job with_user_status writable_user_status not_found status_not_writable
update_job_status job_id user_status jobs =
    update_found (find_job job_id jobs) (writable_user_status user_status) jobs

-- The rows, and the counter `updated`.
pub record BulkUpdated : Type 0 where
  pub jobs : List Job
  pub updated : ℕ

abbrev pub bulk_one : UserStatus → Option Job → BulkUpdated → BulkUpdated
bulk_one u none st = st
bulk_one u (some job) st = record {
  jobs = put_job (with_user_status u job) st.jobs;
  updated = suc st.updated;
}

-- `for jid in body.job_ids: …`
unfoldable pub bulk_loop : UserStatus → List ℕ → BulkUpdated → BulkUpdated
unfolding find_job put_job with_user_status
bulk_loop u [] st = st
bulk_loop u (jid ∷ job_ids) st = bulk_loop u job_ids (bulk_one u (find_job jid st.jobs) st)

abbrev pub bulk_writable : Option UserStatus → List ℕ → List Job → Response BulkUpdated
bulk_writable none job_ids jobs = refused status_not_writable
bulk_writable (some u) job_ids jobs = ok (bulk_loop u job_ids record { jobs = jobs; updated = 0 })

unfoldable pub bulk_status : (job_ids : List ℕ) → (status : Text) → List Job → Response BulkUpdated
unfolding bulk_loop writable_user_status status_not_writable
bulk_status job_ids status jobs = bulk_writable (writable_user_status status) job_ids jobs
