-- ===== src/Status.antt =====
-- core/job_status.py and the status enumerations of core/db/models.py.
pub mod Mirror
use jobbot.Prelude.{Bool, true, false}

pub data PipelineStatus : Type 0 where
  ingested deduped scored rejected classified ats_analyzed resume_ready failed : PipelineStatus

pub data UserStatus : Type 0 where
  fresh saved applied archived : UserStatus

pub data JobStatus : Type 0 where
  fresh scored approved rejected saved applied archived : JobStatus
  apply_queued apply_failed intervention_required : JobStatus

-- The second test of the ladder, after `pipeline_status == "REJECTED"`.
abbrev pub past_scoring : PipelineStatus → JobStatus
past_scoring PipelineStatus.scored = JobStatus.scored
past_scoring PipelineStatus.classified = JobStatus.scored
past_scoring PipelineStatus.ats_analyzed = JobStatus.scored
past_scoring PipelineStatus.resume_ready = JobStatus.scored
past_scoring _ = JobStatus.fresh

abbrev pub by_user : UserStatus → PipelineStatus → JobStatus
by_user UserStatus.applied p = JobStatus.applied
by_user UserStatus.archived p = JobStatus.archived
by_user _ p = past_scoring p

unfoldable pub legacy_status_from_canonical : PipelineStatus → UserStatus → JobStatus
legacy_status_from_canonical PipelineStatus.rejected u = JobStatus.rejected
legacy_status_from_canonical p u = by_user u p

-- `pipeline_status == X` in a query.
unfoldable pub status_eq : PipelineStatus → PipelineStatus → Bool
status_eq PipelineStatus.ingested PipelineStatus.ingested = true
status_eq PipelineStatus.deduped PipelineStatus.deduped = true
status_eq PipelineStatus.scored PipelineStatus.scored = true
status_eq PipelineStatus.rejected PipelineStatus.rejected = true
status_eq PipelineStatus.classified PipelineStatus.classified = true
status_eq PipelineStatus.ats_analyzed PipelineStatus.ats_analyzed = true
status_eq PipelineStatus.resume_ready PipelineStatus.resume_ready = true
status_eq PipelineStatus.failed PipelineStatus.failed = true
status_eq _ _ = false
