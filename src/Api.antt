-- ===== src/Api.antt =====
-- apps/api/routes/jobs.py: the requests on jobs. A handler's commit writes the rows that it returns;
-- a request that is refused writes nothing.
pub mod Workflow
pub mod Listing
pub mod Paging
pub mod Resolve
pub mod Manual
pub mod Repeat
pub mod Launch
pub mod Adapters
pub mod Runnable
use jobbot.Prelude.{ℕ, Option, none, some, if◌then◌else◌}
use jobbot.Text.{Text, lit, text_eq}
use jobbot.Status.{PipelineStatus, UserStatus}
use jobbot.Model.{Persona, backend, platform_infra, hybrid}

pub record HttpException : Type 0 where
  pub status_code : ℕ
  pub detail : Text

pub data Response (A : Type 0) : Type 0 where
  ok : A → Response A
  refused : HttpException → Response A

unfoldable pub not_found : HttpException
not_found = record { status_code = 404; detail = lit "Job not found" }

-- The values of the enums, which the columns hold as text.
unfoldable pub user_status_value : UserStatus → Text
user_status_value UserStatus.fresh = lit "NEW"
user_status_value UserStatus.saved = lit "SAVED"
user_status_value UserStatus.applied = lit "APPLIED"
user_status_value UserStatus.archived = lit "ARCHIVED"

unfoldable pub pipeline_status_value : PipelineStatus → Text
pipeline_status_value PipelineStatus.ingested = lit "INGESTED"
pipeline_status_value PipelineStatus.deduped = lit "DEDUPED"
pipeline_status_value PipelineStatus.scored = lit "SCORED"
pipeline_status_value PipelineStatus.rejected = lit "REJECTED"
pipeline_status_value PipelineStatus.classified = lit "CLASSIFIED"
pipeline_status_value PipelineStatus.ats_analyzed = lit "ATS_ANALYZED"
pipeline_status_value PipelineStatus.resume_ready = lit "RESUME_READY"
pipeline_status_value PipelineStatus.failed = lit "FAILED"

unfoldable pub persona_value : Persona → Text
persona_value backend = lit "BACKEND"
persona_value platform_infra = lit "PLATFORM_INFRA"
persona_value hybrid = lit "HYBRID"

-- WRITABLE_USER_STATUSES, with the status that a text of it names.
unfoldable pub writable_user_status : Text → Option UserStatus
unfolding text_eq
writable_user_status t =
    if text_eq t (lit "SAVED")
    then some UserStatus.saved
    else if text_eq t (lit "APPLIED")
    then some UserStatus.applied
    else if text_eq t (lit "ARCHIVED")
    then some UserStatus.archived
    else none
