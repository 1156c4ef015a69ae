-- ===== src/Status/Mirror.antt =====
-- What the legacy status says about the two canonical ones.
use jobbot.Prelude.{◌≡◌, ◌≢◌, ◌↔◌, ◌⊎◌, true, arith}
use jobbot.Status.{PipelineStatus, UserStatus, JobStatus, legacy_status_from_canonical, status_eq}

-- The pipeline has accepted the job: it is scored or beyond.
abbrev pub IsAccepted : PipelineStatus → Type 0
IsAccepted p =
    (p ≡ PipelineStatus.scored)
    ⊎ (p ≡ PipelineStatus.classified)
    ⊎ (p ≡ PipelineStatus.ats_analyzed)
    ⊎ (p ≡ PipelineStatus.resume_ready)

abbrev pub IsUndecided : UserStatus → Type 0
IsUndecided u = (u ≢ UserStatus.applied) × (u ≢ UserStatus.archived)

-- Pipeline rejection wins over every decision of the user; among the other jobs the user's APPLIED
-- and ARCHIVED win over the pipeline; the rest is SCORED exactly when the pipeline has accepted it.
pub legacy_status_iff :
    (p : PipelineStatus) (u : UserStatus)
    → ((legacy_status_from_canonical p u ≡ JobStatus.rejected) ↔ (p ≡ PipelineStatus.rejected))
      × ((legacy_status_from_canonical p u ≡ JobStatus.applied)
          ↔ ((p ≢ PipelineStatus.rejected) × (u ≡ UserStatus.applied)))
      × ((legacy_status_from_canonical p u ≡ JobStatus.archived)
          ↔ ((p ≢ PipelineStatus.rejected) × (u ≡ UserStatus.archived)))
      × ((legacy_status_from_canonical p u ≡ JobStatus.scored) ↔ (IsAccepted p × IsUndecided u))
unfolding legacy_status_from_canonical
legacy_status_iff PipelineStatus.ingested u = ground arith
legacy_status_iff _ u = ground arith

pub status_eq_sound : (p q : PipelineStatus) → status_eq p q ≡ true → p ≡ q
unfolding status_eq
status_eq_sound p q h = ground arith

pub status_eq_refl : (p : PipelineStatus) → status_eq p p ≡ true
unfolding status_eq
status_eq_refl p = ground arith
