-- ===== src/Resume/Planner.antt =====
-- core/resumes/fit_planner.py: the candidates and the loop over the profiles, with the page of
-- core/resumes/layout_types.py. Heights are in half points. Hashes of canonical JSON are
-- arguments. The constructors' checks against blank persona, hashes and ids are left out.
use jobbot.Prelude.{
  ℕ, Bool, true, false, List, [], ◌∷◌, ◌++◌, Option, none, some, ◌>>=◌, ltb, leb, if◌then◌else◌,
}
use jobbot.Text.{Text, lit}
use jobbot.Model.{Ratio}
use jobbot.Resume.Evidence.{ResumeEvidencePackage}
use jobbot.Resume.Fit.{LayoutLimits, FitResult, Target, build_fit_result, selected_evidence_ids}
use jobbot.Resume.Payload.{ResumePayload, build_resume_payload}
use jobbot.Resume.Layout.{
  build_layout_plan, estimate_payload_height, LayoutPlan, SectionMeasurement,
}

abbrev limits_of :
    (label : Text)
    → (roles role_bullets projects project_bullets supplemental supplemental_bullets skills : ℕ)
    → LayoutLimits
limits_of label roles role_bullets projects_ project_bullets supplemental supplemental_bullets
      skills_ =
    record {
      label = label;
      max_roles = roles;
      max_role_bullets = role_bullets;
      max_projects = projects_;
      max_project_bullets = project_bullets;
      max_supplemental_entries = supplemental;
      max_supplemental_bullets = supplemental_bullets;
      max_skills = skills_;
    }

abbrev pub default_layout_limits : LayoutLimits
default_layout_limits = limits_of (lit "base") 4 5 2 3 2 3 20

abbrev pub fit_compaction_profiles : List LayoutLimits
fit_compaction_profiles =
    default_layout_limits
    ∷ limits_of (lit "projects_bullets_tight") 4 5 2 1 2 2 20
    ∷ limits_of (lit "projects_trimmed") 4 5 1 1 2 2 18
    ∷ limits_of (lit "projects_removed") 4 5 0 0 2 2 18
    ∷ limits_of (lit "supplemental_trimmed") 4 5 0 0 1 1 16
    ∷ limits_of (lit "supplemental_removed") 4 5 0 0 0 0 16
    ∷ limits_of (lit "skills_trimmed") 4 5 0 0 0 0 12
    ∷ limits_of (lit "role_bullets_tight") 4 4 0 0 0 0 12
    ∷ limits_of (lit "role_bullets_compact") 4 3 0 0 0 0 12
    ∷ limits_of (lit "role_bullets_min") 4 2 0 0 0 0 10
    ∷ limits_of (lit "roles_compact") 3 2 0 0 0 0 10
    ∷ limits_of (lit "roles_min") 2 2 0 0 0 0 8
    ∷ []

abbrev note : Bool → Text → List Text → List Text
note true text rest = text ∷ rest
note false text rest = rest

unfoldable pub compaction_notes : LayoutLimits → List Text
compaction_notes limits =
    let base = default_layout_limits in
    note (ltb limits.max_projects base.max_projects) (lit "projects trimmed before role experience")
      (note (ltb limits.max_supplemental_entries base.max_supplemental_entries)
        (lit "supplemental highlights reduced before role experience")
        (note (ltb limits.max_skills base.max_skills) (lit "skill list compacted") (
          note (ltb limits.max_role_bullets base.max_role_bullets)
            (lit "role bullets reduced by score order")
            (note (ltb limits.max_roles base.max_roles) (lit "lower-priority roles trimmed last")
              []))))

pub record FitDiagnostics : Type 0 where
  pub selected_limits : LayoutLimits
  pub attempted_limit_labels : List Text
  pub estimated_total_height : ℕ
  pub estimated_page_count : Ratio
  pub planner_fit_passed : Bool
  pub fallback_enabled : Bool
  pub section_measurements : List SectionMeasurement
  pub compaction_notes : List Text

-- core/resumes/effective_input.py
pub record ResumeEffectiveInput : Type 0 where
  pub evidence_hash : Text
  pub fit_hash : Text
  pub target_persona : Text
  pub target_keywords : List Text
  pub selected_evidence_ids : List Text
  pub template_version : Text

-- The hashes of the canonical JSON of the three.
pub record Hashes : Type 0 where
  pub of_evidence : ResumeEvidencePackage → Text
  pub of_fit : FitResult → Text
  pub of_input : ResumeEffectiveInput → Text

unfoldable pub build_effective_input :
    Hashes → ResumeEvidencePackage → FitResult → (template_version : Text) → ResumeEffectiveInput
unfolding selected_evidence_ids
build_effective_input hashes evidence fit template_version = record {
  evidence_hash = hashes.of_evidence evidence;
  fit_hash = hashes.of_fit fit;
  target_persona = fit.target_persona;
  target_keywords = fit.target_keywords;
  selected_evidence_ids = selected_evidence_ids fit;
  template_version = template_version;
}

pub record PlannedResumeArtifacts : Type 0 where
  pub fit_result : FitResult
  pub effective_input : ResumeEffectiveInput
  pub payload : ResumePayload
  pub layout_plan : LayoutPlan
  pub fit_diagnostics : FitDiagnostics

-- The content height of the page less the reserve: 720 - 18 points.
abbrev pub fits_page : (height : ℕ) → Bool
fits_page height = leb height 1404

abbrev pub height_of : PlannedResumeArtifacts → ℕ
height_of c = c.fit_diagnostics.estimated_total_height

-- `best_candidate is None or candidate < best_candidate`
abbrev pub better : PlannedResumeArtifacts → Option PlannedResumeArtifacts → PlannedResumeArtifacts
better candidate none = candidate
better candidate (some best) =
    if ltb (height_of candidate) (height_of best) then candidate else best

module _ (hashes : Hashes) (evidence : ResumeEvidencePackage) (target : Target)
    (template_version : Text) (fallback_enabled : Bool) where
  -- From the height and the measurements of the payload.
  abbrev pub planned :
      LayoutLimits
      → (attempted_labels : List Text) → FitResult
      → ResumePayload
      → (measured : ℕ × List SectionMeasurement) → PlannedResumeArtifacts
  planned limits attempted_labels fit payload measured = record {
    fit_result = fit;
    effective_input = build_effective_input hashes evidence fit template_version;
    payload = payload;
    layout_plan = build_layout_plan payload template_version limits;
    fit_diagnostics = record {
      selected_limits = limits;
      attempted_limit_labels = attempted_labels;
      estimated_total_height = measured.0;
      estimated_page_count = record { num = measured.0; den = 1440 };
      planner_fit_passed = fits_page measured.0;
      fallback_enabled = fallback_enabled;
      section_measurements = measured.1;
      compaction_notes = compaction_notes limits;
    };
  }

  unfoldable pub build_candidate :
      LayoutLimits → (attempted_labels : List Text) → Option PlannedResumeArtifacts
  unfolding build_fit_result build_effective_input build_resume_payload build_layout_plan
      estimate_payload_height compaction_notes
  build_candidate limits attempted_labels = do
    fit ← build_fit_result evidence target limits
    let input = build_effective_input hashes evidence fit template_version
    payload ← build_resume_payload evidence fit (hashes.of_input input) limits.max_skills
    measured ← estimate_payload_height payload (build_layout_plan payload template_version limits)
    some (planned limits attempted_labels fit payload measured)

  -- The loop over the profiles. A KeyError, and the RuntimeError without profiles, are `none`.
  unfoldable pub plan_from :
      List LayoutLimits
      → (attempted_labels : List Text) → Option PlannedResumeArtifacts
      → Option PlannedResumeArtifacts
  unfolding build_candidate
  plan_from [] attempted_labels best = best
  plan_from (limits ∷ profiles) attempted_labels best =
      let labels = attempted_labels ++ limits.label ∷ [] in
      do
        candidate ← build_candidate limits labels
        let later = plan_from profiles labels (some (better candidate best))
        if candidate.fit_diagnostics.planner_fit_passed then some candidate else later

  unfoldable pub plan_resume_artifacts : Option PlannedResumeArtifacts
  unfolding plan_from
  plan_resume_artifacts = plan_from fit_compaction_profiles [] none
