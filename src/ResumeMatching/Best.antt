-- ===== src/ResumeMatching/Best.antt =====
-- The choice among the scored resumes (core/resume_matching.py).
use jobbot.Prelude.{
  ◌<◌, ◌≡◌, refl, inl, inr, false, List, [], ◌∷◌, All, Bool-cases, Among, Option, none, ◌&&◌, ◌↔◌,
}
use jobbot.Model.{Suggestion}
use jobbot.Text.{Text}
use jobbot.ResumeMatching.{
  CatalogRow, key_lt, scored_catalog, load_resume_catalog, suggest_resume_for_job, non_empty,
}

abbrev Positive : Suggestion → Type 0
Positive s = 0 < s.score.den

pub record IsBest (r : Suggestion) (xs : List Suggestion) : Type 0 where
  pub among : Among r xs
  pub positive : Positive r
  pub greatest : All (λ s. key_lt r s ≡ false) xs

-- There is no suggestion exactly when no row of the catalog has an id and a label.
pub suggest_resume_for_job-none_iff :
    (title description : Text) (persona : Option Text) (catalog : List CatalogRow)
    → (suggest_resume_for_job title description persona catalog ≡ none)
      ↔ All (λ r. (non_empty r.id && non_empty r.label) ≡ false) catalog
unfolding suggest_resume_for_job scored_catalog load_resume_catalog
suggest_resume_for_job-none_iff title description persona [] = (λ h. tt, λ h. refl)
suggest_resume_for_job-none_iff title description persona (r ∷ rows) =
    let ih = suggest_resume_for_job-none_iff title description persona rows in
    elim (Bool-cases (non_empty r.id && non_empty r.label)) [
      | inl e ↦ (λ h. cc (rw e at h), λ h. cc)
      | inr e ↦ (λ h. (e, ih.0 (rw e at h)), λ h. rw e (ih.1 h.1))
    ]
