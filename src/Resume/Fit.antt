-- ===== src/Resume/Fit.antt =====
-- core/resumes/v2_pipeline.py (`_select_group`, `build_fit_result`, `build_effective_input`) and the
-- fit types of core/resumes/layout_types.py. A KeyError is `none`.
use jobbot.Prelude.{
  ℕ, suc, ◌+◌, Bool, true, false, not, List, [], ◌∷◌, ◌++◌, map, take, Option, some, ◌>>=◌, is_nil,
  if◌then◌else◌,
}
use jobbot.Text.{Text, lower, text_eq}
use jobbot.Text.Order.{sorted_by}
use jobbot.Resume.Evidence.{
  ResumeEvidenceItem, ResumeEvidenceSource, ResumeEvidenceRole, ResumeEvidenceProject,
  ResumeEvidenceSupplementalEntry, ResumeEvidencePackage, get_item,
}
use jobbot.Resume.Selection.{persona_tag_match, score_text_tags}
use jobbot.Resume.Ranking.{Ranked, sort_ranked}

pub record LayoutLimits : Type 0 where
  pub label : Text
  pub max_roles : ℕ
  pub max_role_bullets : ℕ
  pub max_projects : ℕ
  pub max_project_bullets : ℕ
  pub max_supplemental_entries : ℕ
  pub max_supplemental_bullets : ℕ
  pub max_skills : ℕ

pub record FitSelection : Type 0 where
  pub entry_id : Text
  pub bullet_ids : List Text
  pub score : ℕ

pub record FitResult : Type 0 where
  pub target_persona : Text
  pub target_keywords : List Text
  pub found_keywords : List Text
  pub missing_keywords : List Text
  pub role_selections : List FitSelection
  pub project_selections : List FitSelection
  pub supplemental_selections : List FitSelection

abbrev ids_of : List FitSelection → List Text
ids_of [] = []
ids_of (s ∷ rest) = (s.entry_id ∷ s.bullet_ids) ++ ids_of rest

unfoldable pub selected_evidence_ids : FitResult → List Text
selected_evidence_ids fit =
    ids_of fit.role_selections
    ++ (ids_of fit.project_selections ++ ids_of fit.supplemental_selections)

-- What the selection is for: the persona and the keywords of the job.
pub record Target : Type 0 where
  pub persona : Text
  pub target_keywords : List Text
  pub found_keywords : List Text
  pub missing_keywords : List Text

-- The selected ids and the score of all bullets of the group.
pub record Group : Type 0 where
  pub selected_ids : List Text
  pub total : ℕ

-- An entry of the evidence as the selection sees it: its bullets, its bonus, and whether it is passed
-- over.
pub record Entry : Type 0 where
  pub id : Text
  pub bullet_ids : List Text
  pub bonus : ℕ
  pub passed_over : Bool

module _ (evidence : ResumeEvidencePackage) (target : Target) where
  unfoldable pub score_item : ResumeEvidenceItem → ℕ
  unfolding score_text_tags
  score_item item = score_text_tags item.text item.tags target.target_keywords target.persona true

  abbrev pub scored : ℕ → ResumeEvidenceItem → Text → Ranked Text
  scored index item bullet_id = record { value = bullet_id; score = score_item item; index = index }

  -- `enumerate(bullet_ids)`, from `index` on.
  unfoldable pub score_bullets : (index : ℕ) → List Text → Option (List (Ranked Text))
  unfolding get_item score_item
  score_bullets index [] = some []
  score_bullets index (b ∷ bullet_ids) = do
    item ← get_item b evidence.items
    rest ← score_bullets (suc index) bullet_ids
    some (scored index item b ∷ rest)

  abbrev pub total_score : List (Ranked Text) → ℕ
  total_score [] = 0
  total_score (r ∷ rest) = r.score + total_score rest

  abbrev pub group_of : (max_bullets : ℕ) → List (Ranked Text) → Group
  group_of max_bullets bullets = record {
    selected_ids = map (λ r. r.value) (take max_bullets (sort_ranked bullets));
    total = total_score bullets;
  }

  unfoldable pub select_group : (bullet_ids : List Text) → (max_bullets : ℕ) → Option Group
  unfolding score_bullets sort_ranked
  select_group bullet_ids max_bullets = do
    bullets ← score_bullets 0 bullet_ids
    some (group_of max_bullets bullets)

  -- An entry without a selected bullet is no candidate.
  abbrev pub add_candidate :
      Entry → (index : ℕ) → Group → List (Ranked FitSelection) → List (Ranked FitSelection)
  add_candidate e index g rest =
      if is_nil g.selected_ids
      then rest
      else record {
        value = record { entry_id = e.id; bullet_ids = g.selected_ids; score = g.total + e.bonus };
        score = g.total + e.bonus;
        index = index;
      }
        ∷ rest

  unfoldable pub candidates :
      (max_bullets index : ℕ) → List Entry → Option (List (Ranked FitSelection))
  unfolding select_group
  candidates max_bullets index [] = some []
  candidates max_bullets index (e ∷ entries) = do
    rest ← candidates max_bullets (suc index) entries
    g ←
        (if e.passed_over
          then some record { selected_ids = []; total = 0 }
          else select_group e.bullet_ids max_bullets)
    some (add_candidate e index g rest)

  unfoldable pub select_entries :
      (max_entries max_bullets : ℕ) → List Entry → Option (List FitSelection)
  unfolding candidates sort_ranked
  select_entries max_entries max_bullets entries = do
    found ← candidates max_bullets 0 entries
    some (map (λ r. r.value) (take max_entries (sort_ranked found)))

  unfoldable pub role_entry : ResumeEvidenceRole → Entry
  unfolding persona_tag_match
  role_entry role = record {
    id = role.id;
    bullet_ids = role.bullet_ids;
    bonus = if persona_tag_match role.tags target.persona then 3 else 0;
    passed_over = false;
  }

  abbrev pub project_entry : ResumeEvidenceProject → Entry
  project_entry project = record {
    id = project.id;
    bullet_ids = project.bullet_ids;
    bonus = 0;
    passed_over = false;
  }

  -- A source that is known and not used for facts.
  unfoldable pub not_for_facts : Text → List ResumeEvidenceSource → Bool
  unfolding text_eq
  not_for_facts name [] = false
  not_for_facts name (s ∷ rest) =
      let later = not_for_facts name rest in
      if text_eq s.source_name name then not s.used_for_facts else later

  unfoldable pub supplemental_entry : ResumeEvidenceSupplementalEntry → Entry
  unfolding not_for_facts
  supplemental_entry entry = record {
    id = entry.id;
    bullet_ids = entry.bullet_ids;
    bonus = 0;
    passed_over = not_for_facts entry.source_type evidence.source_metadata;
  }

  abbrev pub sorted_lower : List Text → List Text
  sorted_lower keywords = sorted_by (λ t. t) (map lower keywords)

  unfoldable pub build_fit_result : LayoutLimits → Option FitResult
  unfolding select_entries role_entry supplemental_entry sorted_by lower
  build_fit_result limits = do
    roles ← select_entries limits.max_roles limits.max_role_bullets (map role_entry evidence.roles)
    projects ←
        select_entries limits.max_projects limits.max_project_bullets
          (map project_entry evidence.projects)
    supplemental ←
        select_entries limits.max_supplemental_entries limits.max_supplemental_bullets
          (map supplemental_entry evidence.supplemental_entries)
    some record {
      target_persona = target.persona;
      target_keywords = sorted_lower target.target_keywords;
      found_keywords = sorted_lower target.found_keywords;
      missing_keywords = sorted_lower target.missing_keywords;
      role_selections = roles;
      project_selections = projects;
      supplemental_selections = supplemental;
    }
