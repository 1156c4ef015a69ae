-- ===== src/Resume/Layout.antt =====
-- The layout plan and the estimated heights (core/resumes/fit_planner.py, build_layout_plan of
-- core/resumes/v2_pipeline.py). Heights are in half points.
use jobbot.Prelude.{
  ℕ, zero, suc, ◌+◌, ◌*◌, ◌/◌, max, Bool, true, false, List, [], ◌∷◌, ◌++◌, any, Option, none, some,
  ◌>>=◌, length, leb, if◌then◌else◌,
}
use jobbot.Text.{Text, lit}
use jobbot.Dedup.{collapse_whitespace}
use jobbot.Resume.Fit.{LayoutLimits}
use jobbot.Resume.Payload.{
  ResumeSectionEntry, SectionKind, summary, highlights, skills, experience, projects, education,
  ResumeSection, ResumePayload,
}

-- max(1, ceil(n / chars_per_line)) for a text that is not empty; chars_per_line is suc k.
abbrev pub lines_for : ℕ → ℕ → ℕ
lines_for zero k = 0
lines_for (suc n) k = max 1 ((suc n + k) / suc k)

unfoldable pub line_count : Text → (chars_per_line : ℕ) → ℕ
unfolding collapse_whitespace
line_count text zero = 0
line_count text (suc k) = lines_for (length (collapse_whitespace text)) k

abbrev after : Text → Text
after [] = []
after (c ∷ s) = 32 ∷ c ∷ s

-- " ".join(part for part in parts if part)
abbrev pub join_parts : List Text → Text
join_parts [] = []
join_parts ([] ∷ parts) = join_parts parts
join_parts ((c ∷ s) ∷ parts) = (c ∷ s) ++ after (join_parts parts)

abbrev sum_of : {A : Type 0} → (A → ℕ) → List A → ℕ
sum_of f [] = 0
sum_of f (x ∷ xs) = f x + sum_of f xs

unfoldable pub estimate_entry_height : ResumeSectionEntry → ℕ
unfolding line_count
estimate_entry_height entry =
    max 30 (line_count (join_parts (entry.heading ∷ entry.subheading ∷ entry.dates ∷ [])) 52 * 27)
    + sum_of (λ b. line_count b.text 95 * 27 + 6) entry.bullets
    + 16

-- ", ".join(lines)
abbrev pub join_lines : List Text → Text
join_lines [] = []
join_lines (t ∷ []) = t
join_lines (t ∷ u ∷ rest) = t ++ (lit ", " ++ join_lines (u ∷ rest))

abbrev content_height : ResumeSection → SectionKind → ℕ
content_height section summary = line_count section.body 92 * 27
content_height section skills = line_count (join_lines section.lines) 110 * 27
content_height section education = sum_of (λ line. line_count line 84 * 27) section.lines
content_height section _ = sum_of estimate_entry_height section.entries

unfoldable pub estimate_section_height : ResumeSection → ℕ
unfolding estimate_entry_height line_count
estimate_section_height section = 44 + content_height section section.kind + 20

pub record LayoutSectionPlan : Type 0 where
  pub section : SectionKind
  pub order : ℕ
  pub title : Text
  pub max_entries : Option ℕ
  pub max_bullets_per_entry : Option ℕ

pub record LayoutPlan : Type 0 where
  pub sections : List LayoutSectionPlan
  pub effective_input_hash : Text
  pub template_version : Text

abbrev pub same_kind : SectionKind → SectionKind → Bool
same_kind summary summary = true
same_kind highlights highlights = true
same_kind skills skills = true
same_kind experience experience = true
same_kind projects projects = true
same_kind education education = true
same_kind _ _ = false

abbrev plan_text : SectionKind → ℕ → Text → LayoutSectionPlan
plan_text kind order title = record {
  section = kind;
  order = order;
  title = title;
  max_entries = none;
  max_bullets_per_entry = none;
}

abbrev plan_entries : SectionKind → ℕ → Text → (entries bullets : ℕ) → LayoutSectionPlan
plan_entries kind order title entries bullets = record {
  section = kind;
  order = order;
  title = title;
  max_entries = some entries;
  max_bullets_per_entry = some bullets;
}

abbrev later_plans : (next_order : ℕ) → LayoutLimits → List LayoutSectionPlan
later_plans next_order limits =
    plan_text skills next_order (lit "Skills")
    ∷ plan_entries experience (next_order + 1) (lit "Experience") limits.max_roles
        limits.max_role_bullets
    ∷ plan_entries projects (next_order + 2) (lit "Projects") limits.max_projects
        limits.max_project_bullets
    ∷ plan_text education (next_order + 3) (lit "Education")
    ∷ []

unfoldable pub build_layout_plan :
    ResumePayload → (template_version : Text) → LayoutLimits → LayoutPlan
build_layout_plan payload template_version limits = record {
  sections =
      plan_text summary 1 (lit "Summary")
      ∷ (if any (λ s. same_kind s.kind highlights) payload.sections
          then plan_entries highlights 2 (lit "Highlights") limits.max_supplemental_entries
              limits.max_supplemental_bullets
            ∷ later_plans 3 limits
          else later_plans 2 limits);
  effective_input_hash = payload.effective_input_hash;
  template_version = template_version;
}

-- sorted(layout_plan.sections, key=lambda section: section.order)
abbrev insert_plan : LayoutSectionPlan → List LayoutSectionPlan → List LayoutSectionPlan
insert_plan p [] = p ∷ []
insert_plan p (q ∷ rest) = if leb p.order q.order then p ∷ q ∷ rest else q ∷ insert_plan p rest

abbrev sort_plans : List LayoutSectionPlan → List LayoutSectionPlan
sort_plans [] = []
sort_plans (p ∷ rest) = insert_plan p (sort_plans rest)

pub record SectionMeasurement : Type 0 where
  pub section : SectionKind
  pub estimated_height : ℕ

-- `{section.id: section for section in payload.sections}[kind]`
abbrev section_by_id : SectionKind → List ResumeSection → Option ResumeSection
section_by_id kind [] = none
section_by_id kind (s ∷ sections) =
    let here = if same_kind s.kind kind then some s else none in
    elim (section_by_id kind sections) [ none ↦ here | some later ↦ some later ]

abbrev pub measure : List ResumeSection → List LayoutSectionPlan → Option (List SectionMeasurement)
measure sections [] = some []
measure sections (p ∷ plans) = do
  section ← section_by_id p.section sections
  rest ← measure sections plans
  some
      (record { section = section.kind; estimated_height = estimate_section_height section } ∷ rest)

unfoldable pub estimate_payload_height :
    ResumePayload → LayoutPlan → Option (ℕ × List SectionMeasurement)
unfolding estimate_section_height
estimate_payload_height payload plan = do
  measurements ← measure payload.sections (sort_plans plan.sections)
  some (52 + 36 + sum_of (λ m. m.estimated_height) measurements, measurements)
