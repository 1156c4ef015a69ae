-- ===== src/Resume/Payload.antt =====
-- core/resumes/payload_builder.py, core/resumes/payload_types.py and core/resumes/rewrite.py. A
-- KeyError is `none`. The section's id is its kind.
use jobbot.Prelude.{ℕ, List, [], ◌∷◌, ◌++◌, map, Option, none, some, ◌>>=◌, if◌then◌else◌}
use jobbot.Text.{Text, lit, text_eq}
use jobbot.Resume.Evidence.{
  ResumeEducationRecord, ResumeEvidenceItem, ResumeEvidenceRole, ResumeEvidenceProject,
  ResumeEvidenceSupplementalEntry, ResumeEvidencePackage, get_item, summary_for_persona,
}
use jobbot.Resume.Selection.{prioritize_skills}
use jobbot.Resume.Fit.{FitSelection, FitResult}

-- The bullet's one provenance record is its evidence id and source type.
pub record ResumeBullet : Type 0 where
  pub id : Text
  pub text : Text
  pub evidence_id : Text
  pub source_type : Text

pub record ResumeSectionEntry : Type 0 where
  pub id : Text
  pub heading : Text
  pub subheading : Text
  pub dates : Text
  pub bullets : List ResumeBullet

pub data SectionKind : Type 0 where
  summary highlights skills experience projects education : SectionKind

pub record ResumeSection : Type 0 where
  pub kind : SectionKind
  pub title : Text
  pub body : Text
  pub lines : List Text
  pub entries : List ResumeSectionEntry

pub record ResumePayload : Type 0 where
  pub sections : List ResumeSection
  pub target_persona : Text
  pub effective_input_hash : Text
  pub inventory_version_hash : Option Text

unfoldable pub apply_conservative_rewrite : Text → (missing_keywords : List Text) → Text
apply_conservative_rewrite bullet_text missing_keywords = bullet_text

abbrev or_default : Text → Text → Text
or_default [] d = d
or_default (c ∷ s) d = c ∷ s

-- With an en dash.
abbrev pub date_range : Text → Text → Text
date_range start end =
    or_default start (lit "?") ++ (32 ∷ 8211 ∷ 32 ∷ or_default end (lit "present"))

unfoldable pub format_dates : (start end : Text) → Text
format_dates [] [] = []
format_dates [] (c ∷ end) = date_range [] (c ∷ end)
format_dates (c ∷ start) end = date_range (c ∷ start) end

-- With an em dash.
unfoldable pub education_line : ResumeEducationRecord → Text
education_line record_ =
    record_.degree ++ (32 ∷ 8212 ∷ 32 ∷ (record_.school ++ (lit " (" ++ (record_.year ++ lit ")"))))

-- `{entry.id: entry for entry in entries}[id]`: the last entry of an id counts.
unfoldable pub find_last : {A : Type 0} → (id_of : A → Text) → Text → List A → Option A
unfolding text_eq
find_last id_of id [] = none
find_last id_of id (x ∷ xs) =
    let here = if text_eq (id_of x) id then some x else none in
    elim (find_last id_of id xs) [ none ↦ here | some y ↦ some y ]

module _ (evidence : ResumeEvidencePackage) (missing_keywords : List Text) where
  abbrev pub bullet_of : Text → ResumeEvidenceItem → ResumeBullet
  bullet_of bullet_id item = record {
    id = lit "payload:" ++ bullet_id;
    text = apply_conservative_rewrite item.text missing_keywords;
    evidence_id = item.id;
    source_type = item.source_type;
  }

  unfoldable pub build_payload_bullets : List Text → Option (List ResumeBullet)
  unfolding get_item apply_conservative_rewrite
  build_payload_bullets [] = some []
  build_payload_bullets (b ∷ bullet_ids) = do
    item ← get_item b evidence.items
    rest ← build_payload_bullets bullet_ids
    some (bullet_of b item ∷ rest)

  -- The entries of a section: `lookup` finds the entry, `shape` its heading, subheading and dates.
  unfoldable pub build_entries :
      {A : Type 0}
      → (lookup : Text → Option A) → (shape : A → List ResumeBullet → ResumeSectionEntry)
      → List FitSelection
      → Option (List ResumeSectionEntry)
  unfolding build_payload_bullets
  build_entries lookup shape [] = some []
  build_entries lookup shape (s ∷ selections) = do
    found ← lookup s.entry_id
    bullets ← build_payload_bullets s.bullet_ids
    rest ← build_entries lookup shape selections
    some (shape found bullets ∷ rest)

abbrev pub role_shape : ResumeEvidenceRole → List ResumeBullet → ResumeSectionEntry
role_shape role bullets = record {
  id = role.id;
  heading = role.title;
  subheading = role.company;
  dates = format_dates role.start role.end;
  bullets = bullets;
}

abbrev pub project_shape : ResumeEvidenceProject → List ResumeBullet → ResumeSectionEntry
project_shape project bullets = record {
  id = project.id;
  heading = project.name;
  subheading = [];
  dates = [];
  bullets = bullets;
}

abbrev pub highlight_shape :
    ResumeEvidenceSupplementalEntry → List ResumeBullet → ResumeSectionEntry
highlight_shape entry bullets = record {
  id = entry.id;
  heading = entry.heading;
  subheading = entry.subheading;
  dates = entry.dates;
  bullets = bullets;
}

abbrev text_section : SectionKind → (title body : Text) → List Text → ResumeSection
text_section kind title body lines = record {
  kind = kind;
  title = title;
  body = body;
  lines = lines;
  entries = [];
}

abbrev entry_section : SectionKind → (title : Text) → List ResumeSectionEntry → ResumeSection
entry_section kind title entries = record {
  kind = kind;
  title = title;
  body = [];
  lines = [];
  entries = entries;
}

-- The highlights section is there only if it has entries.
abbrev pub highlight_sections : List ResumeSectionEntry → List ResumeSection
highlight_sections [] = []
highlight_sections (e ∷ rest) = entry_section highlights (lit "Highlights") (e ∷ rest) ∷ []

abbrev pub all_sections :
    ResumeEvidencePackage
    → FitResult
    → (max_skills : ℕ)
    → (experience_entries highlight_entries project_entries : List ResumeSectionEntry)
    → List ResumeSection
all_sections evidence fit max_skills experience_entries highlight_entries project_entries =
    text_section summary (lit "Summary") (summary_for_persona evidence fit.target_persona) []
    ∷ (highlight_sections highlight_entries
        ++ (text_section skills (lit "Skills") []
              (prioritize_skills evidence.skills fit.target_keywords max_skills)
            ∷ entry_section experience (lit "Experience") experience_entries
            ∷ entry_section projects (lit "Projects") project_entries
            ∷ text_section education (lit "Education") [] (map education_line evidence.education)
            ∷ []))

unfoldable pub build_resume_payload :
    ResumeEvidencePackage
    → FitResult
    → (effective_input_hash : Text) → (max_skills : ℕ) → Option ResumePayload
unfolding build_entries find_last format_dates summary_for_persona prioritize_skills education_line
build_resume_payload evidence fit effective_input_hash max_skills = do
  experience_entries ←
      build_entries evidence fit.missing_keywords (λ id. find_last (λ r. r.id) id evidence.roles)
        role_shape fit.role_selections
  highlight_entries ←
      build_entries evidence fit.missing_keywords
        (λ id. find_last (λ e. e.id) id evidence.supplemental_entries) highlight_shape
        fit.supplemental_selections
  project_entries ←
      build_entries evidence fit.missing_keywords (λ id. find_last (λ p. p.id) id evidence.projects)
        project_shape fit.project_selections
  some record {
    sections =
        all_sections evidence fit max_skills experience_entries highlight_entries project_entries;
    target_persona = fit.target_persona;
    effective_input_hash = effective_input_hash;
    inventory_version_hash = evidence.inventory_version_hash;
  }
