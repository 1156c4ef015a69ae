-- ===== src/Resume/Grounded.antt =====
-- Where the bullets of a payload come from (core/resumes/payload_builder.py).
use mathlib.Core.Option.{some-injective}
use jobbot.Prelude.{
  ℕ, ◌≡◌, refl, sym, ap, subst, ◌∙◌, Bool, List, [], ◌∷◌, ◌++◌, Option, some, bind_parts, inl, inr,
  Bool-cases, All, All-append, Among,
}
use jobbot.Text.{Text, text_eq}
use jobbot.Text.Laws.{text_eq_sound}
use jobbot.Resume.Evidence.{ResumeEvidenceItem, ResumeEvidencePackage, get_item}
use jobbot.Resume.Fit.{LayoutLimits, FitSelection, FitResult, Target, build_fit_result}
use jobbot.Resume.Payload.{
  ResumeBullet, ResumeSectionEntry, ResumeSection, ResumePayload, build_payload_bullets,
  build_entries, build_resume_payload, highlight_sections, all_sections, apply_conservative_rewrite,
}
use jobbot.Resume.Layout.{build_layout_plan, estimate_payload_height}
use jobbot.Resume.Planner.{
  Hashes, PlannedResumeArtifacts, fit_compaction_profiles, build_candidate, planned,
  plan_resume_artifacts,
}
use jobbot.Resume.FirstFit.{Candidates, plan_resume_artifacts-IsPlan}

-- The item that the bullet names is in the evidence, and the bullet has its words.
pub record IsQuoted (items : List ResumeEvidenceItem) (b : ResumeBullet) : Type 0 where
  pub item : ResumeEvidenceItem
  pub found : get_item b.evidence_id items ≡ some item
  pub text : b.text ≡ item.text
  pub source_type : b.source_type ≡ item.source_type

get_item-id :
    (id : Text) (items : List ResumeEvidenceItem) (item : ResumeEvidenceItem)
    → get_item id items ≡ some item
    → item.id ≡ id
unfolding get_item
get_item-id id [] item h = cc h
get_item-id id (i ∷ items) item h = elim (Bool-cases (text_eq i.id id)) [
  | inl e ↦
      let same : i ≡ item = some-injective _ _ (rw e at h) in
      ap (λ (k : ResumeEvidenceItem). k.id) (sym same) ∙ text_eq_sound i.id id e
  | inr e ↦ get_item-id id items item (rw e at h)
]

last_among : {A : Type 0} (a : A) (before : List A) → Among a (before ++ a ∷ [])
last_among a [] = inl refl
last_among a (b ∷ before) = inr (last_among a before)

module _ (evidence : ResumeEvidencePackage) where
  abbrev pub QuotedEntry : ResumeSectionEntry → Type 0
  QuotedEntry entry = All (IsQuoted evidence.items) entry.bullets

  abbrev pub QuotedSection : ResumeSection → Type 0
  QuotedSection section = All QuotedEntry section.entries

  module _ (missing_keywords : List Text) where
    build_payload_bullets-IsQuoted :
        (ids : List Text) (bullets : List ResumeBullet)
        → build_payload_bullets evidence missing_keywords ids ≡ some bullets
        → All (IsQuoted evidence.items) bullets
    unfolding build_payload_bullets apply_conservative_rewrite
    build_payload_bullets-IsQuoted [] bullets h =
        subst (All (IsQuoted evidence.items)) (some-injective _ _ h) tt
    build_payload_bullets-IsQuoted (b ∷ ids) bullets h =
        let (item, found, h1) = bind_parts (get_item b evidence.items) _ bullets h in
        let (rest, built, h2) =
          bind_parts (build_payload_bullets evidence missing_keywords ids) _ bullets h1 in
        subst (All (IsQuoted evidence.items)) (some-injective _ _ h2) (
          record {
            item = item;
            found =
                ap (λ id. get_item id evidence.items) (get_item-id b evidence.items item found)
                ∙ found;
            text = refl;
            source_type = refl;
          },
          build_payload_bullets-IsQuoted ids rest built,
        )

    build_entries-QuotedEntry :
        {A : Type 0} (lookup : Text → Option A) (shape : A → List ResumeBullet → ResumeSectionEntry)
        → ((a : A) (bullets : List ResumeBullet) → (shape a bullets).bullets ≡ bullets)
        → (selections : List FitSelection) (entries : List ResumeSectionEntry)
        → build_entries evidence missing_keywords lookup shape selections ≡ some entries
        → All QuotedEntry entries
    unfolding build_entries
    build_entries-QuotedEntry lookup shape keeps [] entries h =
        subst (All QuotedEntry) (some-injective _ _ h) tt
    build_entries-QuotedEntry lookup shape keeps (s ∷ selections) entries h =
        let (found, seen, h1) = bind_parts (lookup s.entry_id) _ entries h in
        let (bullets, built, h2) =
          bind_parts (build_payload_bullets evidence missing_keywords s.bullet_ids) _ entries h1 in
        let (rest, others, h3) =
          bind_parts (build_entries evidence missing_keywords lookup shape selections) _ entries
            h2 in
        subst (All QuotedEntry) (some-injective _ _ h3) (
          subst (All (IsQuoted evidence.items)) (sym (keeps found bullets))
              (build_payload_bullets-IsQuoted s.bullet_ids bullets built),
          build_entries-QuotedEntry lookup shape keeps selections rest others,
        )

  highlight_sections-QuotedSection :
      (entries : List ResumeSectionEntry)
      → All QuotedEntry entries
      → All QuotedSection (highlight_sections entries)
  highlight_sections-QuotedSection [] h = tt
  highlight_sections-QuotedSection (e ∷ rest) h = (h, tt)

  all_sections-QuotedSection :
      (fit : FitResult) (max_skills : ℕ)
      (experience_entries highlight_entries project_entries : List ResumeSectionEntry)
      → All QuotedEntry experience_entries
      → All QuotedEntry highlight_entries
      → All QuotedEntry project_entries
      → All QuotedSection (
          all_sections evidence fit max_skills experience_entries highlight_entries project_entries)
  all_sections-QuotedSection fit max_skills experience_entries highlight_entries project_entries x h
        p =
      (
        tt,
        All-append QuotedSection (highlight_sections highlight_entries) _
            (highlight_sections-QuotedSection highlight_entries h) (tt, (x, (p, (tt, tt)))),
      )

  build_resume_payload-QuotedSection :
      (fit : FitResult) (hash : Text) (max_skills : ℕ) (payload : ResumePayload)
      → build_resume_payload evidence fit hash max_skills ≡ some payload
      → All QuotedSection payload.sections
  unfolding build_resume_payload
  build_resume_payload-QuotedSection fit hash max_skills payload h =
      let missing : List Text = fit.missing_keywords in
      let (experience, e, h1) = bind_parts _ _ payload h in
      let (highlights, g, h2) = bind_parts _ _ payload h1 in
      let (projects, p, h3) = bind_parts _ _ payload h2 in
      subst (λ (r : ResumePayload). All QuotedSection r.sections) (some-injective _ _ h3)
        (all_sections-QuotedSection fit max_skills experience highlights projects
          (build_entries-QuotedEntry missing _ _ (λ a bullets. refl) fit.role_selections experience
            e)
          (build_entries-QuotedEntry missing _ _ (λ a bullets. refl) fit.supplemental_selections
            highlights g)
          (build_entries-QuotedEntry missing _ _ (λ a bullets. refl) fit.project_selections projects
            p))

module _ (hashes : Hashes) (evidence : ResumeEvidencePackage) (target : Target)
    (template_version : Text) (fallback_enabled : Bool) where
  build_candidate-QuotedSection :
      (limits : LayoutLimits) (labels : List Text) (c : PlannedResumeArtifacts)
      → build_candidate hashes evidence target template_version fallback_enabled limits labels
        ≡ some c
      → All (QuotedSection evidence) c.payload.sections
  unfolding build_candidate
  build_candidate-QuotedSection limits labels c h =
      let (fit, selected, h1) = bind_parts (build_fit_result evidence target limits) _ c h in
      let (payload, built, h2) = bind_parts _ _ c h1 in
      let (measured, estimate, h3) =
        bind_parts
          (estimate_payload_height payload (build_layout_plan payload template_version limits))
          (λ m. some (
            planned hashes evidence target template_version fallback_enabled limits labels fit
              payload m))
          c h2 in
      subst (λ (r : PlannedResumeArtifacts). All (QuotedSection evidence) r.payload.sections)
        (some-injective _ _ h3) (build_resume_payload-QuotedSection evidence fit _ _ payload built)

  tried-QuotedSection :
      (profiles : List LayoutLimits) (labels : List Text) (tried : List PlannedResumeArtifacts)
      (c : PlannedResumeArtifacts)
      → Candidates hashes evidence target template_version fallback_enabled profiles labels tried
      → Among c tried
      → All (QuotedSection evidence) c.payload.sections
  tried-QuotedSection profiles labels [] c built a = elim a [ ]
  tried-QuotedSection [] labels (t ∷ tried) c built a = elim built [ ]
  tried-QuotedSection (limits ∷ profiles) labels (t ∷ tried) c (built, rest) (inl e) =
      build_candidate-QuotedSection limits (labels ++ limits.label ∷ []) c (built ∙ ap some (sym e))
  tried-QuotedSection (limits ∷ profiles) labels (t ∷ tried) c (built, rest) (inr a) =
      tried-QuotedSection profiles (labels ++ limits.label ∷ []) tried c rest a

  -- Every bullet of a planned resume names an item of the evidence package and has exactly the text
  -- and the source type of that item.
  pub plan_resume_artifacts-QuotedSection :
      (c : PlannedResumeArtifacts)
      → plan_resume_artifacts hashes evidence target template_version fallback_enabled ≡ some c
      → All (QuotedSection evidence) c.payload.sections
  plan_resume_artifacts-QuotedSection c h =
      let plan =
        plan_resume_artifacts-IsPlan hashes evidence target template_version fallback_enabled c h in
      tried-QuotedSection fit_compaction_profiles [] plan.tried c plan.built (elim plan.outcome [
        | inl f ↦ subst (Among c) (sym f.last) (last_among c f.before)
        | inr s ↦ s.is_one
      ])
