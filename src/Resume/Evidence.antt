-- ===== src/Resume/Evidence.antt =====
-- core/resumes/evidence_types.py: the evidence package, and what its constructor checks.
use jobbot.Prelude.{Bool, true, not, ◌&&◌, List, [], ◌∷◌, Option, none, some, map, if◌then◌else◌}
use jobbot.Text.{Text, lit, strip, text_eq, text_mem}
use jobbot.Text.Upper.{upper}
use jobbot.Ingest.{text_or, value_or_empty}

pub record ResumeEducationRecord : Type 0 where
  pub school : Text
  pub degree : Text
  pub year : Text

pub record ResumeEvidenceItem : Type 0 where
  pub id : Text
  pub source_type : Text
  pub item_type : Text
  pub text : Text
  pub tags : List Text
  pub metrics : List Text
  pub parent_id : Option Text
  pub attributes : List (Text × Text)

-- The fields that the selection reads.
pub record ResumeEvidenceSource : Type 0 where
  pub source_name : Text
  pub used_for_facts : Bool

pub record ResumeEvidenceRole : Type 0 where
  pub id : Text
  pub company : Text
  pub title : Text
  pub location : Text
  pub start : Text
  pub end : Text
  pub tags : List Text
  pub bullet_ids : List Text

pub record ResumeEvidenceProject : Type 0 where
  pub id : Text
  pub name : Text
  pub description : Text
  pub url : Option Text
  pub bullet_ids : List Text

pub record ResumeEvidenceSupplementalEntry : Type 0 where
  pub id : Text
  pub source_type : Text
  pub heading : Text
  pub subheading : Text
  pub dates : Text
  pub bullet_ids : List Text

pub record ResumeEvidencePackage : Type 0 where
  pub summary_variants : List (Text × Text)
  pub skills : List Text
  pub education : List ResumeEducationRecord
  pub roles : List ResumeEvidenceRole
  pub projects : List ResumeEvidenceProject
  pub supplemental_entries : List ResumeEvidenceSupplementalEntry
  pub items : List ResumeEvidenceItem
  pub source_metadata : List ResumeEvidenceSource
  pub inventory_version_hash : Option Text

-- `len(set) == len(list)`
unfoldable pub all_distinct : List Text → Bool
unfolding text_mem
all_distinct [] = true
all_distinct (t ∷ ts) = not (text_mem t ts) && all_distinct ts

abbrev pub all_of : {A : Type 0} → (A → Bool) → List A → Bool
all_of p [] = true
all_of p (x ∷ xs) = p x && all_of p xs

abbrev pub item_ids : ResumeEvidencePackage → List Text
item_ids evidence = map (λ i. i.id) evidence.items

-- The references that `__post_init__` checks.
unfoldable pub is_consistent : ResumeEvidencePackage → Bool
unfolding all_distinct text_mem
is_consistent evidence =
    let known =
      λ (bullet_ids : List Text). all_of (λ b. text_mem b (item_ids evidence)) bullet_ids in
    all_distinct (item_ids evidence)
    && all_distinct (map (λ s. s.source_name) evidence.source_metadata)
    && all_of (λ r. known r.bullet_ids) evidence.roles
    && all_of (λ p. known p.bullet_ids) evidence.projects
    && all_of (λ e. known e.bullet_ids) evidence.supplemental_entries

-- The KeyError of an unknown id is `none`. As the ids are distinct, `item_lookup` finds the same item.
unfoldable pub get_item : Text → List ResumeEvidenceItem → Option ResumeEvidenceItem
unfolding text_eq
get_item id [] = none
get_item id (i ∷ items) = let later = get_item id items in if text_eq i.id id then some i else later

-- `dict(pairs).get(key)`: the last pair of a key counts.
unfoldable pub lookup_last : Text → List (Text × Text) → Option Text
unfolding text_eq
lookup_last key [] = none
lookup_last key ((k, v) ∷ rest) =
    let here = if text_eq k key then some v else none in
    elim (lookup_last key rest) [ none ↦ here | some w ↦ some w ]

unfoldable pub summary_for_persona : ResumeEvidencePackage → (persona : Text) → Text
unfolding lookup_last strip upper
summary_for_persona evidence persona = value_or_empty (
    text_or (lookup_last (upper (strip persona)) evidence.summary_variants)
      (lookup_last (lit "HYBRID") evidence.summary_variants))
