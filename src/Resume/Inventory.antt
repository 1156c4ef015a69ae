-- ===== src/Resume/Inventory.antt =====
-- core/inventory/types.py, and `build_inventory_evidence_package` of core/resumes/v2_pipeline.py. The
-- contact block is left out. The keys of the summaries are distinct, so the keys alone order them.
use jobbot.Prelude.{ℕ, suc, if◌then◌else◌, List, [], ◌∷◌, ◌++◌, map, Option, some}
use jobbot.Text.{Text, lit}
use jobbot.Text.Decimal.{str}
use jobbot.Text.Order.{text_le}
use jobbot.Resume.Evidence.{
  ResumeEducationRecord, ResumeEvidenceItem, ResumeEvidenceRole, ResumeEvidenceProject,
  ResumeEvidencePackage,
}

pub record InventoryBullet : Type 0 where
  pub text : Text
  pub tags : List Text
  pub metrics : List Text

pub record Role : Type 0 where
  pub company : Text
  pub title : Text
  pub location : Text
  pub start : Text
  pub end : Text
  pub bullets : List InventoryBullet
  pub tags : List Text

pub record Project : Type 0 where
  pub name : Text
  pub description : Text
  pub url : Option Text
  pub bullets : List InventoryBullet

pub record ExperienceInventory : Type 0 where
  pub summary_variants : List (Text × Text)
  pub skills : List Text
  pub roles : List Role
  pub projects : List Project
  pub education : List ResumeEducationRecord

-- The items of the entries, and what the entries become.
pub record Collected (A : Type 0) : Type 0 where
  pub items : List ResumeEvidenceItem
  pub entries : List A

abbrev insert_pair : Text × Text → List (Text × Text) → List (Text × Text)
insert_pair p [] = p ∷ []
insert_pair p (q ∷ rest) = if text_le p.0 q.0 then p ∷ q ∷ rest else q ∷ insert_pair p rest

unfoldable pub sorted_pairs : List (Text × Text) → List (Text × Text)
unfolding text_le
sorted_pairs [] = []
sorted_pairs (p ∷ rest) = insert_pair p (sorted_pairs rest)

unfoldable pub bullet_id_of : (parent_id : Text) → (bullet_index : ℕ) → Text
unfolding str
bullet_id_of parent_id bullet_index = parent_id ++ (lit ":bullet:" ++ str bullet_index)

abbrev pub bullet_item :
    (item_type parent_id : Text)
    → (attributes : List (Text × Text)) → (bullet_index : ℕ) → InventoryBullet
    → ResumeEvidenceItem
bullet_item item_type parent_id attributes bullet_index bullet = record {
  id = bullet_id_of parent_id bullet_index;
  source_type = lit "inventory";
  item_type = item_type;
  text = bullet.text;
  tags = bullet.tags;
  metrics = bullet.metrics;
  parent_id = some parent_id;
  attributes = attributes;
}

unfoldable pub bullet_items :
    (item_type parent_id : Text)
    → (attributes : List (Text × Text)) → (bullet_index : ℕ) → List InventoryBullet
    → List ResumeEvidenceItem
bullet_items item_type parent_id attributes bullet_index [] = []
bullet_items item_type parent_id attributes bullet_index (b ∷ bullets) =
    bullet_item item_type parent_id attributes bullet_index b
    ∷ bullet_items item_type parent_id attributes (suc bullet_index) bullets

abbrev pub ids_of : List ResumeEvidenceItem → List Text
ids_of items = map (λ i. i.id) items

unfoldable pub role_id : ℕ → Text
unfolding str
role_id role_index = lit "role:" ++ str role_index

abbrev pub role_items : ℕ → Role → List ResumeEvidenceItem
role_items role_index role =
    bullet_items (lit "role_bullet") (role_id role_index)
      ((lit "company", role.company)
        ∷ (lit "title", role.title)
        ∷ (lit "location", role.location)
        ∷ (lit "start", role.start)
        ∷ (lit "end", role.end)
        ∷ [])
      0 role.bullets

abbrev pub evidence_role : ℕ → Role → ResumeEvidenceRole
evidence_role role_index role = record {
  id = role_id role_index;
  company = role.company;
  title = role.title;
  location = role.location;
  start = role.start;
  end = role.end;
  tags = role.tags;
  bullet_ids = ids_of (role_items role_index role);
}

unfoldable pub collect_roles : ℕ → List Role → Collected ResumeEvidenceRole
unfolding bullet_items bullet_id_of role_id
collect_roles role_index [] = record { items = []; entries = [] }
collect_roles role_index (role ∷ roles) =
    let rest = collect_roles (suc role_index) roles in
    record {
      items = role_items role_index role ++ rest.items;
      entries = evidence_role role_index role ∷ rest.entries;
    }

unfoldable pub project_id : ℕ → Text
unfolding str
project_id project_index = lit "project:" ++ str project_index

abbrev pub project_items : ℕ → Project → List ResumeEvidenceItem
project_items project_index project =
    bullet_items (lit "project_bullet") (project_id project_index)
      ((lit "name", project.name) ∷ (lit "description", project.description) ∷ []) 0 project.bullets

abbrev pub evidence_project : ℕ → Project → ResumeEvidenceProject
evidence_project project_index project = record {
  id = project_id project_index;
  name = project.name;
  description = project.description;
  url = project.url;
  bullet_ids = ids_of (project_items project_index project);
}

unfoldable pub collect_projects : ℕ → List Project → Collected ResumeEvidenceProject
unfolding bullet_items bullet_id_of project_id
collect_projects project_index [] = record { items = []; entries = [] }
collect_projects project_index (project ∷ projects) =
    let rest = collect_projects (suc project_index) projects in
    record {
      items = project_items project_index project ++ rest.items;
      entries = evidence_project project_index project ∷ rest.entries;
    }

unfoldable pub build_inventory_evidence_package :
    ExperienceInventory → (inventory_hash : Text) → ResumeEvidencePackage
unfolding collect_roles collect_projects sorted_pairs
build_inventory_evidence_package inventory inventory_hash =
    let roles = collect_roles 0 inventory.roles in
    let projects = collect_projects 0 inventory.projects in
    record {
      summary_variants = sorted_pairs inventory.summary_variants;
      skills = inventory.skills;
      education = inventory.education;
      roles = roles.entries;
      projects = projects.entries;
      supplemental_entries = [];
      items = roles.items ++ projects.items;
      source_metadata = [];
      inventory_version_hash = some inventory_hash;
    }
