-- ===== src/Tests/Resume.antt =====
-- A resume that is planned from a small inventory.
use jobbot.Text.Decimal.{str}
use jobbot.Resume.Inventory.{InventoryBullet, ExperienceInventory, build_inventory_evidence_package}
use jobbot.Prelude.{map, none, refl, [], ◌∷◌, some, List, true, ◌≡◌, All, some_of}
use jobbot.Text.{Text, lit}
use jobbot.Resume.Evidence.{is_consistent, ResumeEvidenceItem, ResumeEvidencePackage}
use jobbot.Resume.Fit.{Target, select_group}
use jobbot.Resume.Planner.{
  Hashes, PlannedResumeArtifacts, fit_compaction_profiles, plan_resume_artifacts,
}
use jobbot.Resume.FirstFit.{IsPlan, plan_resume_artifacts-IsPlan}
use jobbot.Resume.Grounded.{QuotedSection, plan_resume_artifacts-QuotedSection}
use jobbot.Resume.Top.{IsTopGroup, select_group-IsTopGroup}

abbrev item : Text → Text → List Text → ResumeEvidenceItem
item id text tags = record {
  id = id;
  source_type = lit "inventory";
  item_type = lit "role_bullet";
  text = text;
  tags = tags;
  metrics = [];
  parent_id = some (lit "role:0");
  attributes = [];
}

abbrev bullet_ids : List Text
bullet_ids = lit "b0" ∷ lit "b1" ∷ lit "b2" ∷ []

abbrev evidence : ResumeEvidencePackage
evidence = record {
  summary_variants = (lit "HYBRID", lit "An engineer") ∷ [];
  skills = lit "go" ∷ lit "sql" ∷ [];
  education = record { school = lit "A"; degree = lit "BSc"; year = lit "2020" } ∷ [];
  roles =
      record {
        id = lit "role:0";
        company = lit "Acme";
        title = lit "Dev";
        location = [];
        start = lit "2020";
        end = [];
        tags = lit "backend" ∷ [];
        bullet_ids = bullet_ids;
      }
      ∷ [];
  projects = [];
  supplemental_entries = [];
  items =
      item (lit "b0") (lit "wrote tests") []
      ∷ item (lit "b1") (lit "ran sql") []
      ∷ item (lit "b2") (lit "built a go api") (lit "api" ∷ [])
      ∷ [];
  source_metadata = [];
  inventory_version_hash = some (lit "v1");
}

abbrev target : Target
target = record {
  persona = lit "backend";
  target_keywords = lit "go" ∷ lit "sql" ∷ [];
  found_keywords = lit "go" ∷ [];
  missing_keywords = lit "sql" ∷ [];
}

abbrev hashes : Hashes
hashes = record { of_evidence = λ e. lit "e"; of_fit = λ f. lit "f"; of_input = λ i. lit "i" }

-- Two of the three bullets are kept, the best first.
best_two :
    select_group evidence target bullet_ids 2
    ≡ some record { selected_ids = lit "b2" ∷ lit "b1" ∷ []; total = 9 }
unfolding select_group
best_two = refl

select_group-IsTopGroup_example :
    IsTopGroup evidence target bullet_ids 2
      record { selected_ids = lit "b2" ∷ lit "b1" ∷ []; total = 9 }
select_group-IsTopGroup_example = select_group-IsTopGroup evidence target bullet_ids 2 _ best_two

found :
    (c : PlannedResumeArtifacts) × (plan_resume_artifacts hashes evidence target (lit "t") true
      ≡ some c)
unfolding plan_resume_artifacts
found = some_of (plan_resume_artifacts hashes evidence target (lit "t") true) refl

plan_resume_artifacts-IsPlan_example :
    IsPlan hashes evidence target (lit "t") true fit_compaction_profiles [] found.0
plan_resume_artifacts-IsPlan_example =
    plan_resume_artifacts-IsPlan hashes evidence target (lit "t") true found.0 found.1

plan_resume_artifacts-QuotedSection_example : All (QuotedSection evidence) found.0.payload.sections
plan_resume_artifacts-QuotedSection_example =
    plan_resume_artifacts-QuotedSection hashes evidence target (lit "t") true found.0 found.1

abbrev bullet : Text → InventoryBullet
bullet text = record { text = text; tags = []; metrics = [] }

abbrev inventory : ExperienceInventory
inventory = record {
  summary_variants = (lit "HYBRID", lit "h") ∷ (lit "BACKEND", lit "b") ∷ [];
  skills = [];
  roles =
      record {
        company = lit "Acme";
        title = lit "Dev";
        location = [];
        start = [];
        end = [];
        bullets = bullet (lit "one") ∷ bullet (lit "two") ∷ [];
        tags = [];
      }
      ∷ [];
  projects =
      record { name = lit "p"; description = []; url = none; bullets = bullet (lit "three") ∷ [] }
      ∷ [];
  education = [];
}

package_consistent : is_consistent (build_inventory_evidence_package inventory (lit "v1")) ≡ true
unfolding is_consistent build_inventory_evidence_package
package_consistent = refl

package_ids :
    map (λ i. i.id) (build_inventory_evidence_package inventory (lit "v1")).items
    ≡ lit "role:0:bullet:0" ∷ lit "role:0:bullet:1" ∷ lit "project:0:bullet:0" ∷ []
unfolding build_inventory_evidence_package
package_ids = refl

three_digits : str 130 ≡ lit "130"
unfolding str
three_digits = refl
