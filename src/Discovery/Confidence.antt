-- ===== src/Discovery/Confidence.antt =====
-- The confidence of a discovered row, and what the generation gate makes of it.
use jobbot.Prelude.{Bool, ℕ, ◌≤◌, ◌≡◌, refl, true, false, Option, String, ◌⊎◌, arith, leb}
use jobbot.Text.{Text, lit, text_eq}
use jobbot.Model.{Captured, Job}
use jobbot.Scrape.{NormalizedJob, is_set, compute_jobspy_source_confidence, scraped_job}
use jobbot.Gate.{default_config, has_content_quality}
use jobbot.Ingest.{CanonicalJob, RawJob, Shown, new_job}
use jobbot.Discovery.{compute_source_confidence, discovery_origin}

-- Between 50 and 100, and below 70 for SERP1.
pub compute_source_confidence-InRange :
    (c : CanonicalJob) (source_name : Text)
    → (50 ≤ compute_source_confidence c source_name)
      × (compute_source_confidence c source_name ≤ 100)
      × ((text_eq source_name (lit "serp1") ≡ false)
          ⊎ (compute_source_confidence c source_name ≤ 69))
unfolding compute_source_confidence
compute_source_confidence-InRange c source_name = ground arith

linked_confidence :
    (c : CanonicalJob) (source_name : Text)
    → text_eq source_name (lit "serp1") ≡ false
    → is_set c.apply_url ≡ true
    → leb 70 (compute_source_confidence c source_name) ≡ true
unfolding compute_source_confidence
linked_confidence c source_name other linked = ground arith

serp_confidence : (c : CanonicalJob) → leb 70 (compute_source_confidence c (lit "serp1")) ≡ false
unfolding compute_source_confidence text_eq
serp_confidence c = ground arith

scraped_confidence :
    (description apply_url location : Option Text)
    → is_set apply_url ≡ true
    → leb 70 (compute_jobspy_source_confidence description apply_url location) ≡ true
unfolding compute_jobspy_source_confidence
scraped_confidence description apply_url location linked = ground arith

-- A row as the discovery tasks insert it: from a connector or an adapter other than SERP1, or from a
-- scrape.
pub data IsDiscovered : Job → Type 0 where
  found :
      (source_name : String)
      → (captured : RawJob → Option Captured) → (shown : RawJob → Shown) → (id : ℕ) → (hash : Text)
      → (c : CanonicalJob) → text_eq (lit source_name) (lit "serp1") ≡ false
      → IsDiscovered (new_job (discovery_origin source_name captured shown) id hash c)
  scraped : (id : ℕ) → (hash : Text) → (nj : NormalizedJob) → IsDiscovered (scraped_job id hash nj)

abbrev pub accepted_content : Job → Bool
accepted_content job =
    has_content_quality job default_config.discovery_agg1_confidence_min
      default_config.discovery_agg1_content_quality_min
      default_config.discovery_agg1_description_min_len

found_accepted :
    (source_name : String) (captured : RawJob → Option Captured) (shown : RawJob → Shown) (id : ℕ)
    (hash : Text) (c : CanonicalJob)
    → text_eq (lit source_name) (lit "serp1") ≡ false
    → is_set c.apply_url ≡ true
    → accepted_content (new_job (discovery_origin source_name captured shown) id hash c) ≡ true
unfolding has_content_quality new_job discovery_origin
found_accepted source_name captured shown id hash c other linked =
    rw (linked_confidence c (lit source_name) other linked) refl

scraped_accepted :
    (id : ℕ) (hash : Text) (nj : NormalizedJob)
    → is_set nj.apply_url ≡ true
    → accepted_content (scraped_job id hash nj) ≡ true
unfolding has_content_quality scraped_job
scraped_accepted id hash nj linked =
    rw (scraped_confidence nj.description nj.apply_url nj.location linked) refl

-- The content check of the generation gate with its default thresholds accepts every row that a
-- scrape, or a discovery connector or adapter other than SERP1, inserts with an apply URL.
pub discovered-has_content_quality :
    (job : Job) → IsDiscovered job → is_set job.apply_url ≡ true → accepted_content job ≡ true
unfolding new_job scraped_job
discovered-has_content_quality _ (found source_name captured shown id hash c other) linked =
    found_accepted source_name captured shown id hash c other linked
discovered-has_content_quality _ (scraped id hash nj) linked = scraped_accepted id hash nj linked

-- With its capped confidence no new row of SERP1 passes that check.
pub serp-lacks_content_quality :
    (captured : RawJob → Option Captured) (shown : RawJob → Shown) (id : ℕ) (hash : Text)
    (c : CanonicalJob)
    → has_content_quality
        (new_job (discovery_origin "serp1" captured shown) id hash c)
        default_config.discovery_agg1_confidence_min
        default_config.discovery_agg1_content_quality_min
        default_config.discovery_agg1_description_min_len
      ≡ false
unfolding has_content_quality new_job discovery_origin
serp-lacks_content_quality captured shown id hash c = rw (serp_confidence c) refl
