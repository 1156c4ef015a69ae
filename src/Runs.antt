-- ===== src/Runs.antt =====
-- apps/api/routes/runs.py, and `normalize_run_item` of core/run_items.py on the items of a stored run.
-- An item is a dict whose keys hold texts or nothing, but for a number and two flags; a key that is
-- there and holds None counts as missing. A payload has no blanks around it. The order of the rows of a query is an argument.
use jobbot.Prelude.{
  ℕ, suc, ◌-◌, ◌*◌, Bool, true, ◌&&◌, List, [], ◌∷◌, ◌++◌, map, Option, none, some, select, take,
  drop, length, leb, ◌==◌, if◌then◌else◌,
}
use jobbot.Text.{Text, lit, lower, contains, text_eq}
use jobbot.RunItems.{
  RunItem, first_value, string_or_empty, string_or_none, normalize_outcome, infer_ats_type,
}
use jobbot.Ingest.{Stats}
use jobbot.Api.{Response, ok, refused}

-- A row of scrape_runs.items_json, of whatever version.
pub record RawRunItem : Type 0 where
  pub index : Option ℕ
  pub outcome : Option Text
  pub job_id : Option ℕ
  pub dedup_hash : Option Text
  pub source : Option Text
  pub source_job_id : Option Text
  pub external_id : Option Text
  pub title : Option Text
  pub company_name : Option Text
  pub company : Option Text
  pub location : Option Text
  pub url : Option Text
  pub source_url : Option Text
  pub listing_url : Option Text
  pub apply_url : Option Text
  pub ats_type : Option Text
  pub raw_payload_json : Option Text
  pub raw_payload : Option Text
  pub source_payload_json : Option Text
  pub dedup_reason : Option Text
  pub reason : Option Text
  pub source_confidence : Option ℕ
  pub backfilled_payload : Option Bool
  pub backfilled_apply_url : Option Bool

abbrev or_index : Option ℕ → ℕ → ℕ
or_index none d = d
or_index (some n) d = n

unfoldable pub normalize_run_item : (run_source : Text) → (default_index : ℕ) → RawRunItem → RunItem
unfolding first_value string_or_empty string_or_none normalize_outcome infer_ats_type
normalize_run_item run_source default_index raw =
    let source = string_or_empty (first_value (raw.source ∷ some run_source ∷ [])) in
    let url =
      string_or_empty
        (first_value (raw.url ∷ raw.source_url ∷ raw.listing_url ∷ raw.apply_url ∷ [])) in
    let apply_url = string_or_none (first_value (raw.apply_url ∷ raw.url ∷ [])) in
    record {
      index = or_index raw.index default_index;
      outcome = normalize_outcome raw.outcome;
      job_id = raw.job_id;
      dedup_hash = string_or_empty raw.dedup_hash;
      source = source;
      source_job_id = string_or_none (first_value (raw.source_job_id ∷ raw.external_id ∷ []));
      title = string_or_empty raw.title;
      company_name = string_or_empty (first_value (raw.company_name ∷ raw.company ∷ []));
      location = string_or_none raw.location;
      url = url;
      apply_url = apply_url;
      ats_type = infer_ats_type source url apply_url raw.ats_type;
      raw_payload_json =
          string_or_empty
            (first_value (raw.raw_payload_json ∷ raw.raw_payload ∷ raw.source_payload_json ∷ []));
      dedup_reason = raw.dedup_reason;
      reason = raw.reason;
      source_confidence = raw.source_confidence;
      backfilled_payload = raw.backfilled_payload;
      backfilled_apply_url = raw.backfilled_apply_url;
    }

unfoldable pub normalize_from : (run_source : Text) → (index : ℕ) → List RawRunItem → List RunItem
unfolding normalize_run_item
normalize_from run_source index [] = []
normalize_from run_source index (item ∷ items) =
    normalize_run_item run_source index item ∷ normalize_from run_source (suc index) items

abbrev pub normalize_run_items : (run_source : Text) → List RawRunItem → List RunItem
normalize_run_items run_source items = normalize_from run_source 1 items

pub record StoredRun : Type 0 where
  pub id : ℕ
  pub source : Text
  pub started_at : ℕ
  pub finished_at : Option ℕ
  pub status : Text
  pub stats_json : Option Stats
  pub items_json : List RawRunItem
  pub error_text : Option Text
  pub created_at : ℕ

pub record ItemCounts : Type 0 where
  pub all : ℕ
  pub inserted : ℕ
  pub duplicates : ℕ

pub record RunSummary : Type 0 where
  pub id : ℕ
  pub source : Text
  pub started_at : ℕ
  pub finished_at : Option ℕ
  pub status : Text
  pub stats_json : Option Stats
  pub item_counts : ItemCounts
  pub error_text : Option Text
  pub created_at : ℕ

abbrev pub has_outcome : Text → RunItem → Bool
has_outcome outcome item = text_eq item.outcome outcome

unfoldable pub count_items : List RunItem → ItemCounts
unfolding text_eq
count_items items = record {
  all = length items;
  inserted = length (select (has_outcome (lit "inserted")) items);
  duplicates = length (select (has_outcome (lit "duplicate")) items);
}

unfoldable pub run_to_dict : StoredRun → RunSummary
unfolding count_items normalize_from
run_to_dict run = record {
  id = run.id;
  source = run.source;
  started_at = run.started_at;
  finished_at = run.finished_at;
  status = run.status;
  stats_json = run.stats_json;
  item_counts = count_items (normalize_run_items run.source run.items_json);
  error_text = run.error_text;
  created_at = run.created_at;
}

-- `if source:` and `if status:`
abbrev pub matches_filter : Option Text → Text → Bool
matches_filter none value = true
matches_filter (some []) value = true
matches_filter (some (c ∷ s)) value = text_eq value (c ∷ s)

pub record RunList : Type 0 where
  pub items : List RunSummary
  pub total : ℕ
  pub page : ℕ
  pub per_page : ℕ

unfoldable pub list_runs :
    (order_by : List StoredRun → List StoredRun)
    → (source status : Option Text) → (page per_page : ℕ) → List StoredRun
    → RunList
unfolding run_to_dict text_eq
list_runs order_by source status page per_page runs =
    let found =
      select (λ r. matches_filter source r.source && matches_filter status r.status) runs in
    record {
      items = map run_to_dict (take per_page (drop ((page - 1) * per_page) (order_by found)));
      total = length found;
      page = page;
      per_page = per_page;
    }

abbrev find_run : ℕ → List StoredRun → Option StoredRun
find_run id [] = none
find_run id (r ∷ runs) = if r.id == id then some r else find_run id runs

abbrev answer : {A : Type 0} → (StoredRun → A) → Option StoredRun → Response A
answer f none = refused record { status_code = 404; detail = lit "Run not found" }
answer f (some run) = ok (f run)

unfoldable pub get_run : (run_id : ℕ) → List StoredRun → Response RunSummary
unfolding run_to_dict
get_run run_id runs = answer run_to_dict (find_run run_id runs)

abbrev or_empty : Option Text → Text
or_empty none = []
or_empty (some t) = t

abbrev join_spaced : List Text → Text
join_spaced [] = []
join_spaced (t ∷ []) = t
join_spaced (t ∷ u ∷ rest) = t ++ (32 ∷ join_spaced (u ∷ rest))

abbrev pub haystack : RunItem → Text
haystack item = lower (
    join_spaced (
      item.title
      ∷ item.company_name
      ∷ item.source
      ∷ or_empty item.source_job_id
      ∷ item.url
      ∷ or_empty item.apply_url
      ∷ item.ats_type
      ∷ []))

abbrev pub matches_query : Option Text → RunItem → Bool
matches_query none item = true
matches_query (some []) item = true
matches_query (some (c ∷ q)) item = contains (lower (c ∷ q)) (haystack item)

-- filtered.sort(key=lambda i: int(i.get("index", 0)))
abbrev insert_item : RunItem → List RunItem → List RunItem
insert_item i [] = i ∷ []
insert_item i (k ∷ rest) = if leb i.index k.index then i ∷ k ∷ rest else k ∷ insert_item i rest

abbrev pub sort_items : List RunItem → List RunItem
sort_items [] = []
sort_items (i ∷ rest) = insert_item i (sort_items rest)

pub record RunItemPage : Type 0 where
  pub items : List RunItem
  pub total : ℕ
  pub page : ℕ
  pub per_page : ℕ
  pub counts : ItemCounts

-- `outcome` is "inserted" or "duplicate".
abbrev pub page_of : (outcome q : Option Text) → (page per_page : ℕ) → List RunItem → RunItemPage
page_of outcome q page per_page all_items =
    let filtered = select (λ i. matches_filter outcome i.outcome && matches_query q i) all_items in
    record {
      items = take per_page (drop ((page - 1) * per_page) (sort_items filtered));
      total = length filtered;
      page = page;
      per_page = per_page;
      counts = count_items all_items;
    }

unfoldable pub get_run_items :
    (run_id : ℕ)
    → (outcome q : Option Text) → (page per_page : ℕ) → List StoredRun
    → Response RunItemPage
unfolding normalize_from count_items text_eq contains lower
get_run_items run_id outcome q page per_page runs =
    answer (λ run. page_of outcome q page per_page (normalize_run_items run.source run.items_json))
      (find_run run_id runs)
