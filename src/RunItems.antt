-- ===== src/RunItems.antt =====
-- core/run_items.py, as the ingest tasks use it: `make_run_item`, whose arguments are texts or None,
-- and `detect_ats_type` of core/scraping/base.py.
use jobbot.Prelude.{ℕ, Bool, List, [], ◌∷◌, Option, none, some, if◌then◌else◌, is_nil, any}
use jobbot.Text.{Text, lit, lower, strip, text_eq, contains}
use jobbot.Keywords.{words}

-- The first value that is not blank, stripped.
unfoldable pub first_value : List (Option Text) → Option Text
unfolding strip
first_value [] = none
first_value (none ∷ rest) = first_value rest
first_value (some value ∷ rest) =
    let later = first_value rest in if is_nil (strip value) then later else some (strip value)

unfoldable pub string_or_empty : Option Text → Text
unfolding strip
string_or_empty none = []
string_or_empty (some value) = strip value

unfoldable pub string_or_none : Option Text → Option Text
unfolding strip
string_or_none none = none
string_or_none (some value) = if is_nil (strip value) then none else some (strip value)

abbrev or_text : Text → Text → Text
or_text [] d = d
or_text (c ∷ s) d = c ∷ s

unfoldable pub normalize_outcome : Option Text → Text
unfolding string_or_empty text_eq
normalize_outcome value =
    let outcome = or_text (string_or_empty value) (lit "skipped") in
    if text_eq outcome (lit "not_found") then lit "skipped" else outcome

abbrev ats_url_patterns : List (Text × List Text)
ats_url_patterns =
    (lit "greenhouse", words ("boards.greenhouse.io" ∷ "greenhouse.io/" ∷ []))
    ∷ (lit "lever", words ("jobs.lever.co" ∷ []))
    ∷ (lit "ashby", words ("jobs.ashbyhq.com" ∷ "ashbyhq.com/" ∷ []))
    ∷ (lit "workday", words ("myworkdayjobs.com" ∷ "wd5.myworkday" ∷ "workday.com/" ∷ []))
    ∷ (lit "yc", words ("workatastartup.com" ∷ []))
    ∷ []

unfoldable first_ats : Text → List (Text × List Text) → Option Text
unfolding contains
first_ats url_lower [] = none
first_ats url_lower ((ats, patterns) ∷ rest) =
    let later = first_ats url_lower rest in
    if any (λ p. contains p url_lower) patterns then some ats else later

-- ATSType.UNKNOWN is `none`.
unfoldable pub detect_ats_type : Text → Option Text
unfolding first_ats lower
detect_ats_type url = first_ats (lower url) ats_url_patterns

abbrev text_or : Option Text → Text → Text
text_or none d = d
text_or (some []) d = d
text_or (some (c ∷ s)) d = c ∷ s

unfoldable pub infer_ats_type : (source url : Text) → (apply_url ats_type : Option Text) → Text
unfolding string_or_empty detect_ats_type
infer_ats_type source url apply_url ats_type =
    or_text (string_or_empty ats_type)
      (text_or (detect_ats_type (text_or apply_url url)) (or_text source (lit "unknown")))

-- The dict that is stored in ScrapeRun.items_json.
pub record RunItem : Type 0 where
  pub index : ℕ
  pub outcome : Text
  pub job_id : Option ℕ
  pub dedup_hash : Text
  pub source : Text
  pub source_job_id : Option Text
  pub title : Text
  pub company_name : Text
  pub location : Option Text
  pub url : Text
  pub apply_url : Option Text
  pub ats_type : Text
  pub raw_payload_json : Text
  pub dedup_reason : Option Text
  pub reason : Option Text
  pub source_confidence : Option ℕ
  pub backfilled_payload : Option Bool
  pub backfilled_apply_url : Option Bool

-- The keyword arguments of make_run_item, with the five `extra` ones that the tasks pass.
pub record ItemFields : Type 0 where
  pub index : ℕ
  pub outcome : Text
  pub job_id : Option ℕ
  pub dedup_hash : Option Text
  pub source : Text
  pub source_job_id : Option Text
  pub title : Option Text
  pub company_name : Option Text
  pub location : Option Text
  pub url : Option Text
  pub apply_url : Option Text
  pub ats_type : Option Text
  pub raw_payload_json : Text
  pub dedup_reason : Option Text
  pub reason : Option Text
  pub source_confidence : Option ℕ
  pub backfilled_payload : Option Bool
  pub backfilled_apply_url : Option Bool

-- normalize_run_item of the dict of these arguments.
unfoldable pub make_run_item : ItemFields → RunItem
unfolding first_value string_or_empty string_or_none normalize_outcome infer_ats_type
make_run_item f =
    let source = string_or_empty (first_value (some f.source ∷ some f.source ∷ [])) in
    let url = string_or_empty (first_value (f.url ∷ f.apply_url ∷ [])) in
    let apply_url = string_or_none (first_value (f.apply_url ∷ f.url ∷ [])) in
    record {
      index = f.index;
      outcome = normalize_outcome (some f.outcome);
      job_id = f.job_id;
      dedup_hash = string_or_empty f.dedup_hash;
      source = source;
      source_job_id = string_or_none (first_value (f.source_job_id ∷ []));
      title = string_or_empty f.title;
      company_name = string_or_empty (first_value (f.company_name ∷ []));
      location = string_or_none f.location;
      url = url;
      apply_url = apply_url;
      ats_type = infer_ats_type source url apply_url f.ats_type;
      raw_payload_json = f.raw_payload_json;
      dedup_reason = f.dedup_reason;
      reason = f.reason;
      source_confidence = f.source_confidence;
      backfilled_payload = f.backfilled_payload;
      backfilled_apply_url = f.backfilled_apply_url;
    }
