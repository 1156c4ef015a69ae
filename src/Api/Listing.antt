-- ===== src/Api/Listing.antt =====
-- apps/api/routes/jobs.py: `list_jobs`, `list_ready_to_apply`, `get_job` and what they show of a row.
-- ORDER BY is an argument: a database may order rows with the same key in any way. A minimal score is
-- in tenths of a point.
use jobbot.Prelude.{
  ℕ, ◌-◌, ◌*◌, Bool, true, false, not, ◌&&◌, ◌||◌, List, [], ◌∷◌, ◌++◌, map, Option, none, some,
  String, any, select, take, drop, length, is_nil, is_some, leb, ◌==◌, if◌then◌else◌,
}
use jobbot.Text.{Text, lit, lower, strip, text_eq}
use jobbot.Status.{PipelineStatus, UserStatus, status_eq}
use jobbot.Model.{Job, JobAnalysis, Persona, Suggestion}
use jobbot.Model.Tables.{find_job, find_analysis}
use jobbot.Scoring.{or_text}
use jobbot.Ingest.{text_or, value_or_empty}
use jobbot.Api.{
  Response, ok, refused, not_found, user_status_value, pipeline_status_value, persona_value,
}

-- A row of artifacts. `artifact_role` is that key of `meta_json`.
pub record Artifact : Type 0 where
  pub job_id : ℕ
  pub kind : Text
  pub filename : Text
  pub path : Text
  pub file_url : Option Text
  pub generation_status : Option Text
  pub artifact_role : Option Text

pub record Rows : Type 0 where
  pub jobs : List Job
  pub analyses : List JobAnalysis
  pub artifacts : List Artifact

-- core/resumes/artifact_metadata.py
unfoldable pub get_resume_artifact_role : Option Text → Option Text
unfolding strip
get_resume_artifact_role none = none
get_resume_artifact_role (some role) = if is_nil (strip role) then none else some role

abbrev primary_by_role : Option Text → Text → Bool
primary_by_role none kind = text_eq (lower kind) (lit "pdf")
primary_by_role (some role) kind = text_eq role (lit "resume_pdf_primary")

unfoldable pub is_primary_resume_artifact : Artifact → Bool
unfolding get_resume_artifact_role text_eq lower
is_primary_resume_artifact a = primary_by_role (get_resume_artifact_role a.artifact_role) a.kind

abbrev is_available : Artifact → Bool
is_available a =
    is_primary_resume_artifact a
    && (text_eq (value_or_empty a.generation_status) (lit "success")
        || not (is_nil (value_or_empty (text_or a.file_url (some a.path)))))

unfoldable pub artifact_availability : List Artifact → Bool
unfolding is_primary_resume_artifact text_eq
artifact_availability artifacts = any is_available artifacts

abbrev pub artifacts_of : Job → List Artifact → List Artifact
artifacts_of j artifacts = select (λ a. a.job_id == j.id) artifacts

abbrev pub suggestion_in : Option JobAnalysis → Option Suggestion
suggestion_in none = none
suggestion_in (some a) = elim a.persona_specific_scores [
  | none ↦ none
  | some scores ↦ scores.resume_suggestion
]

abbrev pub persona_in : Option JobAnalysis → Option Persona
persona_in none = none
persona_in (some a) = a.matched_persona

pub record JobListItem : Type 0 where
  pub id : ℕ
  pub title : Text
  pub company : Text
  pub location : Option Text
  pub score : ℕ
  pub persona : Option Persona
  pub pipeline_status : PipelineStatus
  pub user_status : UserStatus
  pub artifact_availability : Bool
  pub source : String
  pub resume_suggestion : Option Suggestion

unfoldable pub job_to_list_item : Rows → Job → JobListItem
unfolding find_analysis artifact_availability
job_to_list_item rows j =
    let analysis = find_analysis j.id rows.analyses in
    record {
      id = j.id;
      title = or_text j.title j.normalized_title;
      company = or_text j.company_name_raw j.normalized_company;
      location = text_or j.location j.normalized_location;
      score = j.score_total;
      persona = persona_in analysis;
      pipeline_status = j.pipeline_status;
      user_status = j.user_status;
      artifact_availability = artifact_availability (artifacts_of j rows.artifacts);
      source = j.source;
      resume_suggestion = suggestion_in analysis;
    }

-- The parameters of `list_jobs` that filter.
pub record JobQuery : Type 0 where
  pub user_status : Option Text
  pub status : Option Text
  pub pipeline_status : Option Text
  pub source : Option Text
  pub persona : Option Text
  pub q : Option Text
  pub min_score : Option ℕ
  pub include_rejected : Bool

-- `if value: stmt = stmt.where(column == value)`
abbrev pub matches_value : Option Text → Text → Bool
matches_value wanted column =
    let value = value_or_empty wanted in is_nil value || text_eq column value

abbrev pub matches_pipeline : JobQuery → PipelineStatus → Bool
matches_pipeline query p =
    if is_nil (value_or_empty query.pipeline_status)
    then query.include_rejected || not (status_eq p PipelineStatus.rejected)
    else text_eq (pipeline_status_value p) (value_or_empty query.pipeline_status)

-- The join with job_analyses, which has at most one row for a job.
abbrev pub matches_persona : Option Text → Option Persona → Bool
matches_persona wanted p =
    let value = value_or_empty wanted in
    is_nil value || elim p [ none ↦ false | some persona ↦ text_eq (persona_value persona) value ]

-- SQL's LIKE with the escape character of PostgreSQL; the flag tells that it stood before.
abbrev some_suffix : (Text → Bool) → Text → Bool
some_suffix p [] = p []
some_suffix p (c ∷ s) = p (c ∷ s) || some_suffix p s

abbrev next_is : (ℕ → Bool) → (Text → Bool) → Text → Bool
next_is test p [] = false
next_is test p (c ∷ s) = test c && p s

unfoldable pub like : (escaped : Bool) → (pattern : Text) → Text → Bool
like escaped [] s = not escaped && is_nil s
like true (c ∷ pattern) s = next_is (λ d. d == c) (like false pattern) s
like false (c ∷ pattern) s =
    let rest = like false pattern in
    let literal = like true pattern in
    if c == b'%'
    then some_suffix rest s
    else if c == b'_'
    then next_is (λ d. true) rest s
    else if c == 92
    then literal s
    else next_is (λ d. d == c) rest s

abbrev pub matches_search : Option Text → Job → Bool
matches_search none j = true
matches_search (some []) j = true
matches_search (some (c ∷ q)) j =
    let pattern = b'%' ∷ (lower (c ∷ q) ++ b'%' ∷ []) in
    like false pattern (lower j.title) || like false pattern (lower j.company_name_raw)

abbrev pub matches_score : Option ℕ → ℕ → Bool
matches_score none total = true
matches_score (some least) total = leb least total

unfoldable pub matches : JobQuery → Rows → Job → Bool
unfolding text_eq status_eq user_status_value pipeline_status_value persona_value like lower
    find_analysis
matches query rows j =
    matches_value (text_or query.user_status query.status) (user_status_value j.user_status)
    && matches_pipeline query j.pipeline_status
    && matches_value query.source (lit j.source)
    && matches_persona query.persona (persona_in (find_analysis j.id rows.analyses))
    && matches_search query.q j
    && matches_score query.min_score j.score_total

-- The filter of `list_ready_to_apply`.
unfoldable pub is_ready_to_apply : Job → Bool
unfolding status_eq
is_ready_to_apply j =
    status_eq j.pipeline_status PipelineStatus.resume_ready
    && is_some j.artifact_ready_at
    && elim j.user_status [ UserStatus.fresh ↦ true | _ ↦ false ]

-- JobListResponse
pub record JobListResponse : Type 0 where
  pub items : List JobListItem
  pub total : ℕ
  pub page : ℕ
  pub per_page : ℕ

-- `stmt` and `count_stmt` have the same conditions.
unfoldable pub respond :
    (order_by : List Job → List Job) → (page per_page : ℕ) → (Job → Bool) → Rows → JobListResponse
unfolding job_to_list_item
respond order_by page per_page condition rows =
    let found = select condition rows.jobs in
    record {
      items =
          map (job_to_list_item rows)
            (take per_page (drop ((page - 1) * per_page) (order_by found)));
      total = length found;
      page = page;
      per_page = per_page;
    }

unfoldable pub list_jobs :
    (order_by : List Job → List Job) → JobQuery → (page per_page : ℕ) → Rows → JobListResponse
unfolding respond matches
list_jobs order_by query page per_page rows =
    respond order_by page per_page (matches query rows) rows

unfoldable pub list_ready_to_apply :
    (order_by : List Job → List Job) → (page per_page : ℕ) → Rows → JobListResponse
unfolding respond is_ready_to_apply
list_ready_to_apply order_by page per_page rows =
    respond order_by page per_page is_ready_to_apply rows

-- `get_job`, up to the response that it builds of the row.
abbrev pub visible : (include_rejected : Bool) → Option Job → Response Job
visible include_rejected none = refused not_found
visible include_rejected (some job) =
    if not include_rejected && status_eq job.pipeline_status PipelineStatus.rejected
    then refused not_found
    else ok job

unfoldable pub get_job : (job_id : ℕ) → (include_rejected : Bool) → List Job → Response Job
unfolding find_job status_eq not_found
get_job job_id include_rejected jobs = visible include_rejected (find_job job_id jobs)
