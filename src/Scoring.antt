-- ===== src/Scoring.antt =====
-- core/scoring/scorer.py. Floats are exact numbers here: a factor is in points, the technology
-- factor a quotient, and `round(x, 1)` is a number of tenths, halves going to the even one.
pub mod Rules
pub mod Bounds
pub mod Skills
use Rules.{
  scoring_weights, target_titles, junior_signals, over_senior_signals, domain_keywords,
  location_signals,
}
use jobbot.Prelude.{
  ℕ, ◌+◌, ◌*◌, ◌/◌, ◌%◌, min, Bool, List, [], ◌∷◌, ◌++◌, Option, none, some, ltb, ◌==◌, ◌||◌,
  if◌then◌else◌, is_nil, any, select, length, map,
}
use jobbot.Text.{Text, lit, lower, strip, text_mem}
use jobbot.Matching.{keyword_in_text, keywords_in_text, score_keywords_in_text}
use jobbot.Keywords.{words, all_tech, synonym_map, add_synonyms}
use jobbot.Model.{Job, Breakdown, Ratio}

-- round(num / den) to an integer, a half going to the even neighbour.
unfoldable pub round_div : ℕ → ℕ → ℕ
round_div num den =
    let k = num / den in
    let twice = 2 * (num % den) in
    if ltb twice den then k else if ltb den twice then k + 1 else if k % 2 == 0 then k else k + 1

-- The optional column as a text: `x or ""`.
abbrev pub text_of : Option Text → Text
text_of none = []
text_of (some t) = t

abbrev pub or_text : Text → Text → Text
or_text [] t = t
or_text (c ∷ s) t = c ∷ s

unfoldable pub score_title_relevance : Text → ℕ
unfolding keyword_in_text
score_title_relevance title =
    let t = lower title in
    if is_nil (strip t)
    then 0
    else if any (λ target. keyword_in_text t target) target_titles
    then 100
    else if any (λ x. keyword_in_text t x) (words ("engineer" ∷ "developer" ∷ "software" ∷ []))
    then 50
    else 30

unfoldable pub score_seniority_fit : Text → Text → ℕ
unfolding keyword_in_text
score_seniority_fit title description =
    let combined = lower (title ++ lit " " ++ description) in
    if any (λ sig. keyword_in_text combined sig) junior_signals
    then 20
    else if any (λ sig. keyword_in_text combined sig) over_senior_signals
    then 40
    else 100

unfoldable pub score_domain_alignment : Text → ℕ
unfolding score_keywords_in_text
score_domain_alignment description =
    if is_nil description
    then 50
    else let total = score_keywords_in_text description domain_keywords in
      if ltb 0 total then min 100 total else 50

-- The loop over LOCATION_SIGNALS, which breaks at the first signal that is found.
unfoldable pub first_signal : Text → List (Text × ℕ) → ℕ
unfolding keyword_in_text
first_signal combined [] = 0
first_signal combined ((signal, score) ∷ rest) =
    if keyword_in_text combined signal then score else first_signal combined rest

unfoldable pub score_location_remote : Option Text → Bool → Text → ℕ
score_location_remote location remote_flag description =
    if remote_flag
    then 100
    else let best =
        first_signal (lower (text_of location ++ lit " " ++ description)) location_signals in
      if ltb 0 best then best else 40

-- The keywords of the description, synonyms included.
unfoldable pub tech_in_description : Text → List Text
unfolding keywords_in_text add_synonyms
tech_in_description description =
    add_synonyms description synonym_map (keywords_in_text description all_tech)

-- jd_keywords & user_skills
unfoldable pub overlap : List Text → List Text → List Text
unfolding text_mem
overlap jd_keywords user_skills = select (λ k. text_mem k user_skills) jd_keywords

-- The set of skills that _load_master_skills makes of the entries of the file.
unfoldable pub load_master_skills : List Text → List Text
unfolding lower strip
load_master_skills entries = map (λ s. strip (lower s)) entries

-- A quotient num / den, in points.
unfoldable pub tech_ratio : List Text → List Text → Ratio
unfolding overlap
tech_ratio jd_keywords user_skills =
    if is_nil jd_keywords then record { num = 50; den = 1 } else record {
      num = min (100 * length jd_keywords) (length (overlap jd_keywords user_skills) * 100);
      den = length jd_keywords;
    }

unfoldable pub score_tech_stack : Text → List Text → Ratio
unfolding tech_ratio tech_in_description
score_tech_stack description user_skills =
    if is_nil description
    then record { num = 50; den = 1 }
    else tech_ratio (tech_in_description description) user_skills

abbrev pub job_title : Job → Text
job_title job = or_text job.normalized_title (or_text job.title job.raw_title)

-- `job.normalized_location or job.location`
abbrev pub or_location : Option Text → Option Text → Option Text
or_location none loc = loc
or_location (some []) loc = loc
or_location (some (c ∷ s)) loc = some (c ∷ s)

-- The weighted sum times the denominator of the technology factor, in hundredths of a point.
unfoldable pub weighted_sum : ℕ → ℕ → ℕ → ℕ → Ratio → ℕ
weighted_sum title seniority domain location tech =
    (title * scoring_weights.title_relevance
        + seniority * scoring_weights.seniority_fit
        + domain * scoring_weights.domain_alignment
        + location * scoring_weights.location_remote)
      * tech.den
    + tech.num * scoring_weights.tech_stack

-- round(min(100.0, max(0.0, total)), 1), in tenths
unfoldable pub clamp_round : ℕ → Ratio → ℕ
unfolding round_div
clamp_round hundredths tech = round_div (min (10000 * tech.den) hundredths) (10 * tech.den)

unfoldable pub score_job : Job → List Text → ℕ × Breakdown
score_job job user_skills =
    let title = job_title job in
    let description = text_of job.description in
    let location = or_location job.normalized_location job.location in
    let title_score = score_title_relevance title in
    let seniority_score = score_seniority_fit title description in
    let domain_score = score_domain_alignment description in
    let location_score = score_location_remote location job.remote_flag description in
    let tech_score = score_tech_stack description user_skills in
    (
      clamp_round (weighted_sum title_score seniority_score domain_score location_score tech_score)
          tech_score,
      record {
        title_relevance = title_score * 10;
        seniority_fit = seniority_score * 10;
        domain_alignment = domain_score * 10;
        location_remote = location_score * 10;
        tech_stack = round_div (tech_score.num * 10) tech_score.den;
      },
    )
