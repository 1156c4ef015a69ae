-- ===== src/Ats.antt =====
-- core/ats/extraction.py. The file of user competencies is an argument: the set of its skills.
pub mod Partition
use jobbot.Prelude.{
  ℕ, ◌*◌, ◌||◌, ◌≡◌, not, List, [], ◌∷◌, map, if◌then◌else◌, is_nil, select, length,
}
use jobbot.Text.{Text, lower, strip, text_mem}
use jobbot.Text.Order.{sorted}
use jobbot.Matching.{keyword_in_text}
use jobbot.Keywords.{tech_keywords, all_tech, synonym_map, add_synonyms, normalize_keyword}
use jobbot.Scoring.{round_div, overlap}
use jobbot.Model.{AtsResult}

unfoldable pub extract_jd_keywords : Text → List Text
unfolding keyword_in_text add_synonyms
extract_jd_keywords text =
    if is_nil text || is_nil (strip text)
    then []
    else let text_lower = lower text in
      add_synonyms text_lower synonym_map (select (λ kw. keyword_in_text text_lower kw) all_tech)

-- jd_keywords - skills
unfoldable pub without : List Text → List Text → List Text
unfolding text_mem
without jd_keywords skills = select (λ k. not (text_mem k skills)) jd_keywords

-- The keywords of the description in each category that has some.
unfoldable pub group_by_category : List Text → List (Text × List Text) → List (Text × List Text)
unfolding overlap
group_by_category jd_keywords [] = []
group_by_category jd_keywords ((cat, kws) ∷ rest) =
    let in_jd = sorted (overlap jd_keywords kws) in
    let others = group_by_category jd_keywords rest in
    if is_nil in_jd then others else (cat, in_jd) ∷ others

-- Percent of the keywords that the user has, rounded to tenths; 0 without keywords.
unfoldable pub compatibility_score : List Text → List Text → ℕ
compatibility_score jd_keywords skills =
    if is_nil jd_keywords
    then 0
    else round_div (length (overlap jd_keywords skills) * 1000) (length jd_keywords)

unfoldable pub compare_with_skills : List Text → List Text → AtsResult
unfolding without group_by_category
compare_with_skills jd_keywords skills = record {
  found_keywords = sorted (overlap jd_keywords skills);
  missing_keywords = sorted (without jd_keywords skills);
  ats_categories = group_by_category jd_keywords tech_keywords;
  ats_compatibility_score = compatibility_score jd_keywords skills;
  total_jd_keywords = length jd_keywords;
}

-- The set of skills that _load_user_skills makes of the entries of the file.
unfoldable pub load_user_skills : List Text → List Text
unfolding normalize_keyword
load_user_skills entries = map normalize_keyword entries

unfoldable pub extract_ats_signals : Text → List Text → AtsResult
unfolding compare_with_skills extract_jd_keywords normalize_keyword
extract_ats_signals job_description user_skills =
    compare_with_skills (extract_jd_keywords job_description) (map normalize_keyword user_skills)
