-- ===== src/Tests/Matching.antt =====
-- Keywords, scores and resumes at small texts.
use jobbot.Prelude.{
  ◌≡◌, ◌≢◌, ◌↔◌, ◌≤◌, ◌*◌, refl, true, false, List, [], ◌∷◌, ◌++◌, some, none, arith, map, length,
  All, ◌&&◌, if◌then◌else◌, ◌==◌,
}
use jobbot.Text.{Text, lit, lower, is_word}
use jobbot.Text.Order.{sorted_by}
use jobbot.Keywords.{words, normalize_keyword}
use jobbot.Model.{Suggestion}
use jobbot.Matching.{keyword_in_text}
use jobbot.Matching.Words.{Mentions, Followed, keyword_in_text_iff, trailing_symbol_needs_word}
use jobbot.Scoring.{round_div, score_job, score_tech_stack, text_of}
use jobbot.Scoring.Bounds.{InRange, score_job-InRange}
use jobbot.Scoring.Skills.{exact_total, Includes, score_job_mono, score_job-eq-round}
use jobbot.Ats.{extract_jd_keywords, extract_ats_signals}
use jobbot.Ats.Partition.{IsPartition, extract_ats_signals-IsPartition, ats_compatibility_score_lem}
use jobbot.ResumeMatching.{extract_years_required, suggestion_of, suggest_resume_for_job, non_empty}
use jobbot.ResumeMatching.Phrases.{experience, minimum, say_both, two_phrases_required}
use jobbot.ResumeMatching.Score.{Claims, suggestion_of-Claims}
use jobbot.ResumeMatching.Best.{suggest_resume_for_job-none_iff}
use jobbot.Tests.Data.{fit_job, go_resume, unlabelled}

finds_go : keyword_in_text (lit "In Go,") (lit "go") ≡ true
unfolding keyword_in_text
finds_go = refl

not_in_django : keyword_in_text (lit "django") (lit "go") ≡ false
unfolding keyword_in_text
not_in_django = refl

misses_cpp : keyword_in_text (lit "C++, Go") (lit "c++") ≡ false
unfolding keyword_in_text
misses_cpp = refl

finds_cpp_before_word : keyword_in_text (lit "c++11") (lit "c+" ++ b'+' ∷ []) ≡ true
unfolding keyword_in_text
finds_cpp_before_word = refl

plus_is_no_word : is_word b'+' ≡ false
unfolding is_word
plus_is_no_word = refl

keyword_in_text_iff_example :
    (keyword_in_text (lit "In Go,") (lit "go") ≡ true)
    ↔ ((lit "In Go," ≢ []) × (lit "go" ≢ []) × Mentions (lit "go") none (lower (lit "In Go,")))
keyword_in_text_iff_example = keyword_in_text_iff (lit "In Go,") (lit "go")

trailing_symbol_needs_word_example : Followed b'+' (lower (lit "c++11"))
trailing_symbol_needs_word_example =
    trailing_symbol_needs_word (lit "c++11") (lit "c+") b'+' plus_is_no_word (λ e. cc e)
      finds_cpp_before_word

abbrev skills : List Text
skills = words ("go" ∷ [])

no_skills : Includes [] skills
no_skills = tt

score_job-InRange_example :
    ((score_job fit_job skills).0 ≤ 1000) × InRange (score_job fit_job skills).1
score_job-InRange_example = score_job-InRange fit_job skills

score_job_mono_example : (score_job fit_job []).0 ≤ (score_job fit_job skills).0
score_job_mono_example = score_job_mono fit_job [] skills no_skills

score_job-eq-round_example :
    (score_job fit_job skills).0
    ≡ round_div
        (exact_total fit_job skills)
        (10 * (score_tech_stack (text_of fit_job.description) skills).den)
score_job-eq-round_example = score_job-eq-round fit_job skills

one_keyword : (extract_ats_signals (lit "Go") skills).total_jd_keywords ≡ 1
unfolding extract_ats_signals
one_keyword = refl

none_missing : (extract_ats_signals (lit "Go") skills).missing_keywords ≡ []
unfolding extract_ats_signals sorted_by
none_missing = refl

extract_ats_signals-IsPartition_example :
    IsPartition
      (extract_jd_keywords (lit "Go, Java"))
      (map normalize_keyword skills)
      (extract_ats_signals (lit "Go, Java") skills)
extract_ats_signals-IsPartition_example = extract_ats_signals-IsPartition (lit "Go, Java") skills

ats_compatibility_score_lem_example :
    let r = extract_ats_signals (lit "Go, Java") skills in
    (r.ats_compatibility_score ≡ (
      if r.total_jd_keywords == 0
      then 0
      else round_div (length r.found_keywords * 1000) r.total_jd_keywords))
    × (r.ats_compatibility_score ≤ 1000)
ats_compatibility_score_lem_example = ats_compatibility_score_lem (lit "Go, Java") skills

abbrev asks_years : Text
asks_years = lit "3 yrs in Go"

three_years : extract_years_required asks_years ≡ some 3
unfolding extract_years_required
three_years = refl

two_phrases_required_example : extract_years_required (say_both experience minimum 3 11) ≡ some 11
two_phrases_required_example =
    two_phrases_required experience minimum 3 11 (omega arith) (omega arith)

suggestion_of-Claims_example :
    Claims
      (some 5)
      go_resume.years_experience
      (suggestion_of (lit "Go") (some 5) none go_resume).rationale
suggestion_of-Claims_example = suggestion_of-Claims (lit "Go") (some 5) none go_resume

abbrev the_suggestion : Suggestion
the_suggestion = suggestion_of (lit "Go\nGo") (extract_years_required (lit "Go\nGo")) none go_resume

suggest_resume_for_job-none_iff_example :
    (suggest_resume_for_job (lit "Go") (lit "Go") none (unlabelled ∷ []) ≡ none)
    ↔ All (λ r. (non_empty r.id && non_empty r.label) ≡ false) (unlabelled ∷ [])
suggest_resume_for_job-none_iff_example =
    suggest_resume_for_job-none_iff (lit "Go") (lit "Go") none (unlabelled ∷ [])
