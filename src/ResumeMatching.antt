-- ===== src/ResumeMatching.antt =====
-- core/resume_matching.py. The catalog file is an argument: the list of its rows, as YAML gives it.
-- A score is an exact quotient; years of experience are natural numbers.
pub mod Phrases
pub mod Score
pub mod Best
use mathlib.Core.List.{foldl}
use jobbot.Prelude.{
  ℕ, ◌+◌, ◌-◌, ◌*◌, max, Bool, true, false, not, ◌&&◌, ◌||◌, List, [], ◌∷◌, ◌++◌, Option, none,
  some, ltb, leb, ◌==◌, if◌then◌else◌, is_nil, select, length, map, take,
}
use jobbot.Text.{Text, lit, lower, strip, text_eq, text_mem, is_space, is_digit}
use jobbot.Text.Order.{sorted_by}
use jobbot.Keywords.{words, add}
use jobbot.Matching.{keywords_in_text}
use jobbot.Regex.{
  Re, eps, bound, chr, seq, alt, group, opt, plus, spaces, two_digits, letters, one_of, find_all,
  same_letter,
}
use jobbot.Model.{
  Ratio, Suggestion, RationalePart, matches_persona, covers_years, no_years_requirement,
  matches_skills, highest_score,
}

-- A row of the catalog; a missing key is `none`.
pub record CatalogRow : Type 0 where
  pub id : Option Text
  pub label : Option Text
  pub path : Option Text
  pub persona : Option Text
  pub years_experience : Option ℕ
  pub skills : List Text

-- `(\d{1,2})\s*\+?\s*(?:years|yrs)` followed by the rest of a pattern.
abbrev years_then : Re → Re
years_then r = seq (group two_digits) (
    seq spaces (
      seq (opt (chr (λ c. c == b'+')))
        (seq spaces (seq (one_of (words ("years" ∷ "yrs" ∷ []))) r))))

unfoldable pub experience_pattern : Re
unfolding one_of letters is_space is_digit
experience_pattern = years_then (
    seq (plus is_space) (
      seq (opt (seq (letters (lit "of")) (plus is_space))) (
        seq (opt (seq (letters (lit "professional")) (plus is_space)))
          (letters (lit "experience")))))

unfoldable pub minimum_pattern : Re
unfolding one_of letters is_space is_digit
minimum_pattern =
    seq
      (alt (seq (letters (lit "at")) (seq (plus is_space) (letters (lit "least")))) (
        alt (seq (letters (lit "minimum")) (seq (plus is_space) (letters (lit "of"))))
          (alt (seq (letters (lit "min")) (opt (chr (λ c. c == b'.')))) (letters (lit "minimum")))))
      (seq spaces (years_then eps))

unfoldable pub years_in_pattern : Re
unfolding one_of letters is_space is_digit
years_in_pattern = years_then (seq (plus is_space) (seq (letters (lit "in")) bound))

-- int(match) of a string of digits
unfoldable pub int_of : ℕ → Text → ℕ
int_of n [] = n
int_of n (c ∷ s) = int_of (10 * n + (c - b'0')) s

abbrev pub max_of : List ℕ → Option ℕ
max_of [] = none
max_of (n ∷ ns) = some (foldl max n ns)

-- The numbers that the three patterns find.
unfoldable pub years_found : Text → List ℕ
unfolding int_of find_all experience_pattern minimum_pattern years_in_pattern
years_found text =
    map (int_of 0) (find_all experience_pattern 0 none text)
    ++ map (int_of 0) (find_all minimum_pattern 0 none text)
    ++ map (int_of 0) (find_all years_in_pattern 0 none text)

unfoldable pub extract_years_required : Text → Option ℕ
unfolding years_found
extract_years_required text = if is_nil text then none else max_of (years_found text)

abbrev pub non_empty : Option Text → Bool
non_empty none = false
non_empty (some t) = not (is_nil t)

-- The rows that have an id and a label.
unfoldable pub load_resume_catalog : List CatalogRow → List CatalogRow
load_resume_catalog rows = select (λ r. non_empty r.id && non_empty r.label) rows

unfoldable pub years_fit_score : Option ℕ → Option ℕ → Ratio
years_fit_score resume none = record { num = 3; den = 4 }
years_fit_score none (some required) = record { num = 0; den = 1 }
years_fit_score (some resume) (some required) =
    if leb required resume
    then record { num = 1; den = 1 }
    else record { num = resume; den = max required 1 }

-- {str(skill) for skill in skills if str(skill).strip()}
unfoldable pub skill_set : List Text → List Text
unfolding strip add
skill_set [] = []
skill_set (s ∷ rest) = if is_nil (strip s) then skill_set rest else add s (skill_set rest)

abbrev pub by_lower : List Text → List Text
by_lower = sorted_by lower

abbrev pub text_or_empty : Option Text → Text
text_or_empty none = []
text_or_empty (some t) = t

-- Case-insensitive equality of two personas that are both there.
unfoldable pub persona_matches : Option Text → Option Text → Bool
unfolding text_eq lower
persona_matches matched persona =
    non_empty matched
    && non_empty persona
    && text_eq (lower (text_or_empty persona)) (lower (text_or_empty matched))

-- 0.50 * matched / max(skills, 1) + 0.30 * persona + 0.20 * years, as one quotient.
unfoldable pub combined_score : (matched skills : ℕ) → Bool → Ratio → Ratio
combined_score matched skills persona_match years =
    let s = max skills 1 in
    record {
      num =
          50 * matched * years.den
          + (if persona_match then 30 * (s * years.den) else 0)
          + 20 * years.num * s;
      den = 100 * (s * years.den);
    }

abbrev pub years_rationale : Option ℕ → Option ℕ → List RationalePart
years_rationale (some required) (some resume) = covers_years required resume ∷ []
years_rationale none resume = no_years_requirement ∷ []
years_rationale (some required) none = []

abbrev or_highest : List RationalePart → List RationalePart
or_highest [] = highest_score ∷ []
or_highest (p ∷ ps) = p ∷ ps

unfoldable pub rationale_parts :
    Option Text → Bool → Option ℕ → Option ℕ → List Text → List RationalePart
rationale_parts matched_persona persona_match years_required resume_years matched_skills =
    or_highest (
      (if persona_match then matches_persona (text_or_empty matched_persona) ∷ [] else [])
      ++ years_rationale years_required resume_years
      ++ (if is_nil matched_skills then [] else matches_skills (take 8 matched_skills) ∷ []))

abbrev or_no_path : Option Text → Option Text
or_no_path p = if non_empty p then p else none

-- One round of the loop over the catalog.
unfoldable pub suggestion_of : Text → Option ℕ → Option Text → CatalogRow → Suggestion
unfolding skill_set keywords_in_text
suggestion_of text years_required matched_persona resume =
    let skills = skill_set resume.skills in
    let matched_skills = by_lower (keywords_in_text text skills) in
    let missing_skills = by_lower (select (λ s. not (text_mem s matched_skills)) skills) in
    let persona_match = persona_matches matched_persona resume.persona in
    record {
      resume_id = text_or_empty resume.id;
      label = text_or_empty resume.label;
      path = or_no_path resume.path;
      score =
          combined_score (length matched_skills) (length skills) persona_match
            (years_fit_score resume.years_experience years_required);
      rationale =
          rationale_parts matched_persona persona_match years_required resume.years_experience
            matched_skills;
      years_required = years_required;
      resume_years = resume.years_experience;
      matched_skills = matched_skills;
      missing_skills = missing_skills;
      persona_match = persona_match;
    }

abbrev pub ratio_lt : Ratio → Ratio → Bool
ratio_lt r q = ltb (r.num * q.den) (q.num * r.den)

abbrev pub bool_lt : Bool → Bool → Bool
bool_lt a b = not a && b

-- The order of the key (score, persona_match, len(matched_skills)).
unfoldable pub key_lt : Suggestion → Suggestion → Bool
key_lt a b =
    ratio_lt a.score b.score
    || (not (ratio_lt b.score a.score)
        && (bool_lt a.persona_match b.persona_match
            || (not (bool_lt b.persona_match a.persona_match)
                && ltb (length a.matched_skills) (length b.matched_skills))))

-- max(scored, key=…): the first of the greatest.
unfoldable pub best_of : Suggestion → List Suggestion → Suggestion
unfolding key_lt
best_of best [] = best
best_of best (s ∷ rest) = best_of (if key_lt best s then s else best) rest

abbrev pub max_suggestion : List Suggestion → Option Suggestion
max_suggestion [] = none
max_suggestion (s ∷ rest) = some (best_of s rest)

-- "\n".join(part for part in [title, description] if part)
abbrev pub job_text : Text → Text → Text
job_text [] description = description
job_text (c ∷ title) [] = c ∷ title
job_text (c ∷ title) (d ∷ description) = c ∷ title ++ 10 ∷ d ∷ description

unfoldable pub scored_catalog : Text → Text → Option Text → List CatalogRow → List Suggestion
scored_catalog title description matched_persona catalog =
    let text = job_text title description in
    map (suggestion_of text (extract_years_required text) matched_persona)
      (load_resume_catalog catalog)

unfoldable pub suggest_resume_for_job :
    Text → Text → Option Text → List CatalogRow → Option Suggestion
unfolding scored_catalog best_of
suggest_resume_for_job title description matched_persona catalog =
    max_suggestion (scored_catalog title description matched_persona catalog)
