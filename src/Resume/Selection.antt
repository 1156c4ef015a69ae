-- ===== src/Resume/Selection.antt =====
-- core/resumes/v2_selection.py: how evidence is scored. Every score is a whole number.
use jobbot.Prelude.{
  ℕ, ◌+◌, ◌*◌, Bool, true, not, ◌&&◌, ◌||◌, List, [], ◌∷◌, ◌++◌, map, any, select, take,
  if◌then◌else◌,
}
use jobbot.Text.{Text, lit, lower, strip, text_mem, contains}
use jobbot.Keywords.{words}
use jobbot.Matching.{keyword_in_text}

-- The keywords of a set, each counted once.
abbrev pub count_overlap : Text → (tags_lower : List Text) → List Text → ℕ
count_overlap text tags_lower [] = 0
count_overlap text tags_lower (keyword ∷ rest) =
    (if keyword_in_text text (lower keyword) || text_mem (lower keyword) tags_lower then 1 else 0)
    + count_overlap text tags_lower rest

unfoldable pub keyword_overlap : Text → (tags keywords : List Text) → ℕ
unfolding keyword_in_text text_mem lower
keyword_overlap text tags keywords = count_overlap text (map lower tags) keywords

unfoldable pub persona_tag_match : (tags : List Text) → (persona : Text) → Bool
unfolding text_mem contains lower
persona_tag_match tags persona =
    let tags_lower = map lower tags in
    let persona_lower = lower persona in
    if contains (lit "backend") persona_lower
      && (text_mem (lit "backend") tags_lower || text_mem (lit "api") tags_lower)
    then true
    else if (contains (lit "platform") persona_lower || contains (lit "infra") persona_lower)
        && any (λ tag. text_mem tag tags_lower)
            (words ("platform" ∷ "infra" ∷ "kubernetes" ∷ "k8s" ∷ "ci/cd" ∷ "aws" ∷ "docker" ∷ []))
    then true
    else contains (lit "hybrid") persona_lower

unfoldable pub score_text_tags :
    Text → (tags target_keywords : List Text) → (persona : Text) → (prefer_persona : Bool) → ℕ
unfolding keyword_overlap persona_tag_match
score_text_tags text tags target_keywords persona prefer_persona =
    keyword_overlap text tags target_keywords * 2
    + (if prefer_persona && persona_tag_match tags persona then 5 else 0)

unfoldable pub prioritize_skills :
    (skills target_keywords : List Text) → (max_skills : ℕ) → List Text
unfolding text_mem lower strip
prioritize_skills skills target_keywords max_skills =
    let keyword_set = map lower target_keywords in
    take max_skills (
      select (λ skill. text_mem (lower (strip skill)) keyword_set) skills
      ++ select (λ skill. not (text_mem (lower (strip skill)) keyword_set)) skills)
