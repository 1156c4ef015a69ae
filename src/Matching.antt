-- ===== src/Matching.antt =====
-- core/matching.py: whole-word, case-insensitive keyword matching.
pub mod Words
use jobbot.Prelude.{
  ℕ, ◌+◌, Bool, true, false, not, ◌&&◌, ◌||◌, List, [], ◌∷◌, is_nil, is_some, ◌==◌, Option, none,
  some, if◌then◌else◌, select,
}
use jobbot.Text.{Text, is_space, lower}
use jobbot.Regex.{Re, eps, bound, seq, chr, plus, same_letter, search_from}

-- One escaped character of the keyword: an escaped space stands for `\s+`.
abbrev pub escaped : ℕ → Re
escaped c = if c == 32 then plus is_space else chr (same_letter c)

unfoldable pub spelled : Text → Re
spelled [] = eps
spelled (c ∷ kw) = seq (escaped c) (spelled kw)

unfoldable pub word_boundary_pattern : Text → Re
unfolding spelled
word_boundary_pattern keyword = seq bound (seq (spelled keyword) bound)

unfoldable pub keyword_in_text : Text → Text → Bool
unfolding word_boundary_pattern search_from lower
keyword_in_text text keyword =
    if is_nil text || is_nil keyword
    then false
    else is_some (search_from (word_boundary_pattern keyword) none (lower text))

-- The subset of the keywords that appear; a set is a list without repetition.
unfoldable pub keywords_in_text : Text → List Text → List Text
unfolding keyword_in_text
keywords_in_text text keywords =
    if is_nil text || is_nil keywords then [] else select (λ kw. keyword_in_text text kw) keywords

abbrev pub sum_weights : Text → List (Text × ℕ) → ℕ
sum_weights text [] = 0
sum_weights text ((kw, weight) ∷ rest) =
    (if keyword_in_text text kw then weight else 0) + sum_weights text rest

-- The sum of the weights of the keywords that appear.
unfoldable pub score_keywords_in_text : Text → List (Text × ℕ) → ℕ
unfolding keyword_in_text
score_keywords_in_text text kw_weights = if is_nil text then 0 else sum_weights text kw_weights
