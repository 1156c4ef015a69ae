-- ===== src/ResumeMatching/Score.antt =====
-- The range of a suggestion's score, and what its rationale claims.
use jobbot.Prelude.{
  ℕ, ◌+◌, ◌*◌, ◌≤◌, ◌<◌, ◌≡◌, refl, ◌↔◌, max, Bool, true, false, ◌&&◌, ◌||◌, List, [], Option, none,
  some, arith, if◌then◌else◌, length, length-select-le, any, is_nil, select, ◌==◌,
}
use jobbot.Text.{Text, lower}
use jobbot.Text.Order.{length-sorted_by}
use jobbot.Matching.{keyword_in_text, keywords_in_text}
use jobbot.Model.{Ratio, RationalePart, covers_years}
use jobbot.ResumeMatching.{
  CatalogRow, years_fit_score, combined_score, suggestion_of, skill_set, rationale_parts,
}

-- A quotient between 0 and 1.
pub record IsFraction (r : Ratio) : Type 0 where
  pub positive : 0 < r.den
  pub capped : r.num ≤ r.den

years_fit_score-IsFraction : (a b : Option ℕ) → IsFraction (years_fit_score a b)
unfolding years_fit_score
years_fit_score-IsFraction a none = omega arith
years_fit_score-IsFraction none (some r) = omega arith
years_fit_score-IsFraction (some y) (some r) = ground arith

-- The years factor is full exactly when the resume has the required years.
pub years_fit_full :
    (resume required : ℕ)
    → ((years_fit_score (some resume) (some required)).num
        ≡ (years_fit_score (some resume) (some required)).den)
      ↔ (required ≤ resume)
unfolding years_fit_score
years_fit_full resume required = ground arith

mul_mono : (a b c : ℕ) → a ≤ b → a * c ≤ b * c
mul_mono a b c h = grind arith

mul_pos : (a b : ℕ) → 0 < a → 0 < b → 0 < a * b
mul_pos a b h g = grind arith

weighted-le :
    (m s q d : ℕ) (p : Bool)
    → m ≤ s
    → q ≤ d
    → 50 * m * d + (if p then 30 * (s * d) else 0) + 20 * q * s ≤ 100 * (s * d)
weighted-le m s q d p h g = ground (arith, mul_mono m s d h, mul_mono q d s g)

combined_score-IsFraction :
    (m n : ℕ) (p : Bool) (y : Ratio) → m ≤ n → IsFraction y → IsFraction (combined_score m n p y)
unfolding combined_score
combined_score-IsFraction m n p y h f = record {
  positive = omega (arith, mul_pos (max n 1) y.den (omega arith) f.positive);
  capped = weighted-le m (max n 1) y.num y.den p (omega arith) f.capped;
}

length-keywords_in_text-le :
    (text : Text) (skills : List Text) → length (keywords_in_text text skills) ≤ length skills
unfolding keywords_in_text
length-keywords_in_text-le text skills =
    if-le (is_nil text || is_nil skills) skills (select (λ kw. keyword_in_text text kw) skills)
      (length-select-le (λ kw. keyword_in_text text kw) skills)
  where
    if-le :
        (b : Bool) (xs ys : List Text)
        → length ys ≤ length xs
        → length (if b then [] else ys) ≤ length xs
    if-le b xs ys h = ground arith

-- The score of a suggestion lies between 0 and 1.
pub suggestion_of-IsFraction :
    (text : Text) (years : Option ℕ) (persona : Option Text) (row : CatalogRow)
    → IsFraction (suggestion_of text years persona row).score
unfolding suggestion_of
suggestion_of-IsFraction text years persona row =
    let skills = skill_set row.skills in
    combined_score-IsFraction _ _ _ _
      (omega (
        arith,
        length-sorted_by lower (keywords_in_text text skills),
        length-keywords_in_text-le text skills,
      ))
      (years_fit_score-IsFraction row.years_experience years)

abbrev pub says_covers : (required resume : ℕ) → RationalePart → Bool
says_covers required resume (covers_years a b) = a == required && b == resume
says_covers required resume _ = false

abbrev pub is_covers : RationalePart → Bool
is_covers (covers_years required resume) = true
is_covers _ = false

-- The parts say that these years are covered, and claim it of no others.
abbrev pub Claims : Option ℕ → Option ℕ → List RationalePart → Type 0
Claims (some required) (some resume) parts = any (says_covers required resume) parts ≡ true
Claims _ _ parts = any is_covers parts ≡ false

rationale_parts-Claims :
    (mp : Option Text) (p : Bool) (req res : Option ℕ) (skills : List Text)
    → Claims req res (rationale_parts mp p req res skills)
unfolding rationale_parts
rationale_parts-Claims mp true none none [] = refl
rationale_parts-Claims mp true none (some b) [] = refl
rationale_parts-Claims mp p (some a) (some b) skills = ground arith
rationale_parts-Claims mp p none res skills = ground arith
rationale_parts-Claims mp p (some a) none skills = ground arith

-- The rationale says that the resume covers the required years, with both numbers given, whenever
-- both are known, however few years the resume has, and says so of no years otherwise.
pub suggestion_of-Claims :
    (text : Text) (required : Option ℕ) (persona : Option Text) (row : CatalogRow)
    → Claims required row.years_experience (suggestion_of text required persona row).rationale
unfolding suggestion_of
suggestion_of-Claims text required persona row =
    rationale_parts-Claims persona _ required row.years_experience _
