-- ===== src/Ats/Partition.antt =====
-- How the found and the missing keywords divide the keywords of the description.
use native.Mathlib.Nat.{div-add-mod, div-eq_of_eq-mul_right}
use jobbot.Prelude.{
  ℕ, ◌+◌, ◌*◌, ◌/◌, ◌%◌, ◌≤◌, ◌<◌, ◌≡◌, refl, ◌∙◌, ap, not, ◌&&◌, List, [], ◌∷◌, arith, length, map,
  ◌==◌, if◌then◌else◌,
}
use jobbot.Text.{Text, text_mem}
use jobbot.Text.Order.{length-sorted_by, mem-sorted_by}
use jobbot.Text.Laws.{text_eq_sound}
use jobbot.Keywords.{normalize_keyword}
use jobbot.Scoring.{overlap, round_div}
use jobbot.Scoring.Bounds.{round_div-le}
use jobbot.Model.{AtsResult}
use jobbot.Ats.{without, compatibility_score, extract_jd_keywords, extract_ats_signals}

length-overlap-without :
    (jd skills : List Text) → length (overlap jd skills) + length (without jd skills) ≡ length jd
unfolding overlap without
length-overlap-without [] skills = refl
length-overlap-without (k ∷ jd) skills = ground (arith, length-overlap-without jd skills)

mem-overlap :
    (k : Text) (jd skills : List Text)
    → text_mem k (overlap jd skills) ≡ (text_mem k jd && text_mem k skills)
unfolding overlap text_mem
mem-overlap k [] skills = refl
mem-overlap k (j ∷ jd) skills = ground (arith, mem-overlap k jd skills, text_eq_sound j k)

mem-without :
    (k : Text) (jd skills : List Text)
    → text_mem k (without jd skills) ≡ (text_mem k jd && not (text_mem k skills))
unfolding without text_mem
mem-without k [] skills = refl
mem-without k (j ∷ jd) skills = ground (arith, mem-without k jd skills, text_eq_sound j k)

pub record IsPartition (jd skills : List Text) (r : AtsResult) : Type 0 where
  pub found : (k : Text) → text_mem k r.found_keywords ≡ (text_mem k jd && text_mem k skills)
  pub missing :
      (k : Text) → text_mem k r.missing_keywords ≡ (text_mem k jd && not (text_mem k skills))
  pub counted : length r.found_keywords + length r.missing_keywords ≡ r.total_jd_keywords
  pub total : r.total_jd_keywords ≡ length jd

-- The found keywords are the keywords of the description that the user has, the missing ones those
-- that the user lacks, and their numbers add up to the number of keywords of the description.
pub extract_ats_signals-IsPartition :
    (description : Text) (user : List Text)
    → IsPartition
        (extract_jd_keywords description)
        (map normalize_keyword user)
        (extract_ats_signals description user)
unfolding extract_ats_signals
extract_ats_signals-IsPartition description user =
    let jd = extract_jd_keywords description in
    let skills = map normalize_keyword user in
    record {
      found = λ k. mem-sorted_by (λ t. t) k (overlap jd skills) ∙ mem-overlap k jd skills;
      missing = λ k. mem-sorted_by (λ t. t) k (without jd skills) ∙ mem-without k jd skills;
      counted = omega (
        arith,
        length-sorted_by (λ t. t) (overlap jd skills),
        length-sorted_by (λ t. t) (without jd skills),
        length-overlap-without jd skills,
      );
      total = refl;
    }

full_div : (n : ℕ) → 0 < n → ((n * 1000) / n ≡ 1000) × ((n * 1000) % n ≡ 0)
full_div n pos =
    let whole = div-eq_of_eq-mul_right {n = n} {m = n * 1000} {k = 1000} pos refl in
    (whole, omega (arith, div-add-mod (n * 1000) n, ap (λ (x : ℕ). n * x) whole))

round_div_full : (n : ℕ) → 0 < n → round_div (n * 1000) n ≡ 1000
unfolding round_div
round_div_full n pos = ground (arith, full_div n pos)

overlap-le : (jd skills : List Text) → length (overlap jd skills) ≤ length jd
overlap-le jd skills = omega (arith, length-overlap-without jd skills)

compatibility_score-le : (jd skills : List Text) → compatibility_score jd skills ≤ 1000
unfolding compatibility_score
compatibility_score-le [] skills = omega arith
compatibility_score-le (k ∷ jd) skills =
    round_div-le _ _ 1000 (omega arith) (omega (arith, overlap-le (k ∷ jd) skills))

compatibility_score_full :
    (jd skills : List Text)
    → 0 < length jd
    → length (without jd skills) ≡ 0
    → compatibility_score jd skills ≡ 1000
unfolding compatibility_score
compatibility_score_full [] skills pos h = absurd (omega arith)
compatibility_score_full (k ∷ jd) skills pos h =
    let same : length (overlap (k ∷ jd) skills) ≡ length (k ∷ jd) =
      omega (arith, length-overlap-without (k ∷ jd) skills) in
    rw same (round_div_full (length (k ∷ jd)) pos)

compatibility_score_percent :
    (jd skills : List Text)
    → compatibility_score jd skills
      ≡ (if length jd == 0 then 0 else round_div (length (overlap jd skills) * 1000) (length jd))
unfolding compatibility_score
compatibility_score_percent [] skills = refl
compatibility_score_percent (k ∷ jd) skills = ground arith

-- The compatibility score is the percentage of found keywords among all keywords of the
-- description, rounded to tenths, or 0 if there are none; it is at most 100.
pub ats_compatibility_score_lem :
    (description : Text) (user : List Text)
    → let r = extract_ats_signals description user in
      (r.ats_compatibility_score ≡ (
        if r.total_jd_keywords == 0
        then 0
        else round_div (length r.found_keywords * 1000) r.total_jd_keywords))
      × (r.ats_compatibility_score ≤ 1000)
unfolding extract_ats_signals
ats_compatibility_score_lem description user =
    let jd = extract_jd_keywords description in
    let skills = map normalize_keyword user in
    (
      rw (length-sorted_by (λ t. t) (overlap jd skills)) (compatibility_score_percent jd skills),
      compatibility_score-le jd skills,
    )

-- A description with keywords, none of which the user lacks, has compatibility 100.
pub ats_compatibility_score_full :
    (description : Text) (user : List Text)
    → 0 < (extract_ats_signals description user).total_jd_keywords
    → (extract_ats_signals description user).missing_keywords ≡ []
    → (extract_ats_signals description user).ats_compatibility_score ≡ 1000
unfolding extract_ats_signals
ats_compatibility_score_full description user pos none_missing =
    let jd = extract_jd_keywords description in
    let skills = map normalize_keyword user in
    compatibility_score_full jd skills pos (
      omega
        (arith, length-sorted_by (λ t. t) (without jd skills), ap (length {A = Text}) none_missing))
