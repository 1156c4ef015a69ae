-- ===== src/Scoring/Skills.antt =====
-- The score as a function of the user's skills, and the clamp on the total (core/scoring/scorer.py).
use native.Mathlib.Nat.{div-add-mod, mod-lt, div-lt_iff_lt-mul}
use jobbot.Prelude.{
  ℕ, ◌+◌, ◌*◌, ◌/◌, ◌%◌, ◌≤◌, ◌<◌, ◌≡◌, ◌⊎◌, inl, inr, true, List, [], ◌∷◌, arith, length, ap, All,
  or-eq-true, subst,
}
use jobbot.Text.{Text, text_eq, text_mem}
use jobbot.Text.Laws.{text_eq_sound}
use jobbot.Model.{Job, Ratio}
use jobbot.Scoring.{
  round_div, overlap, tech_ratio, tech_in_description, score_tech_stack, weighted_sum, clamp_round,
  score_job, job_title, text_of, or_location, score_title_relevance, score_seniority_fit,
  score_domain_alignment, score_location_remote,
}
use jobbot.Scoring.Bounds.{
  IsPercent, score_tech_stack-IsPercent, weighted_sum-le, score_title_relevance-le,
  score_seniority_fit-le, score_domain_alignment-le, score_location_remote-le,
}

div_mono : (n m d : ℕ) → 0 < d → n ≤ m → n / d ≤ m / d
div_mono n m d pos h =
    let lt =
      (div-lt_iff_lt-mul {k = d} {x = n} {y = m / d + 1} pos).1
        (omega (arith, div-add-mod m d, mod-lt m pos)) in
    omega arith

mod_le_of_same : (n m d : ℕ) → n / d ≡ m / d → n ≤ m → n % d ≤ m % d
mod_le_of_same n m d same h =
    omega (arith, div-add-mod n d, div-add-mod m d, ap (λ (x : ℕ). d * x) same)

div_step : (n m d : ℕ) → 0 < d → n ≤ m → (n / d < m / d) ⊎ ((n / d ≡ m / d) × (n % d ≤ m % d))
div_step n m d pos h =
    ground (arith, div_mono n m d pos h, λ (e : n / d ≡ m / d). mod_le_of_same n m d e h)

round_step : (n d : ℕ) → 0 < d → (n / d ≤ round_div n d) × (round_div n d ≤ n / d + 1)
unfolding round_div
round_step n d pos = ground arith

-- Rounding to a common denominator is monotone.
pub round_div_mono : (n m d : ℕ) → 0 < d → n ≤ m → round_div n d ≤ round_div m d
round_div_mono n m d pos h = elim (div_step n m d pos h) [
  | inl lt ↦ omega (arith, round_step n d pos, round_step m d pos)
  | inr (same, rest) ↦ unfold round_div in rw same (ground arith)
]

-- Every skill of the first list is one of the second.
abbrev pub Includes : List Text → List Text → Type 0
Includes us vs = All (λ k. text_mem k vs ≡ true) us

Includes-mem :
    (us vs : List Text) (k : Text) → Includes us vs → text_mem k us ≡ true → text_mem k vs ≡ true
unfolding text_mem
Includes-mem [] vs k h m = cc m
Includes-mem (u ∷ us) vs k (here, h) m = elim (or-eq-true (text_eq u k) (text_mem k us) m) [
  | inl e ↦ subst (λ t. text_mem t vs ≡ true) (text_eq_sound u k e) here
  | inr later ↦ Includes-mem us vs k h later
]

length-overlap_mono :
    (us vs jd : List Text) → Includes us vs → length (overlap jd us) ≤ length (overlap jd vs)
unfolding overlap
length-overlap_mono us vs [] h = omega arith
length-overlap_mono us vs (k ∷ jd) h =
    ground (arith, length-overlap_mono us vs jd h, Includes-mem us vs k h)

abbrev LowerRatio : Ratio → Ratio → Type 0
LowerRatio r q = (r.den ≡ q.den) × (r.num ≤ q.num)

tech_ratio_mono :
    (jd us vs : List Text) → Includes us vs → LowerRatio (tech_ratio jd us) (tech_ratio jd vs)
unfolding tech_ratio
tech_ratio_mono [] us vs h = omega arith
tech_ratio_mono (k ∷ jd) us vs h = omega (arith, length-overlap_mono us vs (k ∷ jd) h)

score_tech_stack_mono :
    (d : Text) (us vs : List Text)
    → Includes us vs
    → LowerRatio (score_tech_stack d us) (score_tech_stack d vs)
unfolding score_tech_stack
score_tech_stack_mono [] us vs h = omega arith
score_tech_stack_mono (c ∷ d) us vs h = tech_ratio_mono (tech_in_description (c ∷ d)) us vs h

clamp_round_mono :
    (t s d l : ℕ) (r q : Ratio)
    → IsPercent r
    → LowerRatio r q
    → clamp_round (weighted_sum t s d l r) r ≤ clamp_round (weighted_sum t s d l q) q
unfolding clamp_round weighted_sum
clamp_round_mono t s d l r q p (same, le) =
    rw (← same) (round_div_mono _ _ (10 * r.den) (omega (arith, p.positive)) (omega arith))

-- A user whose skills include those of another gets at least the same score for every job.
pub score_job_mono :
    (job : Job) (us vs : List Text) → Includes us vs → (score_job job us).0 ≤ (score_job job vs).0
unfolding score_job
score_job_mono job us vs h =
    let d = text_of job.description in
    clamp_round_mono _ _ _ _ _ _ (score_tech_stack-IsPercent d us) (score_tech_stack_mono d us vs h)

abbrev pub exact_total : Job → List Text → ℕ
exact_total job user =
    let t = job_title job in
    let d = text_of job.description in
    weighted_sum (score_title_relevance t) (score_seniority_fit t d) (score_domain_alignment d)
      (score_location_remote (or_location job.normalized_location job.location) job.remote_flag d)
      (score_tech_stack d user)

-- The clamp of the total to 0..100 never acts: the score is the rounded weighted sum of the
-- factors.
pub score_job-eq-round :
    (job : Job) (user : List Text)
    → (score_job job user).0
      ≡ round_div
          (exact_total job user)
          (10 * (score_tech_stack (text_of job.description) user).den)
unfolding score_job clamp_round
score_job-eq-round job user =
    let t = job_title job in
    let d = text_of job.description in
    let loc = or_location job.normalized_location job.location in
    ap (λ n. round_div n (10 * (score_tech_stack d user).den))
      (omega (
        arith,
        weighted_sum-le (score_title_relevance t) (score_seniority_fit t d)
            (score_domain_alignment d) (score_location_remote loc job.remote_flag d)
            (score_tech_stack d user) (score_title_relevance-le t) (score_seniority_fit-le t d)
            (score_domain_alignment-le d) (score_location_remote-le loc job.remote_flag d)
            (score_tech_stack-IsPercent d user),
      ))
