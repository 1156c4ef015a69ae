-- ===== src/Scoring/Bounds.antt =====
-- The range of the score and of its factors.
use jobbot.Prelude.{
  ℕ, ◌*◌, ◌/◌, ◌%◌, ◌≤◌, ◌<◌, ◌≡◌, refl, min, Bool, Option, List, [], ◌∷◌, arith, max,
  if◌then◌else◌, All,
}
use jobbot.Text.{Text}
use jobbot.Model.{Job, Ratio, Breakdown}
use jobbot.Matching.{keyword_in_text, score_keywords_in_text}
use jobbot.Scoring.Rules.{location_signals, domain_keywords}
use jobbot.Scoring.{
  round_div, score_title_relevance, score_seniority_fit, score_domain_alignment, first_signal,
  score_location_remote, tech_ratio, tech_in_description, score_tech_stack, weighted_sum,
  clamp_round, score_job, job_title, text_of, or_location,
}

div-le : (n d k : ℕ) → 0 < d → n ≤ k * d → n / d ≤ k
div-le n d k pos h = grind arith

div-lt_of_rest : (n d k : ℕ) → 0 < d → n ≤ k * d → 0 < n % d → n / d < k
div-lt_of_rest n d k pos h r = grind arith

-- Rounding does not leave an integer bound.
pub round_div-le : (n d k : ℕ) → 0 < d → n ≤ k * d → round_div n d ≤ k
unfolding round_div
round_div-le n d k pos h = ground (arith, div-le n d k pos h, div-lt_of_rest n d k pos h)

if-le : (b : Bool) (x y k : ℕ) → x ≤ k → y ≤ k → (if b then x else y) ≤ k
if-le b x y k h g = ground arith

pub score_title_relevance-le : (t : Text) → score_title_relevance t ≤ 100
unfolding score_title_relevance
score_title_relevance-le t =
    if-le _ 0 _ 100 (omega arith)
      (if-le _ 100 _ 100 (omega arith) (if-le _ 50 30 100 (omega arith) (omega arith)))

pub score_seniority_fit-le : (t d : Text) → score_seniority_fit t d ≤ 100
unfolding score_seniority_fit
score_seniority_fit-le t d =
    if-le _ 20 _ 100 (omega arith) (if-le _ 40 100 100 (omega arith) (omega arith))

pub score_domain_alignment-le : (d : Text) → score_domain_alignment d ≤ 100
unfolding score_domain_alignment
score_domain_alignment-le d =
    let total = score_keywords_in_text d domain_keywords in
    if-le _ 50 _ 100 (omega arith) (if-le _ (min 100 total) 50 100 (omega arith) (omega arith))

first_signal-le :
    (k : ℕ) (t : Text) (signals : List (Text × ℕ))
    → All (λ s. s.1 ≤ k) signals
    → first_signal t signals ≤ k
unfolding first_signal
first_signal-le k t [] h = omega arith
first_signal-le k t ((signal, score) ∷ rest) h = if-le _ _ _ k h.0 (first_signal-le k t rest h.1)

pub score_location_remote-le :
    (loc : Option Text) (remote : Bool) (d : Text) → score_location_remote loc remote d ≤ 100
unfolding score_location_remote
score_location_remote-le loc remote d = if-le _ 100 _ 100 (omega arith) (
    if-le _ (first_signal _ location_signals) 40 100
      (first_signal-le 100 _ location_signals (omega arith)) (omega arith))

-- A quotient between 0 and 100.
pub record IsPercent (r : Ratio) : Type 0 where
  pub positive : 0 < r.den
  pub capped : r.num ≤ 100 * r.den

tech_ratio-IsPercent : (jd user : List Text) → IsPercent (tech_ratio jd user)
unfolding tech_ratio
tech_ratio-IsPercent [] user = omega arith
tech_ratio-IsPercent (k ∷ jd) user = omega arith

pub score_tech_stack-IsPercent : (d : Text) (user : List Text) → IsPercent (score_tech_stack d user)
unfolding score_tech_stack
score_tech_stack-IsPercent [] user = omega arith
score_tech_stack-IsPercent (c ∷ d) user = tech_ratio-IsPercent (tech_in_description (c ∷ d)) user

-- The weights sum to 1: factors of at most 100 give a total of at most 100.
pub weighted_sum-le :
    (t s d l : ℕ) (r : Ratio)
    → t ≤ 100
    → s ≤ 100
    → d ≤ 100
    → l ≤ 100
    → IsPercent r
    → weighted_sum t s d l r ≤ 10000 * r.den
unfolding weighted_sum
weighted_sum-le t s d l r ht hs hd hl p = grind arith

clamp_round-le : (n : ℕ) (r : Ratio) → IsPercent r → clamp_round n r ≤ 1000
unfolding clamp_round
clamp_round-le n r p =
    round_div-le (min (10000 * r.den) n) (10 * r.den) 1000 (omega (arith, p.positive)) (omega arith)

-- Every factor is at most 100 points, and the factors of a breakdown are in tenths.
abbrev pub InRange : Breakdown → Type 0
InRange b =
    (b.title_relevance ≤ 1000)
    × (b.seniority_fit ≤ 1000)
    × (b.domain_alignment ≤ 1000)
    × (b.location_remote ≤ 1000)
    × (b.tech_stack ≤ 1000)

-- The score and each factor of its breakdown lie between 0 and 100 points.
pub score_job-InRange :
    (job : Job) (user : List Text)
    → ((score_job job user).0 ≤ 1000) × InRange (score_job job user).1
unfolding score_job
score_job-InRange job user =
    let t = job_title job in
    let d = text_of job.description in
    let loc = or_location job.normalized_location job.location in
    let p = score_tech_stack-IsPercent d user in
    (
      clamp_round-le _ _ p,
      (
        omega (arith, score_title_relevance-le t),
        omega (arith, score_seniority_fit-le t d),
        omega (arith, score_domain_alignment-le d),
        omega (arith, score_location_remote-le loc job.remote_flag d),
        round_div-le _ _ 1000 p.positive (omega (arith, p.capped)),
      ),
    )

abbrev DescendingFrom : ℕ → List (Text × ℕ) → Type 0
DescendingFrom k [] = Unit
DescendingFrom k ((signal, score) ∷ rest) = (score ≤ k) × DescendingFrom score rest

-- The best score among all signals of the list that the text has.
abbrev pub best_signal : Text → List (Text × ℕ) → ℕ
best_signal t [] = 0
best_signal t ((signal, score) ∷ rest) =
    if keyword_in_text t signal then max score (best_signal t rest) else best_signal t rest

best_signal-le :
    (k : ℕ) (t : Text) (signals : List (Text × ℕ))
    → DescendingFrom k signals
    → best_signal t signals ≤ k
best_signal-le k t [] h = omega arith
best_signal-le k t ((signal, score) ∷ rest) (le, h) = ground (arith, best_signal-le score t rest h)

first_signal-eq-best :
    (k : ℕ) (t : Text) (signals : List (Text × ℕ))
    → DescendingFrom k signals
    → first_signal t signals ≡ best_signal t signals
unfolding first_signal
first_signal-eq-best k t [] h = refl
first_signal-eq-best k t ((signal, score) ∷ rest) (le, h) =
    ground (arith, best_signal-le score t rest h, first_signal-eq-best score t rest h)

-- The loop over the location signals breaks at the first signal that it finds, and that is the best
-- score of all signals in the text.
pub first_signal-eq-best_signal :
    (t : Text) → first_signal t location_signals ≡ best_signal t location_signals
first_signal-eq-best_signal t = first_signal-eq-best 100 t location_signals (omega arith)
