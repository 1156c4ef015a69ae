-- ===== src/Scoring/Rules.antt =====
-- core/scoring/rules.py
use jobbot.Prelude.{ℕ, List, [], ◌∷◌}
use jobbot.Text.{Text, lit}
use jobbot.Keywords.{words}

-- Factor weights in hundredths.
pub record Weights : Type 0 where
  pub title_relevance : ℕ
  pub seniority_fit : ℕ
  pub domain_alignment : ℕ
  pub location_remote : ℕ
  pub tech_stack : ℕ

abbrev pub scoring_weights : Weights
scoring_weights = record {
  title_relevance = 25;
  seniority_fit = 20;
  domain_alignment = 20;
  location_remote = 20;
  tech_stack = 15;
}

abbrev pub target_titles : List Text
target_titles = words (
    "software engineer" ∷ "backend engineer" ∷ "backend developer" ∷ "platform engineer"
    ∷ "infrastructure engineer" ∷ "full stack" ∷ "fullstack" ∷ "senior software engineer"
    ∷ "senior backend" ∷ [])

abbrev pub junior_signals : List Text
junior_signals = words ("intern" ∷ "junior" ∷ "entry" ∷ "associate" ∷ "graduate" ∷ [])

abbrev pub over_senior_signals : List Text
over_senior_signals =
    words ("staff" ∷ "principal" ∷ "architect" ∷ "director" ∷ "vp" ∷ "head of" ∷ [])

abbrev pub domain_keywords : List (Text × ℕ)
domain_keywords =
    (lit "fintech", 100)
    ∷ (lit "financial", 80)
    ∷ (lit "payments", 85)
    ∷ (lit "banking", 75)
    ∷ (lit "crypto", 70)
    ∷ (lit "blockchain", 65)
    ∷ (lit "trading", 75)
    ∷ (lit "startup", 60)
    ∷ (lit "series a", 70)
    ∷ (lit "series b", 65)
    ∷ (lit "seed", 55)
    ∷ (lit "infrastructure", 80)
    ∷ (lit "platform", 80)
    ∷ (lit "developer tools", 75)
    ∷ []

abbrev pub location_signals : List (Text × ℕ)
location_signals =
    (lit "remote", 100)
    ∷ (lit "distributed", 90)
    ∷ (lit "anywhere", 90)
    ∷ (lit "hybrid", 75)
    ∷ (lit "new york", 70)
    ∷ (lit "nyc", 70)
    ∷ (lit "sf", 60)
    ∷ (lit "san francisco", 60)
    ∷ []
