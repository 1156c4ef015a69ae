-- ===== src/Classification.antt =====
-- core/classification/rules_provider.py and types.py. All scores are multiples of one half, and are
-- counted in halves.
pub mod Rules
pub mod Decision
use Rules.{
  backend_titles, platform_titles, hybrid_titles, backend_keywords, platform_infra_keywords,
  confidence_high, confidence_med, confidence_low,
}
use jobbot.Prelude.{
  ℕ, ◌+◌, ◌*◌, ◌-◌, max, min, Bool, true, false, ◌&&◌, ◌||◌, List, [], ◌∷◌, ◌++◌, Option, none,
  some, String, ltb, leb, if◌then◌else◌, length, select,
}
use jobbot.Text.{Text, lit, lower, text_mem}
use jobbot.Matching.{keyword_in_text, score_keywords_in_text}
use jobbot.Keywords.{words}
use jobbot.Model.{Persona, backend, platform_infra, hybrid, Signals}

pub record ClassificationInput : Type 0 where
  pub normalized_title : Text
  pub description : Text
  pub found_keywords : Option (List Text)
  pub ats_categories : Option (List (Text × List Text))

pub record ClassificationResult : Type 0 where
  pub persona : Persona
  pub confidence : ℕ
  pub rationale : String
  pub matched_signals : Signals

-- " ".join(texts)
unfoldable pub join_spaces : List Text → Text
join_spaces [] = []
join_spaces (t ∷ []) = t
join_spaces (t ∷ u ∷ ts) = t ++ lit " " ++ join_spaces (u ∷ ts)

abbrev keyword_part : Option (List Text) → List Text
keyword_part none = []
keyword_part (some []) = []
keyword_part (some (k ∷ ks)) = join_spaces (k ∷ ks) ∷ []

unfoldable pub combine_inputs : ClassificationInput → Text
unfolding join_spaces lower
combine_inputs inputs = lower (
    join_spaces (inputs.normalized_title ∷ inputs.description ∷ keyword_part inputs.found_keywords))

abbrev pub backend_cats : List Text
backend_cats = words ("languages" ∷ "frameworks" ∷ "databases" ∷ [])

abbrev pub platform_cats : List Text
platform_cats = words ("cloud" ∷ "tools" ∷ [])

unfoldable pub score_ats_categories : List (Text × List Text) → Bool → ℕ
unfolding text_mem lower
score_ats_categories [] for_backend = 0
score_ats_categories ((cat, kws) ∷ rest) for_backend =
    (if text_mem (lower cat) (if for_backend then backend_cats else platform_cats)
      then length kws
      else 0)
    + score_ats_categories rest for_backend

abbrev category_score : Option (List (Text × List Text)) → Bool → ℕ
category_score none for_backend = 0
category_score (some cats) for_backend = score_ats_categories cats for_backend

abbrev title_matches : Text → List Text → ℕ
title_matches title signals = length (select (λ s. keyword_in_text title s) signals)

unfoldable pub signals_of : ClassificationInput → Signals
unfolding combine_inputs keyword_in_text score_keywords_in_text score_ats_categories lower
signals_of inputs =
    let combined = combine_inputs inputs in
    let title_lower = lower inputs.normalized_title in
    let backend_title = title_matches title_lower backend_titles in
    let platform_title = title_matches title_lower platform_titles in
    let hybrid_title = title_matches title_lower hybrid_titles in
    let backend_desc =
      score_keywords_in_text combined backend_keywords
      + category_score inputs.ats_categories true in
    let platform_desc =
      score_keywords_in_text combined platform_infra_keywords
      + category_score inputs.ats_categories false in
    record {
      backend_title_matches = backend_title;
      platform_title_matches = platform_title;
      hybrid_title_matches = hybrid_title;
      backend_desc_score = backend_desc;
      platform_desc_score = platform_desc;
      backend_total = backend_title * 4 + backend_desc;
      platform_total = platform_title * 4 + platform_desc;
    }

abbrev pub distance : ℕ → ℕ → ℕ
distance a b = max a b - min a b

-- The confidence of a leaning, from the total of the winner and that of the other persona.
abbrev pub leaning_confidence : ℕ → ℕ → ℕ
leaning_confidence winner other =
    if ltb 0 other
    then (if ltb (winner - other) 6 then confidence_med else confidence_high)
    else (if leb 4 winner then confidence_high else confidence_med)

abbrev leaning : ℕ → String → String → String
leaning other mixed clear = if ltb 0 other then mixed else clear

-- The ladder of tests at the end of `classify`.
unfoldable pub decide : Signals → ClassificationResult
decide s =
    let b = s.backend_total in
    let p = s.platform_total in
    if ltb 0 s.hybrid_title_matches && (ltb 0 b || ltb 0 p)
    then record {
      persona = hybrid;
      confidence = confidence_med;
      rationale = "hybrid title + mixed signals";
      matched_signals = s;
    }
    else if leb 4 b && leb 4 p && ltb (distance b p) 6
    then record {
      persona = hybrid;
      confidence = confidence_med;
      rationale = "mixed backend and platform signals; defaulting to hybrid";
      matched_signals = s;
    }
    else if ltb p b
    then record {
      persona = backend;
      confidence = leaning_confidence b p;
      rationale = leaning p "backend-leaning; some platform signals" "clear backend signals";
      matched_signals = s;
    }
    else if ltb b p
    then record {
      persona = platform_infra;
      confidence = leaning_confidence p b;
      rationale = leaning b "platform-leaning; some backend signals" "clear platform/infra signals";
      matched_signals = s;
    }
    else record {
      persona = hybrid;
      confidence = confidence_low;
      rationale = "ambiguous/mixed; defaulting to hybrid";
      matched_signals = s;
    }

unfoldable pub classify : ClassificationInput → ClassificationResult
classify inputs = decide (signals_of inputs)
