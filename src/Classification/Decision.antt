-- ===== src/Classification/Decision.antt =====
-- What a persona and a confidence say about the signals.
use jobbot.Prelude.{ℕ, ◌+◌, ◌≤◌, ◌≡◌, ◌≢◌, arith}
use jobbot.Model.{Persona, backend, platform_infra, hybrid, Signals}
use jobbot.Classification.{ClassificationInput, decide, signals_of, classify}
use jobbot.Classification.Rules.{confidence_high}

abbrev pub swap_persona : Persona → Persona
swap_persona backend = platform_infra
swap_persona platform_infra = backend
swap_persona hybrid = hybrid

-- The signals of backend and platform exchanged.
abbrev pub swap_signals : Signals → Signals
swap_signals s = record {
  backend_title_matches = s.platform_title_matches;
  platform_title_matches = s.backend_title_matches;
  hybrid_title_matches = s.hybrid_title_matches;
  backend_desc_score = s.platform_desc_score;
  platform_desc_score = s.backend_desc_score;
  backend_total = s.platform_total;
  platform_total = s.backend_total;
}

-- The decision favours neither persona: exchanging the two sets of signals exchanges BACKEND and
-- PLATFORM_INFRA and leaves the confidence as it is.
pub decide-swap :
    (s : Signals)
    → ((decide (swap_signals s)).persona ≡ swap_persona (decide s).persona)
      × ((decide (swap_signals s)).confidence ≡ (decide s).confidence)
unfolding decide
decide-swap s = (ground arith, ground arith)

-- The winner's total is at least the other's plus `gap` halves.
abbrev pub Leads : ℕ → Persona → Signals → Type 0
Leads gap backend s = s.platform_total + gap ≤ s.backend_total
Leads gap platform_infra s = s.backend_total + gap ≤ s.platform_total
Leads gap hybrid s = ⊥

decide-Leads_high :
    (s : Signals) → (decide s).confidence ≡ confidence_high → Leads 4 (decide s).persona s
unfolding decide
decide-Leads_high s h = ground arith

decide-Leads : (s : Signals) → (decide s).persona ≢ hybrid → Leads 1 (decide s).persona s
unfolding decide
decide-Leads s h = ground arith

decide_hybrid_title : (s : Signals) → (decide s).persona ≢ hybrid → s.hybrid_title_matches ≡ 0
unfolding decide
decide_hybrid_title s h = ground arith

-- High confidence is given only to BACKEND or PLATFORM_INFRA, with a lead of at least 2 points.
pub high_confidence-Leads :
    (inputs : ClassificationInput)
    → (classify inputs).confidence ≡ confidence_high
    → Leads 4 (classify inputs).persona (signals_of inputs)
unfolding classify
high_confidence-Leads inputs h = decide-Leads_high (signals_of inputs) h

-- A job is BACKEND or PLATFORM_INFRA only if that side has the strictly greater total; a hybrid
-- title always prevents both.
pub classify_sound :
    (inputs : ClassificationInput)
    → (classify inputs).persona ≢ hybrid
    → Leads 1 (classify inputs).persona (signals_of inputs)
      × ((signals_of inputs).hybrid_title_matches ≡ 0)
unfolding classify
classify_sound inputs h =
    (decide-Leads (signals_of inputs) h, decide_hybrid_title (signals_of inputs) h)
