-- ===== src/Matching/Words.antt =====
-- When a keyword appears in a text, said without regular expressions.
use jobbot.Prelude.{
  ℕ, ◌≡◌, ◌≢◌, refl, ◌⊎◌, inl, inr, ◌↔◌, true, false, Option, none, some, List, [], ◌∷◌, ◌++◌,
  arith, Bool-cases, subst, if◌then◌else◌, ◌==◌,
}
use jobbot.Text.{Text, is_space, is_word, lower, lower_code}
use jobbot.Regex.{Place, at_bound, word_at, head, same_letter, start}
use jobbot.Regex.Meaning.{Spans, Parses, Occurs, search_from_sound, search_from_complete}
use jobbot.Matching.{spelled, word_boundary_pattern, keyword_in_text}

-- `R` holds behind some of the white space that comes next.
abbrev pub BehindSpaces : (Option ℕ → Text → Type 0) → Option ℕ → Text → Type 0
BehindSpaces R prev [] = R prev []
BehindSpaces R prev (c ∷ s) = R prev (c ∷ s) ⊎ ((is_space c ≡ true) × BehindSpaces R (some c) s)

-- The text goes on with the keyword, a letter for a letter up to case and white space for a space,
-- and `Q` holds behind it. `prev` is the character in front.
abbrev pub Spells : Text → (Option ℕ → Text → Type 0) → Option ℕ → Text → Type 0
Spells [] Q prev s = Q prev s
Spells (c ∷ kw) Q prev [] = ⊥
Spells (c ∷ kw) Q prev (d ∷ s) =
    if c == 32
    then (is_space d ≡ true) × BehindSpaces (Spells kw Q) (some d) s
    else (same_letter c d ≡ true) × Spells kw Q (some d) s

abbrev pub Edge : Option ℕ → Text → Type 0
Edge prev s = at_bound prev s ≡ true

-- The keyword stands in the text with a word boundary on both sides.
abbrev pub Mentions : Text → Option ℕ → Text → Type 0
Mentions kw prev [] = Edge prev [] × Spells kw Edge prev []
Mentions kw prev (c ∷ s) =
    (Edge prev (c ∷ s) × Spells kw Edge prev (c ∷ s)) ⊎ Mentions kw (some c) s

abbrev place : List Text → Option ℕ → Text → Place
place gs prev s = record { prev = prev; rest = s; groups = gs }

BehindSpaces-of_Spans :
    (R : Option ℕ → Text → Type 0) (gs : List Text) (prev : Option ℕ) (s : Text) (m : Place)
    → Spans is_space gs prev s m
    → R m.prev m.rest
    → BehindSpaces R prev s
BehindSpaces-of_Spans R gs prev [] m e h = rw e at h
BehindSpaces-of_Spans R gs prev (c ∷ s) m (inl e) h = inl (rw e at h)
BehindSpaces-of_Spans R gs prev (c ∷ s) m (inr (sp, more)) h =
    inr (sp, BehindSpaces-of_Spans R gs (some c) s m more h)

Spans-of_BehindSpaces :
    (R : Option ℕ → Text → Type 0) (gs : List Text) (prev : Option ℕ) (s : Text)
    → BehindSpaces R prev s
    → (t : Text) × (last : Option ℕ) × Spans is_space gs prev s (place gs last t) × R last t
Spans-of_BehindSpaces R gs prev [] h = ([], prev, refl, h)
Spans-of_BehindSpaces R gs prev (c ∷ s) (inl h) = (c ∷ s, prev, inl refl, h)
Spans-of_BehindSpaces R gs prev (c ∷ s) (inr (sp, h)) =
    let (t, last, more, r) = Spans-of_BehindSpaces R gs (some c) s h in (t, last, inr (sp, more), r)

module _ (Q : Option ℕ → Text → Type 0) where
  Spells-of_Parses :
      (kw : Text) (gs : List Text) (prev : Option ℕ) (s : Text) (m : Place)
      → Parses (spelled kw) (place gs prev s) m
      → Q m.prev m.rest
      → Spells kw Q prev s
  unfolding spelled
  Spells-of_Parses [] gs prev s m e h = rw e at h
  Spells-of_Parses (c ∷ kw) gs prev s m (n, head_ok, tail_ok) h =
      let ih = Spells-of_Parses kw n.groups n.prev n.rest m tail_ok h in
      elim (Bool-cases (c == 32)) [
        | inl e ↦
            let (p, (d, t, es, sp, ep), more) = rw e at head_ok in
            rw (es, e)
              (
                sp,
                subst (λ (x : Place). BehindSpaces (Spells kw Q) x.prev x.rest) ep
                    (BehindSpaces-of_Spans (Spells kw Q) p.groups p.prev p.rest n more ih),
              )
        | inr e ↦
            let (d, t, es, same, ep) = rw e at head_ok in
            rw (es, e) (same, subst (λ (x : Place). Spells kw Q x.prev x.rest) ep ih)
      ]

  Parses-of_Spells :
      (kw : Text) (gs : List Text) (prev : Option ℕ) (s : Text)
      → Spells kw Q prev s
      → (t : Text) × (last : Option ℕ) × Parses (spelled kw) (place gs prev s) (place gs last t)
        × Q last t
  unfolding spelled
  Parses-of_Spells [] gs prev s h = (s, prev, refl, h)
  Parses-of_Spells (c ∷ kw) gs prev [] h = absurd h
  Parses-of_Spells (c ∷ kw) gs prev (d ∷ s) h = elim (Bool-cases (c == 32)) [
    | inl e ↦
        let (sp, later) = rw e at h in
        let (t, last, spans, r) = Spans-of_BehindSpaces (Spells kw Q) gs (some d) s later in
        let (u, end, parses, q) = Parses-of_Spells kw gs last t r in
        rw e (
          u,
          end,
          (place gs last t, (place gs (some d) s, (d, s, refl, sp, refl), spans), parses),
          q,
        )
    | inr e ↦
        let (same, later) = rw e at h in
        let (u, end, parses, q) = Parses-of_Spells kw gs (some d) s later in
        rw e (u, end, (place gs (some d) s, (d, s, refl, same, refl), parses), q)
  ]

here :
    (kw : Text) (prev : Option ℕ) (s : Text)
    → (q : Place) × Parses (word_boundary_pattern kw) (start prev s) q
    → Edge prev s × Spells kw Edge prev s
unfolding word_boundary_pattern
here kw prev s (q, (m, (edge, e), (n, spell, (edge', e')))) = (
  edge,
  Spells-of_Parses Edge kw [] prev s n (subst (λ (x : Place). Parses (spelled kw) x n) e spell)
      edge',
)

there :
    (kw : Text) (prev : Option ℕ) (s : Text)
    → Edge prev s × Spells kw Edge prev s
    → (q : Place) × Parses (word_boundary_pattern kw) (start prev s) q
unfolding word_boundary_pattern
there kw prev s (edge, spell) =
    let (t, last, parses, edge') = Parses-of_Spells Edge kw [] prev s spell in
    (place [] last t, (start prev s, (edge, refl), (place [] last t, parses, (edge', refl))))

Mentions-of_Occurs :
    (kw : Text) (prev : Option ℕ) (s : Text)
    → Occurs (word_boundary_pattern kw) prev s
    → Mentions kw prev s
unfolding word_boundary_pattern
Mentions-of_Occurs kw prev [] h = here kw prev [] h
Mentions-of_Occurs kw prev (c ∷ s) (inl h) = inl (here kw prev (c ∷ s) h)
Mentions-of_Occurs kw prev (c ∷ s) (inr h) = inr (Mentions-of_Occurs kw (some c) s h)

Occurs-of_Mentions :
    (kw : Text) (prev : Option ℕ) (s : Text)
    → Mentions kw prev s
    → Occurs (word_boundary_pattern kw) prev s
unfolding word_boundary_pattern
Occurs-of_Mentions kw prev [] h = there kw prev [] h
Occurs-of_Mentions kw prev (c ∷ s) (inl h) = inl (there kw prev (c ∷ s) h)
Occurs-of_Mentions kw prev (c ∷ s) (inr h) = inr (Occurs-of_Mentions kw (some c) s h)

-- A keyword appears in a text exactly when both are non-empty and, in the lower-cased text, it
-- stands somewhere with a word boundary on both sides, letters compared up to case and each of its
-- spaces standing for a run of white space.
pub keyword_in_text_iff :
    (text kw : Text)
    → (keyword_in_text text kw ≡ true) ↔ ((text ≢ []) × (kw ≢ []) × Mentions kw none (lower text))
unfolding keyword_in_text
keyword_in_text_iff [] kw = (λ h. cc, λ h. absurd (h.0 refl))
keyword_in_text_iff (c ∷ text) [] = (λ h. cc, λ h. absurd (h.1 refl))
keyword_in_text_iff (c ∷ text) (d ∷ kw) = (
  λ h. (
    λ e. cc,
    λ e. cc,
    Mentions-of_Occurs (d ∷ kw) none (lower (c ∷ text))
        (search_from_sound (word_boundary_pattern (d ∷ kw)) none (lower (c ∷ text)) h),
  ),
  λ h.
      search_from_complete (word_boundary_pattern (d ∷ kw)) none (lower (c ∷ text))
        (Occurs-of_Mentions (d ∷ kw) none (lower (c ∷ text)) h.2),
)

-- Somewhere in the text a character like `c` is directly followed by a word character.
abbrev pub Followed : ℕ → Text → Type 0
Followed c [] = ⊥
Followed c (d ∷ s) = ((same_letter c d ≡ true) × (word_at (head s) ≡ true)) ⊎ Followed c s

like_symbol : (c d : ℕ) → is_word c ≡ false → same_letter c d ≡ true → is_word d ≡ false
unfolding is_word lower_code
like_symbol c d h e = ground arith

word_at-some : (d : ℕ) → word_at (some d) ≡ is_word d
unfolding word_at
word_at-some d = refl

after_symbol :
    (c d : ℕ) (s : Text)
    → is_word c ≡ false
    → same_letter c d ≡ true
    → Edge (some d) s
    → word_at (head s) ≡ true
after_symbol c d s symbol same edge = ground (arith, word_at-some d, like_symbol c d symbol same)

Followed-of_BehindSpaces :
    (c : ℕ) (R : Option ℕ → Text → Type 0)
    → ((p : Option ℕ) (t : Text) → R p t → Followed c t)
    → (prev : Option ℕ) (s : Text) → BehindSpaces R prev s
    → Followed c s
Followed-of_BehindSpaces c R f prev [] h = f prev [] h
Followed-of_BehindSpaces c R f prev (d ∷ s) (inl h) = f prev (d ∷ s) h
Followed-of_BehindSpaces c R f prev (d ∷ s) (inr (sp, h)) =
    inr (Followed-of_BehindSpaces c R f (some d) s h)

module _ (c : ℕ) (symbol : is_word c ≡ false) (solid : (c == 32) ≡ false) where
  Followed-of_Spells :
      (kw : Text) (prev : Option ℕ) (s : Text) → Spells (kw ++ c ∷ []) Edge prev s → Followed c s
  Followed-of_Spells [] prev [] h = absurd h
  Followed-of_Spells [] prev (d ∷ s) h =
      let (same, edge) = rw solid at h in inl (same, after_symbol c d s symbol same edge)
  Followed-of_Spells (b ∷ kw) prev [] h = absurd h
  Followed-of_Spells (b ∷ kw) prev (d ∷ s) h = elim (Bool-cases (b == 32)) [
    | inl e ↦
        let (sp, later) = rw e at h in
        inr (Followed-of_BehindSpaces c _ (Followed-of_Spells kw) (some d) s later)
    | inr e ↦ let (same, later) = rw e at h in inr (Followed-of_Spells kw (some d) s later)
  ]

  Followed-of_Mentions :
      (kw : Text) (prev : Option ℕ) (s : Text) → Mentions (kw ++ c ∷ []) prev s → Followed c s
  Followed-of_Mentions kw prev [] h = Followed-of_Spells kw prev [] h.1
  Followed-of_Mentions kw prev (d ∷ s) (inl h) = Followed-of_Spells kw prev (d ∷ s) h.1
  Followed-of_Mentions kw prev (d ∷ s) (inr h) = inr (Followed-of_Mentions kw (some d) s h)

-- A keyword whose last character is neither a word character nor a space, such as "c++", is only
-- ever found where that symbol is directly followed by a letter, a digit or an underscore.
pub trailing_symbol_needs_word :
    (text kw : Text) (c : ℕ)
    → is_word c ≡ false
    → c ≢ 32
    → keyword_in_text text (kw ++ c ∷ []) ≡ true
    → Followed c (lower text)
trailing_symbol_needs_word text kw c symbol solid h =
    Followed-of_Mentions c symbol (ground arith) kw none (lower text)
      ((keyword_in_text_iff text (kw ++ c ∷ [])).0 h).2
