-- ===== src/Regex/Meaning.antt =====
-- What an expression matches, as a relation between places, and that the matcher decides it.
use jobbot.Prelude.{
  ℕ, ◌≡◌, refl, ◌⊎◌, inl, inr, Bool, true, Option, none, some, List, [], ◌∷◌, ◌++◌, arith,
  Bool-cases, is_some, some_of, is_some_of,
}
use jobbot.Text.{Text}
use jobbot.Regex.{
  Re, eps, bound, finish, chr, star, seq, alt, group, Place, step, at_bound, at_finish, consumed,
  first, run_star, run_chr, run, start, match_at, search_from,
}

-- `q` lies behind a run of characters that pass `f`.
abbrev pub Spans : (ℕ → Bool) → List Text → Option ℕ → Text → Place → Type 0
Spans f gs prev [] q = q ≡ record { prev = prev; rest = []; groups = gs }
Spans f gs prev (c ∷ s) q =
    (q ≡ record { prev = prev; rest = c ∷ s; groups = gs })
    ⊎ ((f c ≡ true) × Spans f gs (some c) s q)

abbrev pub Parses : Re → Place → Place → Type 0
Parses eps p q = q ≡ p
Parses bound p q = (at_bound p.prev p.rest ≡ true) × (q ≡ p)
Parses finish p q = (at_finish p.rest ≡ true) × (q ≡ p)
Parses (chr f) p q = (c : ℕ) × (s : Text) × (p.rest ≡ c ∷ s) × (f c ≡ true) × (q ≡ step p c s)
Parses (star f) p q = Spans f p.groups p.prev p.rest q
Parses (seq r s) p q = (m : Place) × Parses r p m × Parses s m q
Parses (alt r s) p q = Parses r p q ⊎ Parses s p q
Parses (group r) p q =
    (m : Place) × Parses r p m × (q ≡ record m { groups = m.groups ++ consumed p m ∷ [] })

first-eq-some {ℓ} :
    {A : Type ℓ} (o o' : Option A) {a : A} → first o o' ≡ some a → (o ≡ some a) ⊎ (o' ≡ some a)
first-eq-some none o' h = inr h
first-eq-some (some b) o' h = inl h

module _ (f : ℕ → Bool) (gs : List Text) (k : Place → Option Place) where
  run_star_sound :
      (prev : Option ℕ) (s : Text) (v : Place)
      → run_star f gs prev s k ≡ some v
      → (q : Place) × Spans f gs prev s q × (k q ≡ some v)
  unfolding run_star
  run_star_sound prev [] v h = (_, refl, h)
  run_star_sound prev (c ∷ s) v h = elim (Bool-cases (f c)) [
    | inr e ↦ (_, inl refl, rw e at h)
    | inl e ↦ elim (first-eq-some (run_star f gs (some c) s k) _ (rw e at h)) [
      | inr here ↦ (_, inl refl, here)
      | inl more ↦ let (q, sp, kq) = run_star_sound (some c) s v more in (q, inr (e, sp), kq)
    ]
  ]

  run_star_complete :
      (prev : Option ℕ) (s : Text) (q : Place)
      → Spans f gs prev s q
      → is_some (k q) ≡ true
      → is_some (run_star f gs prev s k) ≡ true
  unfolding run_star
  run_star_complete prev [] q h some_k = rw (← h) some_k
  run_star_complete prev (c ∷ s) q (inl h) some_k = ground (arith, rw h at some_k)
  run_star_complete prev (c ∷ s) q (inr (e, h)) some_k =
      rw e (ground (arith, run_star_complete (some c) s q h some_k))

-- A match that is found is a match, and leaves a place that the continuation accepts.
pub run_sound :
    (r : Re) (p : Place) (k : Place → Option Place) (v : Place)
    → run r p k ≡ some v
    → (q : Place) × Parses r p q × (k q ≡ some v)
unfolding run
run_sound eps p k v h = (p, refl, h)
run_sound bound p k v h = (p, (ground arith, refl), ground arith)
run_sound finish p k v h = (p, (ground arith, refl), ground arith)
run_sound (chr f) p k v h = go p.rest refl h
  where
    go :
        (s : Text)
        → p.rest ≡ s
        → run_chr f p s k ≡ some v
        → (q : Place) × Parses (chr f) p q × (k q ≡ some v)
    go [] e g = cc
    go (c ∷ s) e g = (step p c s, (c, s, e, ground arith, refl), ground arith)
run_sound (star f) p k v h = run_star_sound f p.groups k p.prev p.rest v h
run_sound (seq r s) p k v h =
    let (m, rm, h') = run_sound r p (λ m. run s m k) v h in
    let (q, sq, kq) = run_sound s m k v h' in (q, (m, rm, sq), kq)
run_sound (alt r s) p k v h = elim (first-eq-some (run r p k) (run s p k) h) [
  | inl g ↦ let (q, rq, kq) = run_sound r p k v g in (q, inl rq, kq)
  | inr g ↦ let (q, sq, kq) = run_sound s p k v g in (q, inr sq, kq)
]
run_sound (group r) p k v h = let (m, rm, km) = run_sound r p _ v h in (_, (m, rm, refl), km)

-- If there is a match that the continuation accepts, the matcher finds one.
pub run_complete :
    (r : Re) (p : Place) (k : Place → Option Place) (q : Place)
    → Parses r p q
    → is_some (k q) ≡ true
    → is_some (run r p k) ≡ true
unfolding run
run_complete eps p k q h g = rw (← h) g
run_complete bound p k q (e, h) g = rw e (rw (← h) g)
run_complete finish p k q (e, h) g = rw e (rw (← h) g)
run_complete (chr f) p k q (c, s, e, fc, h) g = rw e (rw fc (rw (← h) g))
run_complete (star f) p k q h g = run_star_complete f p.groups k p.prev p.rest q h g
run_complete (seq r s) p k q (m, rm, sq) g =
    run_complete r p (λ m. run s m k) m rm (run_complete s m k q sq g)
run_complete (alt r s) p k q (inl h) g = ground (arith, run_complete r p k q h g)
run_complete (alt r s) p k q (inr h) g = ground (arith, run_complete s p k q h g)
run_complete (group r) p k q (m, rm, h) g = run_complete r p _ m rm (rw (← h) g)

-- Some place of the text, from here on, begins a match.
abbrev pub Occurs : Re → Option ℕ → Text → Type 0
Occurs r prev [] = (q : Place) × Parses r (start prev []) q
Occurs r prev (c ∷ s) = ((q : Place) × Parses r (start prev (c ∷ s)) q) ⊎ Occurs r (some c) s

-- `search` finds something exactly when the expression occurs.
pub search_from_sound :
    (r : Re) (prev : Option ℕ) (s : Text) → is_some (search_from r prev s) ≡ true → Occurs r prev s
unfolding search_from
search_from_sound r prev [] h =
    let (v, e) = some_of (match_at r prev []) h in
    let (q, rq, kq) = run_sound r (start prev []) some v e in (q, rq)
search_from_sound r prev (c ∷ s) h =
    let (v, e) = some_of (search_from r prev (c ∷ s)) h in
    elim (first-eq-some (match_at r prev (c ∷ s)) (search_from r (some c) s) e) [
      | inl g ↦ let (q, rq, kq) = run_sound r (start prev (c ∷ s)) some v g in inl (q, rq)
      | inr g ↦ inr (search_from_sound r (some c) s (is_some_of _ g))
    ]

pub search_from_complete :
    (r : Re) (prev : Option ℕ) (s : Text) → Occurs r prev s → is_some (search_from r prev s) ≡ true
unfolding search_from
search_from_complete r prev [] (q, rq) = run_complete r (start prev []) some q rq refl
search_from_complete r prev (c ∷ s) (inl (q, rq)) =
    ground (arith, run_complete r (start prev (c ∷ s)) some q rq refl)
search_from_complete r prev (c ∷ s) (inr h) = ground (arith, search_from_complete r (some c) s h)
