-- ===== src/Resume/Ranking.antt =====
-- `scored.sort(key=lambda item: (-score, index))` of core/resumes/v2_pipeline.py.
use mathlib.Core.List.{Perm}
use mathlib.Core.List.Perm
use jobbot.Prelude.{
  ℕ, zero, suc, ◌≤◌, inl, inr, Bool, ◌&&◌, ◌||◌, List, [], ◌∷◌, arith, All, All-map, take, drop,
  ltb, leb, ◌==◌, if◌then◌else◌, Bool-cases,
}

-- A candidate with its score and its place in the evidence.
pub record Ranked (A : Type 0) : Type 0 where
  pub value : A
  pub score : ℕ
  pub index : ℕ

module _ {A : Type 0} where
  -- (-a.score, a.index) <= (-b.score, b.index)
  abbrev pub ranks_before : Ranked A → Ranked A → Bool
  ranks_before a b = ltb b.score a.score || (a.score == b.score && leb a.index b.index)

  unfoldable pub insert_ranked : Ranked A → List (Ranked A) → List (Ranked A)
  insert_ranked r [] = r ∷ []
  insert_ranked r (s ∷ rest) = if ranks_before r s then r ∷ s ∷ rest else s ∷ insert_ranked r rest

  unfoldable pub sort_ranked : List (Ranked A) → List (Ranked A)
  unfolding insert_ranked
  sort_ranked [] = []
  sort_ranked (r ∷ rest) = insert_ranked r (sort_ranked rest)

  insert_ranked-perm : (r : Ranked A) (l : List (Ranked A)) → Perm (insert_ranked r l) (r ∷ l)
  unfolding insert_ranked
  insert_ranked-perm r [] = Perm.rfl
  insert_ranked-perm r (s ∷ rest) = elim (Bool-cases (ranks_before r s)) [
    | inl e ↦ rw e Perm.rfl
    | inr e ↦ rw e (Perm.trans (Perm.cons s (insert_ranked-perm r rest)) (Perm.swap r s rest))
  ]

  pub sort_ranked-perm : (l : List (Ranked A)) → Perm (sort_ranked l) l
  unfolding sort_ranked
  sort_ranked-perm [] = Perm.rfl
  sort_ranked-perm (r ∷ rest) =
      Perm.trans (insert_ranked-perm r (sort_ranked rest)) (Perm.cons r (sort_ranked-perm rest))

  -- No candidate scores more than one before it.
  abbrev Descending : List (Ranked A) → Type 0
  Descending [] = Unit
  Descending (r ∷ rest) = All (λ s. s.score ≤ r.score) rest × Descending rest

  All-insert_ranked :
      (P : Ranked A → Type 0) (r : Ranked A) (l : List (Ranked A))
      → P r
      → All P l
      → All P (insert_ranked r l)
  unfolding insert_ranked
  All-insert_ranked P r [] p h = (p, tt)
  All-insert_ranked P r (s ∷ rest) p h = elim (Bool-cases (ranks_before r s)) [
    | inl e ↦ rw e (p, h)
    | inr e ↦ rw e (h.0, All-insert_ranked P r rest p h.1)
  ]

  insert_ranked-Descending :
      (r : Ranked A) (l : List (Ranked A)) → Descending l → Descending (insert_ranked r l)
  unfolding insert_ranked
  insert_ranked-Descending r [] d = (tt, tt)
  insert_ranked-Descending r (s ∷ rest) d = elim (Bool-cases (ranks_before r s)) [
    | inl e ↦
        let top : s.score ≤ r.score = ground (arith, e) in
        rw e (
          (
            top,
            All-map (λ x. x.score ≤ s.score) (λ x. x.score ≤ r.score) rest
                (λ x h. omega (arith, h, top)) d.0,
          ),
          d,
        )
    | inr e ↦
        let below : r.score ≤ s.score = ground (arith, e) in
        rw e (
          All-insert_ranked (λ x. x.score ≤ s.score) r rest below d.0,
          insert_ranked-Descending r rest d.1,
        )
  ]

  sort_ranked-Descending : (l : List (Ranked A)) → Descending (sort_ranked l)
  unfolding sort_ranked
  sort_ranked-Descending [] = tt
  sort_ranked-Descending (r ∷ rest) =
      insert_ranked-Descending r (sort_ranked rest) (sort_ranked-Descending rest)

  All-drop : (P : Ranked A → Type 0) (n : ℕ) (l : List (Ranked A)) → All P l → All P (drop n l)
  All-drop P zero l h = h
  All-drop P (suc n) [] h = tt
  All-drop P (suc n) (r ∷ rest) h = All-drop P n rest h.1

  -- What is cut off scores no more than anything that is kept.
  abbrev pub Outranks : List (Ranked A) → List (Ranked A) → Type 0
  Outranks kept dropped = All (λ k. All (λ d. d.score ≤ k.score) dropped) kept

  Descending-Outranks :
      (n : ℕ) (l : List (Ranked A)) → Descending l → Outranks (take n l) (drop n l)
  Descending-Outranks zero l d = tt
  Descending-Outranks (suc n) [] d = tt
  Descending-Outranks (suc n) (r ∷ rest) d =
      (All-drop (λ s. s.score ≤ r.score) n rest d.0, Descending-Outranks n rest d.1)

  pub sort_ranked-Outranks :
      (n : ℕ) (l : List (Ranked A)) → Outranks (take n (sort_ranked l)) (drop n (sort_ranked l))
  sort_ranked-Outranks n l = Descending-Outranks n (sort_ranked l) (sort_ranked-Descending l)
