-- ===== src/Resume/Top.antt =====
-- Which bullets `_select_group` of core/resumes/v2_pipeline.py keeps.
use mathlib.Core.List.{Perm}
use mathlib.Core.Option.{some-injective}
use jobbot.Prelude.{
  ℕ, zero, suc, ◌≡◌, refl, sym, ap, subst, ◌∙◌, min, List, [], ◌∷◌, ◌++◌, some, map, take, drop,
  length, length-take, bind_parts, inl, inr, Bool-cases,
}
use jobbot.Text.{Text}
use jobbot.Resume.Evidence.{ResumeEvidencePackage, get_item}
use jobbot.Resume.Fit.{Target, Group, score_bullets, select_group}
use jobbot.Resume.Ranking.{
  Ranked, sort_ranked, insert_ranked, ranks_before, sort_ranked-perm, Outranks,
  sort_ranked-Outranks,
}

take_then_drop : {A : Type 0} (n : ℕ) (l : List A) → take n l ++ drop n l ≡ l
take_then_drop zero l = refl
take_then_drop (suc n) [] = refl
take_then_drop (suc n) (x ∷ xs) = ap (λ r. x ∷ r) (take_then_drop n xs)

length-insert_ranked :
    {A : Type 0} (r : Ranked A) (l : List (Ranked A)) → length (insert_ranked r l) ≡ suc (length l)
unfolding insert_ranked
length-insert_ranked r [] = refl
length-insert_ranked r (s ∷ rest) = elim (Bool-cases (ranks_before r s)) [
  | inl e ↦ rw e refl
  | inr e ↦ rw e (ap suc (length-insert_ranked r rest))
]

length-sort_ranked : {A : Type 0} (l : List (Ranked A)) → length (sort_ranked l) ≡ length l
unfolding sort_ranked
length-sort_ranked [] = refl
length-sort_ranked (r ∷ rest) =
    length-insert_ranked r (sort_ranked rest) ∙ ap suc (length-sort_ranked rest)

module _ (evidence : ResumeEvidencePackage) (target : Target) where
  length-score_bullets :
      (index : ℕ) (ids : List Text) (bullets : List (Ranked Text))
      → score_bullets evidence target index ids ≡ some bullets
      → length bullets ≡ length ids
  unfolding score_bullets
  length-score_bullets index [] bullets h = ap length (sym (some-injective _ _ h))
  length-score_bullets index (b ∷ ids) bullets h =
      let (item, found, h1) = bind_parts (get_item b evidence.items) _ bullets h in
      let (rest, read, h2) =
        bind_parts (score_bullets evidence target (suc index) ids) _ bullets h1 in
      ap length (sym (some-injective _ _ h2))
      ∙ ap suc (length-score_bullets (suc index) ids rest read)

  -- `kept` and `dropped` are the scored bullets; no dropped one scores more than a kept one.
  pub record IsTopGroup (bullet_ids : List Text) (max_bullets : ℕ) (g : Group) : Type 0 where
    pub bullets : List (Ranked Text)
    pub read : score_bullets evidence target 0 bullet_ids ≡ some bullets
    pub kept : List (Ranked Text)
    pub dropped : List (Ranked Text)
    pub whole : Perm (kept ++ dropped) bullets
    pub selected : g.selected_ids ≡ map (λ r. r.value) kept
    pub as_many : length kept ≡ min max_bullets (length bullet_ids)
    pub top : Outranks kept dropped

  -- The bullets that are selected from an entry are as many as the limit and the entry allow, and
  -- the bullets that are not selected are the rest, none with a higher score than a selected one.
  pub select_group-IsTopGroup :
      (bullet_ids : List Text) (max_bullets : ℕ) (g : Group)
      → select_group evidence target bullet_ids max_bullets ≡ some g
      → IsTopGroup bullet_ids max_bullets g
  unfolding select_group
  select_group-IsTopGroup bullet_ids max_bullets g h =
      let (bullets, read, h1) = bind_parts (score_bullets evidence target 0 bullet_ids) _ g h in
      let ranked : List (Ranked Text) = sort_ranked bullets in
      record {
        bullets = bullets;
        read = read;
        kept = take max_bullets ranked;
        dropped = drop max_bullets ranked;
        whole =
            subst (λ l. Perm l bullets) (sym (take_then_drop max_bullets ranked))
              (sort_ranked-perm bullets);
        selected = ap (λ (k : Group). k.selected_ids) (sym (some-injective _ _ h1));
        as_many =
            length-take max_bullets ranked
            ∙ ap (min max_bullets)
                (length-sort_ranked bullets ∙ length-score_bullets 0 bullet_ids bullets read);
        top = sort_ranked-Outranks max_bullets bullets;
      }
