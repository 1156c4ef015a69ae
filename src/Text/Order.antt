-- ===== src/Text/Order.antt =====
-- `sorted` on texts: by code points, or by a key such as `str.lower`.
use Prim.Native.Nat.{compare, Ordering}
use jobbot.Prelude.{
  suc, Bool, true, false, ◌||◌, ◌≡◌, refl, ◌∙◌, ap, List, [], ◌∷◌, arith, length, if◌then◌else◌,
}
use jobbot.Text.{Text, text_eq, text_mem}

unfoldable pub text_le : Text → Text → Bool
text_le [] t = true
text_le (a ∷ s) [] = false
text_le (a ∷ s) (b ∷ t) = elim (compare a b) [
  | Ordering.lt ↦ true
  | Ordering.gt ↦ false
  | Ordering.eq ↦ text_le s t
]

module _ (key : Text → Text) where
  unfoldable pub insert_by : Text → List Text → List Text
  unfolding text_le
  insert_by t [] = t ∷ []
  insert_by t (u ∷ us) = if text_le (key t) (key u) then t ∷ u ∷ us else u ∷ insert_by t us

  unfoldable pub sorted_by : List Text → List Text
  unfolding insert_by
  sorted_by [] = []
  sorted_by (t ∷ ts) = insert_by t (sorted_by ts)

  length-insert_by : (t : Text) (us : List Text) → length (insert_by t us) ≡ suc (length us)
  unfolding insert_by
  length-insert_by t [] = refl
  length-insert_by t (u ∷ us) = ground (arith, length-insert_by t us)

  pub length-sorted_by : (ts : List Text) → length (sorted_by ts) ≡ length ts
  unfolding sorted_by
  length-sorted_by [] = refl
  length-sorted_by (t ∷ ts) = length-insert_by t (sorted_by ts) ∙ ap suc (length-sorted_by ts)

  mem-insert_by :
      (k t : Text) (us : List Text) → text_mem k (insert_by t us) ≡ (text_eq t k || text_mem k us)
  unfolding insert_by text_mem
  mem-insert_by k t [] = refl
  mem-insert_by k t (u ∷ us) = ground (arith, mem-insert_by k t us)

  -- Sorting keeps the members.
  pub mem-sorted_by : (k : Text) (ts : List Text) → text_mem k (sorted_by ts) ≡ text_mem k ts
  unfolding sorted_by text_mem
  mem-sorted_by k [] = refl
  mem-sorted_by k (t ∷ ts) =
      mem-insert_by k t (sorted_by ts) ∙ ap (λ b. text_eq t k || b) (mem-sorted_by k ts)

abbrev pub sorted : List Text → List Text
sorted = sorted_by (λ t. t)
