-- ===== src/Dedup/Case.antt =====
-- Normalization and letter case (core/dedup).
use mathlib.Core.List.{reverse}
use mathlib.Mathlib.Data.List.Basic.{map-reverse_aux}
use jobbot.Prelude.{
  ℕ, ◌≡◌, refl, sym, ◌∙◌, ap, inl, inr, Bool, true, false, [], ◌∷◌, Option, none, some, arith,
  Bool-cases,
}
use jobbot.Text.{is_upper, Text, is_space, lower_code, lower, lstrip, rstrip, strip, squeeze}
use jobbot.Text.Laws.{lower_idem}
use jobbot.Dedup.{
  collapse_whitespace, normalize_title, normalize_company, normalize_location,
  compute_dedup_hash_from_raw,
}

is_space-lower_code : (c : ℕ) → is_space (lower_code c) ≡ is_space c
unfolding is_space lower_code
is_space-lower_code c = ground arith

lstrip-lower : (s : Text) → lstrip (lower s) ≡ lower (lstrip s)
unfolding lstrip lower
lstrip-lower [] = refl
lstrip-lower (c ∷ s) = elim (Bool-cases (is_space c)) [
  | inl e ↦ rw (is_space-lower_code c, e) (lstrip-lower s)
  | inr e ↦ rw (is_space-lower_code c, e) refl
]

squeeze-lower : (after : Bool) (s : Text) → squeeze after (lower s) ≡ lower (squeeze after s)
unfolding squeeze lower lower_code is_upper
squeeze-lower after [] = refl
squeeze-lower true (c ∷ s) = elim (Bool-cases (is_space c)) [
  | inl e ↦ rw (is_space-lower_code c, e) (squeeze-lower true s)
  | inr e ↦ rw (is_space-lower_code c, e) (ap (λ r. lower_code c ∷ r) (squeeze-lower false s))
]
squeeze-lower false (c ∷ s) = elim (Bool-cases (is_space c)) [
  | inl e ↦ rw (is_space-lower_code c, e) (ap (λ r. 32 ∷ r) (squeeze-lower true s))
  | inr e ↦ rw (is_space-lower_code c, e) (ap (λ r. lower_code c ∷ r) (squeeze-lower false s))
]

reverse-lower : (s : Text) → reverse (lower s) ≡ lower (reverse s)
unfolding lower
reverse-lower s = sym (map-reverse_aux lower_code s [])

rstrip-lower : (s : Text) → rstrip (lower s) ≡ lower (rstrip s)
unfolding rstrip
rstrip-lower s =
    ap (λ r. reverse (lstrip r)) (reverse-lower s)
    ∙ ap reverse (lstrip-lower (reverse s))
    ∙ reverse-lower (lstrip (reverse s))

strip-lower : (s : Text) → strip (lower s) ≡ lower (strip s)
unfolding strip
strip-lower s = ap rstrip (lstrip-lower s) ∙ rstrip-lower (lstrip s)

-- What the three normalizations share.
normal-lower :
    (s : Text)
    → lower (collapse_whitespace (strip (lower s))) ≡ lower (collapse_whitespace (strip s))
unfolding collapse_whitespace
normal-lower s =
    ap (λ r. lower (strip (squeeze false r))) (strip-lower s)
    ∙ ap (λ r. lower (strip r)) (squeeze-lower false (strip s))
    ∙ ap lower (strip-lower (squeeze false (strip s)))
    ∙ lower_idem (strip (squeeze false (strip s)))

abbrev pub lowered : Option Text → Option Text
lowered none = none
lowered (some t) = some (lower t)

normalize_title-lower : (t : Option Text) → normalize_title (lowered t) ≡ normalize_title t
unfolding normalize_title
normalize_title-lower none = refl
normalize_title-lower (some t) = normal-lower t

normalize_company-lower : (t : Option Text) → normalize_company (lowered t) ≡ normalize_company t
unfolding normalize_company
normalize_company-lower none = refl
normalize_company-lower (some t) = normal-lower t

normalize_location-lower : (t : Option Text) → normalize_location (lowered t) ≡ normalize_location t
unfolding normalize_location
normalize_location-lower none = refl
normalize_location-lower (some t) = rw (normal-lower t) refl

-- The dedup hash does not depend on the letter case of company, title and location.
pub compute_dedup_hash_from_raw-lower :
    (sha256 : Text → Text) (company title location url : Option Text)
    → compute_dedup_hash_from_raw sha256 (lowered company) (lowered title) (lowered location) url
      ≡ compute_dedup_hash_from_raw sha256 company title location url
unfolding compute_dedup_hash_from_raw
compute_dedup_hash_from_raw-lower sha256 company title location url =
    rw
      (
        normalize_company-lower company,
        normalize_title-lower title,
        normalize_location-lower location,
      )
      refl
