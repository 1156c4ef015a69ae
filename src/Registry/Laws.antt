-- ===== src/Registry/Laws.antt =====
-- `register` followed by `create` (core/ingestion/registry.py).
use jobbot.Prelude.{
  ◌≡◌, refl, sym, ◌∙◌, inl, inr, ◌↔◌, true, false, [], ◌∷◌, ◌++◌, none, some, is_some, Bool-cases,
  if◌then◌else◌,
}
use jobbot.Text.{Text, text_eq}
use jobbot.Text.Laws.{text_eq_sound, text_eq_refl}
use jobbot.Registry.{Registry, create, has, register}

module _ {F : Type 0} where
  has-eq-create : (name : Text) (r : Registry F) → has name r ≡ is_some (create name r)
  unfolding has create
  has-eq-create name [] = refl
  has-eq-create name ((n, f) ∷ rest) = elim (Bool-cases (text_eq n name)) [
    | inl e ↦ rw e refl
    | inr e ↦ rw e (has-eq-create name rest)
  ]

  create-snoc :
      (name k : Text) (f : F) (r : Registry F)
      → has name r ≡ false
      → create k (r ++ (name, f) ∷ []) ≡ (if text_eq name k then some f else create k r)
  unfolding create has
  create-snoc name k f [] h = refl
  create-snoc name k f ((n, g) ∷ rest) h = elim (Bool-cases (text_eq n name)) [
    | inl e ↦ cc (rw e at h)
    | inr e ↦ elim (Bool-cases (text_eq n k)) [
      | inr d ↦ rw d (create-snoc name k f rest (rw e at h))
      | inl d ↦ elim (Bool-cases (text_eq name k)) [
        | inr c ↦ rw (d, c) refl
        | inl c ↦
            let same : n ≡ name = text_eq_sound n k d ∙ sym (text_eq_sound name k c) in
            let met : text_eq n name ≡ true = rw same (text_eq_refl name) in cc (met, e)
      ]
    ]
  ]

  register-some :
      (name : Text) (f : F) (r after : Registry F)
      → register name f r ≡ some after
      → (has name r ≡ false) × (after ≡ r ++ (name, f) ∷ [])
  unfolding register
  register-some name f r after h = elim (Bool-cases (has name r)) [
    | inl e ↦ cc (rw e at h)
    | inr e ↦
        let made : some (r ++ (name, f) ∷ []) ≡ some after = rw e at h in
        let same : after ≡ r ++ (name, f) ∷ [] = cc made in (e, same)
  ]

  -- A registration raises exactly when the name can already be made.
  pub register-none_iff :
      (name : Text) (f : F) (r : Registry F)
      → (register name f r ≡ none) ↔ (is_some (create name r) ≡ true)
  unfolding register
  register-none_iff name f r = elim (Bool-cases (has name r)) [
    | inl e ↦ rw e (λ h. sym (has-eq-create name r) ∙ e, λ h. refl)
    | inr e ↦ rw e (λ h. cc h, λ h. cc (h, sym (has-eq-create name r) ∙ e))
  ]

  -- After a registration that does not raise, the new factory is made under its name, and every
  -- other name makes what it made before.
  pub create-register :
      (name k : Text) (f : F) (r after : Registry F)
      → register name f r ≡ some after
      → create k after ≡ (if text_eq name k then some f else create k r)
  create-register name k f r after h =
      let (free, same) = register-some name f r after h in rw same (create-snoc name k f r free)
