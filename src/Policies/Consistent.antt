-- ===== src/Policies/Consistent.antt =====
-- What the policy table says of each kind of source.
use jobbot.Prelude.{◌≡◌, ◌∙◌, subst, inl, inr, true, false, [], ◌∷◌, some, All, Bool-cases}
use jobbot.Text.{Text, text_eq}
use jobbot.Text.Laws.{text_eq_sound}
use jobbot.Model.{canonical, discovery}
use jobbot.Registry.{Registry, create, legacy_connector, bb_browser}
use jobbot.Policies.{SourceKind, SourcePolicy, source_policies, get_source_policy}

-- What the kind of a source decides: its role, whether it needs a login, and the backend of an API
-- and of a source with a login. No source is a dynamic board.
abbrev pub FitsKind : SourceKind → SourcePolicy → Type 0
FitsKind SourceKind.canonical_api p =
    (p.source_role_default ≡ canonical)
    × (p.requires_auth ≡ false)
    × (p.backend_preference ≡ legacy_connector)
FitsKind SourceKind.public_board p = (p.source_role_default ≡ discovery) × (p.requires_auth ≡ false)
FitsKind SourceKind.browser_auth p =
    (p.source_role_default ≡ discovery)
    × (p.requires_auth ≡ true)
    × (p.backend_preference ≡ bb_browser)
FitsKind SourceKind.dynamic_board p = ⊥

abbrev Fits : Text × SourcePolicy → Type 0
Fits (name, p) = (p.source_name ≡ name) × FitsKind p.source_kind p

table-Fits : All Fits source_policies
table-Fits = search

found-Fits :
    (r : Registry SourcePolicy) (name : Text) (p : SourcePolicy)
    → All Fits r
    → create name r ≡ some p
    → (p.source_name ≡ name) × FitsKind p.source_kind p
unfolding create
found-Fits [] name p fits h = cc h
found-Fits ((n, q) ∷ rest) name p (here, fits) h = elim (Bool-cases (text_eq n name)) [
  | inr e ↦ found-Fits rest name p fits (rw e at h)
  | inl e ↦
      let made : some q ≡ some p = rw e at h in
      let same : q ≡ p = cc made in
      subst (λ x. (x.source_name ≡ name) × FitsKind x.source_kind x) same
        (here.0 ∙ text_eq_sound n name e, here.1)
]

-- A policy that is found bears the name that it was asked for; an API source is canonical and uses
-- the connectors, a public board is a discovery source without a login, and a source with a login
-- is a discovery source that uses the browser.
pub get_source_policy-Fits :
    (name : Text) (p : SourcePolicy)
    → get_source_policy name ≡ some p
    → (p.source_name ≡ name) × FitsKind p.source_kind p
unfolding get_source_policy
get_source_policy-Fits name p h = found-Fits source_policies name p table-Fits h
