-- ===== src/Ingest/Urls.antt =====
-- The map of known URLs, and which of them a session reads back from the rows of a run.
use jobbot.Prelude.{
  ℕ, ◌≡◌, refl, ◌⊎◌, inl, inr, Bool, true, false, ◌||◌, List, [], ◌∷◌, ◌++◌, Option, none, some,
  arith, is_some, Bool-cases, is_nil,
}
use jobbot.Text.{Text, text_eq}
use jobbot.Text.Laws.{text_eq_sound, text_eq_refl}
use jobbot.Model.{Job}
use jobbot.Dedup.{canonicalize_apply_url}
use jobbot.Ingest.{
  CanonicalJob, Loop, lookup, note_url, note_urls, value_or_empty, canonical_url_of,
}

abbrev pub has_url : Text → List (Text × ℕ) → Bool
has_url u urls = is_some (lookup u urls)

pub has_url-cons :
    (u v : Text) (id : ℕ) (urls : List (Text × ℕ))
    → has_url u urls ≡ true
    → has_url u ((v, id) ∷ urls) ≡ true
unfolding lookup
has_url-cons u v id urls h = ground arith

pub has_url-here : (u : Text) (id : ℕ) (urls : List (Text × ℕ)) → has_url u ((u, id) ∷ urls) ≡ true
unfolding lookup
has_url-here u id urls = rw (text_eq_refl u) refl

pub has_url-note_url :
    (u : Text) (j : Job) (urls : List (Text × ℕ))
    → has_url u urls ≡ true
    → has_url u (note_url j urls) ≡ true
has_url-note_url u j urls h =
    elim (Bool-cases (
      is_nil (canonicalize_apply_url j.apply_url)
      || is_some (lookup (canonicalize_apply_url j.apply_url) urls))) [
        | inl e ↦ rw e h
        | inr e ↦ rw e (has_url-cons u (canonicalize_apply_url j.apply_url) j.id urls h)
      ]

-- After its row is read, a job's URL is known.
pub has_url-noted :
    (j : Job) (urls : List (Text × ℕ))
    → is_nil (canonicalize_apply_url j.apply_url) ≡ false
    → has_url (canonicalize_apply_url j.apply_url) (note_url j urls) ≡ true
has_url-noted j urls h = elim (Bool-cases (has_url (canonicalize_apply_url j.apply_url) urls)) [
  | inl e ↦ rw (h, e) e
  | inr e ↦ rw (h, e) (has_url-here (canonicalize_apply_url j.apply_url) j.id urls)
]

pub note_urls-snoc :
    (js : List Job) (n : Job) (urls : List (Text × ℕ))
    → note_urls (js ++ n ∷ []) urls ≡ note_url n (note_urls js urls)
unfolding note_urls
note_urls-snoc [] n urls = refl
note_urls-snoc (j ∷ js) n urls = note_urls-snoc js n (note_url j urls)

-- Every URL that the loop knows would be read back from its rows.
abbrev pub ReadsBack : Loop → Type 0
ReadsBack st =
    (u : Text) → has_url u st.apply_url_to_job_id ≡ true → has_url u (note_urls st.jobs []) ≡ true

pub lookup-cons-cases :
    (u v : Text) (id : ℕ) (urls : List (Text × ℕ))
    → has_url u ((v, id) ∷ urls) ≡ true
    → (v ≡ u) ⊎ (has_url u urls ≡ true)
unfolding lookup
lookup-cons-cases u v id urls h = elim (Bool-cases (text_eq v u)) [
  | inl e ↦ inl (text_eq_sound v u e)
  | inr e ↦ inr (rw e at h)
]

pub url_of_apply :
    (c : CanonicalJob)
    → is_nil (value_or_empty c.apply_url) ≡ false
    → canonicalize_apply_url c.apply_url ≡ canonical_url_of c
url_of_apply c h = go c.apply_url h refl
  where
    go :
        (o : Option Text)
        → is_nil (value_or_empty o) ≡ false
        → c.apply_url ≡ o
        → canonicalize_apply_url c.apply_url ≡ canonical_url_of c
    go none h e = cc h
    go (some []) h e = cc h
    go (some (a ∷ s)) h e = rw e refl
