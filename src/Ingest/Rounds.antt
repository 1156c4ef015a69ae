-- ===== src/Ingest/Rounds.antt =====
-- What a round of the loop makes known, and that it stays known.
use jobbot.Prelude.{
  ℕ, ◌≡◌, ap, subst, ◌∙◌, ◌⊎◌, inl, inr, true, false, List, [], Option, is_some, Bool-cases, is_nil,
}
use jobbot.Text.{Text}
use jobbot.Dedup.{canonicalize_apply_url}
use jobbot.Ingest.{
  CanonicalJob, RawJob, Loop, note_url, note_urls, Origin, hash_of, value_or_empty,
  canonical_url_of, new_job,
}
use jobbot.Ingest.Run.{duplicate_row, insert_row, learn_url, known_url}
use jobbot.Ingest.Counts.{IsDuplicate, IsInsert, Known}
use jobbot.Ingest.Unique.{find_hash-snoc, find_hash-new}
use jobbot.Ingest.Urls.{
  has_url, ReadsBack, has_url-cons, has_url-note_url, has_url-noted, note_urls-snoc,
  lookup-cons-cases, url_of_apply,
}

has_url-learn_url :
    (c : CanonicalJob) (id : ℕ) (urls : List (Text × ℕ)) (u : Text)
    → has_url u urls ≡ true
    → has_url u (learn_url c id urls) ≡ true
has_url-learn_url c id urls u h = elim (Bool-cases (is_nil (canonical_url_of c))) [
  | inl e ↦ rw e h
  | inr e ↦ rw e (has_url-cons u (canonical_url_of c) id urls h)
]

-- A known URL stays known when more URLs are.
pub known_url-grows :
    (c : CanonicalJob) (urls more : List (Text × ℕ))
    → ((u : Text) → has_url u urls ≡ true → has_url u more ≡ true)
    → is_some (known_url c urls) ≡ true
    → is_some (known_url c more) ≡ true
known_url-grows c urls more grows h = elim (Bool-cases (is_nil (canonical_url_of c))) [
  | inl e ↦ cc (rw e at h)
  | inr e ↦ rw e (grows (canonical_url_of c) (rw e at h))
]

module _ (sha256 : Text → Text) (normalize : RawJob → Option CanonicalJob) (origin : Origin)
    (uuid : ℕ → ℕ) where
  abbrev pub Round : ℕ → RawJob → CanonicalJob → Loop → Loop → Type 0
  Round index raw c st after =
      IsDuplicate sha256 normalize origin uuid index raw c st after
      ⊎ IsInsert sha256 normalize origin uuid index raw c st after

  -- After its round, a job is known.
  pub Known-after :
      (index : ℕ) (raw : RawJob) (c : CanonicalJob) (st after : Loop)
      → Round index raw c st after
      → Known sha256 normalize origin uuid c after
  unfolding duplicate_row insert_row new_job
  Known-after index raw c st after (inl d) = rw d.same d.known
  Known-after index raw c st after (inr n) =
      rw n.same (inr (find_hash-new st.jobs (new_job origin (uuid index) (hash_of sha256 c) c)))

  pub Known-stays :
      (k : CanonicalJob) (index : ℕ) (raw : RawJob) (c : CanonicalJob) (st after : Loop)
      → Round index raw c st after
      → Known sha256 normalize origin uuid k st
      → Known sha256 normalize origin uuid k after
  unfolding duplicate_row insert_row
  Known-stays k index raw c st after (inl d) h = rw d.same h
  Known-stays k index raw c st after (inr n) (inl h) = rw n.same (
      inl (
        known_url-grows k st.apply_url_to_job_id (learn_url c (uuid index) st.apply_url_to_job_id)
          (has_url-learn_url c (uuid index) st.apply_url_to_job_id) h))
  Known-stays k index raw c st after (inr n) (inr h) = rw n.same (
      inr (
        find_hash-snoc (hash_of sha256 k) st.jobs (new_job origin (uuid index) (hash_of sha256 c) c)
          h))

  ReadsBack-insert :
      (c : CanonicalJob) (id : ℕ) (st : Loop)
      → is_nil (value_or_empty c.apply_url) ≡ false
      → ReadsBack st
      → (u : Text) → has_url u (learn_url c id st.apply_url_to_job_id) ≡ true
      → has_url u (note_url (new_job origin id (hash_of sha256 c) c) (note_urls st.jobs [])) ≡ true
  unfolding new_job
  ReadsBack-insert c id st given back u h =
      let n = new_job origin id (hash_of sha256 c) c in
      elim (Bool-cases (is_nil (canonical_url_of c))) [
        | inl e ↦ has_url-note_url u n (note_urls st.jobs []) (back u (rw e at h))
        | inr e ↦
            elim (lookup-cons-cases u (canonical_url_of c) id st.apply_url_to_job_id (rw e at h)) [
              | inl same ↦
                  let url : canonicalize_apply_url n.apply_url ≡ canonical_url_of c =
                    url_of_apply c given in
                  subst (λ v. has_url v (note_url n (note_urls st.jobs [])) ≡ true) (url ∙ same)
                    (has_url-noted n (note_urls st.jobs []) (ap is_nil url ∙ e))
              | inr old ↦ has_url-note_url u n (note_urls st.jobs []) (back u old)
            ]
      ]

  pub ReadsBack-Round :
      (index : ℕ) (raw : RawJob) (c : CanonicalJob) (st after : Loop)
      → is_nil (value_or_empty c.apply_url) ≡ false
      → Round index raw c st after
      → ReadsBack st
      → ReadsBack after
  unfolding duplicate_row insert_row
  ReadsBack-Round index raw c st after given (inl d) back = rw d.same back
  ReadsBack-Round index raw c st after given (inr n) back =
      let j = new_job origin (uuid index) (hash_of sha256 c) c in
      rw n.same (λ u h.
        rw (note_urls-snoc st.jobs j []) (ReadsBack-insert c (uuid index) st given back u h))
