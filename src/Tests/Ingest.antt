-- ===== src/Tests/Ingest.antt =====
-- Ingestion of three fetched jobs: a new one, one with its URL, and one that has no canonical form.
use jobbot.Prelude.{subst, ◌≡◌, refl, false, [], ◌∷◌, some, none, Option, is_nil}
use jobbot.Text.{Text, lit}
use jobbot.Dedup.{normalize_title, normalize_location, canonicalize_apply_url}
use jobbot.Ingest.{CanonicalJob, RawJob, Tables, value_or_empty}
use jobbot.Dedup.{compute_dedup_hash_from_raw}
use jobbot.Dedup.Case.{lowered, compute_dedup_hash_from_raw-lower}
use jobbot.Ingest.Run.{run_canonical_ingest}
use jobbot.Tests.Fetched.{
  canonical_of, with_title, normalize, origin, fetched, no_tables, new_run, digest, uuid,
  other_uuid,
}
use jobbot.Ingest.Rerun.{rerun_inserts_nothing}

remote_title :
    normalize_title (some (lit "  Senior \t Backend  Engineer ")) ≡ lit "senior backend engineer"
unfolding normalize_title
remote_title = refl

anywhere_location : normalize_location (some (lit " Anywhere")) ≡ lit "remote"
unfolding normalize_location
anywhere_location = refl

apply_url_canonical :
    canonicalize_apply_url (some (lit "HTTPS://Jobs.Lever.co/acme/X1/;p?lever-source=a#top"))
    ≡ lit "https://jobs.lever.co/acme/X1"
unfolding canonicalize_apply_url
apply_url_canonical = refl

bare_host : canonicalize_apply_url (some (lit "https://acme.com")) ≡ lit "https://acme.com/"
unfolding canonicalize_apply_url
bare_host = refl

no_scheme : canonicalize_apply_url (some (lit "acme.com/jobs")) ≡ lit "https://acme.com/jobs"
unfolding canonicalize_apply_url
no_scheme = refl

gives_apply_url :
    (raw : RawJob) (c : CanonicalJob)
    → normalize raw ≡ some c
    → is_nil (value_or_empty c.apply_url) ≡ false
gives_apply_url raw c = go raw.title raw.absolute_url
  where
    go :
        (t u : Option Text)
        → with_title raw t u ≡ some c
        → is_nil (value_or_empty c.apply_url) ≡ false
    go (some t) (some (a ∷ url)) h =
        let e : canonical_of raw t (a ∷ url) ≡ c = cc h in
        subst (λ k. is_nil (value_or_empty k.apply_url) ≡ false) e refl
    go (some t) (some []) h = cc h
    go (some t) none h = cc h
    go none u h = cc h

inserts_one :
    (run_canonical_ingest digest normalize origin uuid fetched 5 (some new_run) no_tables).chained
    ≡ 101 ∷ []
unfolding run_canonical_ingest
inserts_one = refl

abbrev first_run : Tables
first_run =
    (run_canonical_ingest digest normalize origin uuid fetched 5 (some new_run) no_tables).tables

rerun_inserts_nothing_example :
    let second =
      run_canonical_ingest digest normalize origin other_uuid fetched 9 (some new_run) first_run in
    (second.tables.jobs ≡ first_run.jobs) × (second.chained ≡ [])
rerun_inserts_nothing_example =
    rerun_inserts_nothing digest normalize origin uuid other_uuid gives_apply_url fetched 5 9
      (some new_run) (some new_run) no_tables

compute_dedup_hash_from_raw-lower_example :
    compute_dedup_hash_from_raw digest
      (lowered (some (lit "ACME")))
      (lowered (some (lit "Dev")))
      (lowered none)
      none
    ≡ compute_dedup_hash_from_raw digest (some (lit "ACME")) (some (lit "Dev")) none none
compute_dedup_hash_from_raw-lower_example =
    compute_dedup_hash_from_raw-lower digest (some (lit "ACME")) (some (lit "Dev")) none none
