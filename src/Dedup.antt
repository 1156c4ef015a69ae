-- ===== src/Dedup.antt =====
-- core/dedup/normalization.py and core/dedup/hash.py. `urlparse` is that of the standard library on
-- ASCII text, without its check of what stands between brackets in a host. SHA-256 is an argument.
pub mod Case
use mathlib.Core.List.{reverse}
use jobbot.Prelude.{
  ℕ, Bool, false, not, ◌&&◌, ◌||◌, List, [], ◌∷◌, ◌++◌, Option, none, some, any, select, leb, ◌==◌,
  if◌then◌else◌, is_nil,
}
use jobbot.Text.{
  Text, lit, lower, strip, squeeze, rstrip_slash, text_mem, is_digit, is_upper, starts_with,
}
use jobbot.Keywords.{words}

unfoldable pub collapse_whitespace : Text → Text
unfolding squeeze strip
collapse_whitespace s = strip (squeeze false s)

unfoldable pub normalize_title : Option Text → Text
unfolding collapse_whitespace strip lower
normalize_title none = []
normalize_title (some raw) = lower (collapse_whitespace (strip raw))

unfoldable pub normalize_company : Option Text → Text
unfolding collapse_whitespace strip lower
normalize_company none = []
normalize_company (some raw) = lower (collapse_whitespace (strip raw))

unfoldable pub normalize_location : Option Text → Text
unfolding collapse_whitespace strip lower text_mem
normalize_location none = []
normalize_location (some raw) =
    let loc_lower = lower (collapse_whitespace (strip raw)) in
    if text_mem loc_lower (words ("remote" ∷ "anywhere" ∷ "distributed" ∷ []))
    then lit "remote"
    else loc_lower

-- The text before the first character that `stops`, and the text from there on.
abbrev before_first : (ℕ → Bool) → Text → Text
before_first stops [] = []
before_first stops (c ∷ s) = if stops c then [] else c ∷ before_first stops s

abbrev from_first : (ℕ → Bool) → Text → Text
from_first stops [] = []
from_first stops (c ∷ s) = if stops c then c ∷ s else from_first stops s

unfoldable is_letter : ℕ → Bool
unfolding is_upper
is_letter c = is_upper c || (leb b'a' c && leb c b'z')

unfoldable scheme_char : ℕ → Bool
unfolding is_letter is_digit
scheme_char c = is_letter c || is_digit c || c == b'+' || c == b'-' || c == b'.'

abbrev starts_with_letter : Text → Bool
starts_with_letter [] = false
starts_with_letter (c ∷ s) = is_letter c

-- A URL has a scheme if a colon follows a letter and characters of a scheme.
unfoldable has_scheme : Text → Bool
unfolding scheme_char is_letter
has_scheme s =
    let name = before_first (λ c. c == b':') s in
    not (is_nil (from_first (λ c. c == b':') s))
    && starts_with_letter name
    && not (any (λ c. not (scheme_char c)) name)

abbrev tail_of : Text → Text
tail_of [] = []
tail_of (c ∷ s) = s

-- urlparse, as far as the program reads its result. Params are cut off the last segment of the path.
pub record Parsed : Type 0 where
  pub scheme : Text
  pub netloc : Text
  pub path : Text

abbrev netloc_end : ℕ → Bool
netloc_end c = c == b'/' || c == b'?' || c == b'#'

-- After the scheme: the text between `//` and the path.
abbrev netloc_of : Text → Text
netloc_of s = if starts_with (lit "//") s then before_first netloc_end (tail_of (tail_of s)) else []

abbrev after_netloc : Text → Text
after_netloc s = if starts_with (lit "//") s then from_first netloc_end (tail_of (tail_of s)) else s

-- The path's last segment is read from its end: what stands behind its first `;` is dropped.
abbrev without_params : Text → Text
without_params s =
    let r = reverse s in
    let last = reverse (before_first (λ c. c == b'/') r) in
    reverse (from_first (λ c. c == b'/') r) ++ before_first (λ c. c == b';') last

-- Schemes whose path has params.
abbrev params_schemes : List Text
params_schemes = words (
    "" ∷ "ftp" ∷ "hdl" ∷ "prospero" ∷ "http" ∷ "imap" ∷ "https" ∷ "shttp" ∷ "rtsp" ∷ "rtspu" ∷ "sip"
    ∷ "sips" ∷ "mms" ∷ "sftp" ∷ "tel" ∷ [])

-- Tabs and line ends are dropped anywhere in a URL.
abbrev unsafe : ℕ → Bool
unsafe c = c == 9 || c == 10 || c == 13

unfoldable urlparse : Text → Parsed
unfolding has_scheme lower text_mem starts_with
urlparse raw =
    let url = select (λ c. not (unsafe c)) raw in
    let scheme = if has_scheme url then lower (before_first (λ c. c == b':') url) else [] in
    let rest = if has_scheme url then tail_of (from_first (λ c. c == b':') url) else url in
    let path = before_first (λ c. c == b'?' || c == b'#') (after_netloc rest) in
    record {
      scheme = scheme;
      netloc = netloc_of rest;
      path = if text_mem scheme params_schemes then without_params path else path;
    }

-- One bracket without the other makes urlparse raise.
abbrev bad_brackets : Text → Bool
bad_brackets netloc =
    let opened = any (λ c. c == b'[') netloc in
    let closed = any (λ c. c == b']') netloc in (opened && not closed) || (closed && not opened)

abbrev or_default : Text → Text → Text
or_default [] d = d
or_default (c ∷ s) d = c ∷ s

unfoldable pub canonicalize_apply_url : Option Text → Text
unfolding strip urlparse lower rstrip_slash
canonicalize_apply_url none = []
canonicalize_apply_url (some url) =
    let s = strip url in
    let parsed = urlparse s in
    if is_nil s || bad_brackets parsed.netloc
    then []
    else (lower (or_default parsed.scheme (lit "https"))
        ++ lit "://"
        ++ lower parsed.netloc
        ++ or_default (rstrip_slash (or_default parsed.path (lit "/"))) (lit "/"))

abbrev canonical_or_empty : Option Text → Text
canonical_or_empty none = []
canonical_or_empty (some url) = if is_nil url then [] else canonicalize_apply_url (some url)

module _ (sha256 : Text → Text) where
  unfoldable pub compute_dedup_hash :
      (normalized_company normalized_title normalized_location : Text) (apply_url : Option Text)
      → Text
  compute_dedup_hash company title location apply_url = sha256 (
      company ++ lit "|" ++ title ++ lit "|" ++ location ++ lit "|" ++ canonical_or_empty apply_url)

  unfoldable pub compute_dedup_hash_from_raw :
      (company title location apply_url : Option Text) → Text
  unfolding compute_dedup_hash normalize_company normalize_title normalize_location
  compute_dedup_hash_from_raw company title location apply_url =
      compute_dedup_hash (normalize_company company) (normalize_title title)
        (normalize_location location) apply_url
