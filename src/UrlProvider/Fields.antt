-- ===== src/UrlProvider/Fields.antt =====
-- The two readings of a URL (core/connectors/url_provider.py).
use jobbot.Prelude.{◌≡◌, refl, inl, inr, Option, none, some, is_some, Bool-cases, is_nil}
use jobbot.Text.{Text, strip}
use jobbot.Regex.{Place}
use jobbot.UrlProvider.{
  Provider, UrlParseResult, parsed_by, detected_by, parse_supported_url, detect_provider,
  is_supported_url,
}

abbrev pub provider_of : Option UrlParseResult → Option Provider
provider_of none = none
provider_of (some p) = some p.provider

parsed-detected : (g l a : Option Place) → detected_by g l a ≡ provider_of (parsed_by g l a)
parsed-detected (some m) l a = refl
parsed-detected none (some m) a = refl
parsed-detected none none (some m) = refl
parsed-detected none none none = refl

-- The provider that is detected is that of the parsed URL, and there is one exactly for the URLs
-- that are reported as supported.
pub detect_provider-parse_supported_url :
    (url : Text)
    → (detect_provider url ≡ provider_of (parse_supported_url url))
      × (is_supported_url url ≡ is_some (detect_provider url))
unfolding detect_provider parse_supported_url is_supported_url
detect_provider-parse_supported_url url = elim (Bool-cases (is_nil (strip url))) [
  | inl e ↦ rw e (refl, refl)
  | inr e ↦ rw e (parsed-detected _ _ _, supported _ _ _)
]
  where
    supported : (g l a : Option Place) → is_some (parsed_by g l a) ≡ is_some (detected_by g l a)
    supported (some m) l a = refl
    supported none (some m) a = refl
    supported none none (some m) = refl
    supported none none none = refl
