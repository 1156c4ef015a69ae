-- ===== src/UrlProvider.antt =====
-- core/connectors/url_provider.py
pub mod Fields
use jobbot.Prelude.{
  ℕ, Bool, true, false, not, ◌||◌, List, [], ◌∷◌, Option, none, some, is_some, ◌==◌, is_nil,
  if◌then◌else◌,
}
use jobbot.Text.{Text, lit, strip, is_word, is_digit}
use jobbot.Keywords.{words}
use jobbot.Regex.{
  Re, eps, finish, chr, star, seq, alt, group, opt, plus, letters, one_of, Place, match_at,
}

pub data Provider : Type 0 where
  greenhouse lever ashby : Provider

pub record UrlParseResult : Type 0 where
  pub provider : Provider
  pub board_token : Option Text
  pub job_id : Option Text
  pub client_name : Option Text
  pub job_board_name : Option Text
  pub job_slug : Option Text

-- `([a-zA-Z0-9_-]+)`
abbrev slug : Re
slug = group (plus (λ c. is_word c || c == b'-'))

-- `(?:[?#].*)?$`
abbrev query : Re
query = seq (opt (seq (chr (λ c. c == b'?' || c == b'#')) (star (λ c. not (c == 10))))) finish

abbrev slash : Re
slash = letters (lit "/")

-- `https?://` and the host.
abbrev host : Re → Re
host h = seq (letters (lit "http")) (seq (opt (letters (lit "s"))) (seq (letters (lit "://")) h))

unfoldable pub greenhouse_pattern : Re
unfolding letters one_of is_word is_digit
greenhouse_pattern =
    seq
      (host (
        one_of (
          words ("boards.greenhouse.io" ∷ "job-boards.greenhouse.io" ∷ "jobs.greenhouse.io" ∷ []))))
      (seq slash (seq slug (seq (letters (lit "/jobs/")) (seq (group (plus is_digit)) query))))

unfoldable pub lever_pattern : Re
unfolding letters is_word
lever_pattern =
    seq (host (letters (lit "jobs.lever.co/")))
      (seq slug (seq slash (seq slug (seq (opt (letters (lit "/apply"))) (seq (opt slash) query)))))

unfoldable pub ashby_pattern : Re
unfolding letters is_word
ashby_pattern =
    seq (host (letters (lit "jobs.ashbyhq.com/")))
      (seq slug (seq slash (seq slug (seq (opt slash) query))))

-- m.group(1), m.group(2)
abbrev pub group_1 : List Text → Option Text
group_1 [] = none
group_1 (a ∷ rest) = some a

abbrev pub group_2 : List Text → Option Text
group_2 [] = none
group_2 (a ∷ rest) = group_1 rest

abbrev pub result_of : Provider → List Text → UrlParseResult
result_of greenhouse gs = record {
  provider = greenhouse;
  board_token = group_1 gs;
  job_id = group_2 gs;
  client_name = none;
  job_board_name = none;
  job_slug = none;
}
result_of lever gs = record {
  provider = lever;
  board_token = none;
  job_id = group_2 gs;
  client_name = group_1 gs;
  job_board_name = none;
  job_slug = none;
}
result_of ashby gs = record {
  provider = ashby;
  board_token = none;
  job_id = group_2 gs;
  client_name = none;
  job_board_name = group_1 gs;
  job_slug = group_2 gs;
}

-- The first of the three matches.
abbrev pub parsed_by : (g l a : Option Place) → Option UrlParseResult
parsed_by (some m) l a = some (result_of greenhouse m.groups)
parsed_by none (some m) a = some (result_of lever m.groups)
parsed_by none none (some m) = some (result_of ashby m.groups)
parsed_by none none none = none

abbrev pub detected_by : (g l a : Option Place) → Option Provider
detected_by (some m) l a = some greenhouse
detected_by none (some m) a = some lever
detected_by none none (some m) = some ashby
detected_by none none none = none

unfoldable pub parse_supported_url : Text → Option UrlParseResult
unfolding strip match_at greenhouse_pattern lever_pattern ashby_pattern
parse_supported_url url =
    let s = strip url in
    if is_nil s
    then none
    else parsed_by (match_at greenhouse_pattern none s) (match_at lever_pattern none s)
        (match_at ashby_pattern none s)

unfoldable pub detect_provider : Text → Option Provider
unfolding strip match_at greenhouse_pattern lever_pattern ashby_pattern
detect_provider url =
    let s = strip url in
    if is_nil s
    then none
    else detected_by (match_at greenhouse_pattern none s) (match_at lever_pattern none s)
        (match_at ashby_pattern none s)

unfoldable pub is_supported_url : Text → Bool
unfolding parse_supported_url
is_supported_url url = is_some (parse_supported_url url)
