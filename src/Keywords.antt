-- ===== src/Keywords.antt =====
-- core/resumes/keywords.py. A set is a list without repetition, a dict the list of its items in
-- insertion order.
use jobbot.Prelude.{List, [], ◌∷◌, ◌++◌, map, if◌then◌else◌, select, String}
use jobbot.Text.{Text, lit, lower, strip, text_eq, text_mem}
use jobbot.Matching.{keyword_in_text}

abbrev pub words : List String → List Text
words = map lit

abbrev pub synonym_map : List (Text × Text)
synonym_map =
    (lit "js", lit "javascript")
    ∷ (lit "ts", lit "typescript")
    ∷ (lit "k8s", lit "kubernetes")
    ∷ (lit "postgres", lit "postgresql")
    ∷ (lit "mongo", lit "mongodb")
    ∷ (lit "gcp", lit "google cloud")
    ∷ (lit "react.js", lit "react")
    ∷ (lit "node.js", lit "nodejs")
    ∷ (lit "vue.js", lit "vue")
    ∷ []

abbrev pub tech_keywords : List (Text × List Text)
tech_keywords =
    (
      lit "languages",
      words (
          "python" ∷ "javascript" ∷ "typescript" ∷ "go" ∷ "java" ∷ "rust" ∷ "ruby" ∷ "c++" ∷ "scala"
          ∷ "kotlin" ∷ []),
    )
    ∷ (
      lit "frameworks",
      words (
          "fastapi" ∷ "django" ∷ "flask" ∷ "react" ∷ "nextjs" ∷ "express" ∷ "spring" ∷ "rails"
          ∷ "angular" ∷ "vue" ∷ []),
    )
    ∷ (
      lit "databases",
      words (
          "postgresql" ∷ "mysql" ∷ "mongodb" ∷ "redis" ∷ "elasticsearch" ∷ "dynamodb" ∷ "cassandra"
          ∷ []),
    )
    ∷ (
      lit "cloud",
      words (
          "aws" ∷ "google cloud" ∷ "azure" ∷ "docker" ∷ "kubernetes" ∷ "terraform" ∷ "ansible"
          ∷ []),
    )
    ∷ (
      lit "tools",
      words (
          "git" ∷ "jenkins" ∷ "github actions" ∷ "datadog" ∷ "grafana" ∷ "kafka" ∷ "rabbitmq"
          ∷ "celery" ∷ []),
    )
    ∷ []

-- set().union(*TECH_KEYWORDS.values()): the categories share no keyword.
abbrev pub union_of : List (Text × List Text) → List Text
union_of [] = []
union_of ((cat, kws) ∷ rest) = kws ++ union_of rest

abbrev pub all_tech : List Text
all_tech = union_of tech_keywords

abbrev synonym_or : Text → List (Text × Text) → Text
synonym_or kw [] = kw
synonym_or kw ((synonym, canonical) ∷ rest) =
    if text_eq synonym kw then canonical else synonym_or kw rest

unfoldable pub normalize_keyword : Text → Text
unfolding text_eq strip lower
normalize_keyword kw = synonym_or (lower (strip kw)) synonym_map

-- found.add(kw)
unfoldable pub add : Text → List Text → List Text
unfolding text_mem
add kw found = if text_mem kw found then found else found ++ kw ∷ []

-- The loop over SYNONYM_MAP: each synonym in the text adds its canonical keyword.
unfoldable pub add_synonyms : Text → List (Text × Text) → List Text → List Text
unfolding add keyword_in_text
add_synonyms text [] found = found
add_synonyms text ((synonym, canonical) ∷ rest) found =
    add_synonyms text rest (if keyword_in_text text synonym then add canonical found else found)

unfoldable pub extract_keywords : Text → List Text
unfolding add_synonyms
extract_keywords text =
    add_synonyms text synonym_map (select (λ kw. keyword_in_text text kw) all_tech)
