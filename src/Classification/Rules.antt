-- ===== src/Classification/Rules.antt =====
-- core/classification/rules.py; keyword weights are in halves, confidences in hundredths.
use jobbot.Prelude.{ℕ, List, [], ◌∷◌}
use jobbot.Text.{Text, lit}
use jobbot.Keywords.{words}

abbrev pub backend_titles : List Text
backend_titles = words (
    "backend" ∷ "backend engineer" ∷ "backend developer" ∷ "api engineer" ∷ "server"
    ∷ "software engineer" ∷ [])

abbrev pub platform_titles : List Text
platform_titles = words (
    "platform engineer" ∷ "infrastructure" ∷ "infra" ∷ "devops" ∷ "sre" ∷ "site reliability"
    ∷ "cloud engineer" ∷ "systems engineer" ∷ [])

abbrev pub hybrid_titles : List Text
hybrid_titles = words ("full stack" ∷ "fullstack" ∷ "full-stack" ∷ [])

abbrev pub backend_keywords : List (Text × ℕ)
backend_keywords =
    (lit "api", 4)
    ∷ (lit "rest", 3)
    ∷ (lit "graphql", 3)
    ∷ (lit "database", 4)
    ∷ (lit "postgresql", 3)
    ∷ (lit "mysql", 3)
    ∷ (lit "redis", 3)
    ∷ (lit "mongodb", 2)
    ∷ (lit "business logic", 4)
    ∷ (lit "microservices", 3)
    ∷ (lit "python", 2)
    ∷ (lit "go", 2)
    ∷ (lit "java", 2)
    ∷ (lit "fastapi", 3)
    ∷ (lit "django", 3)
    ∷ (lit "flask", 2)
    ∷ (lit "spring", 2)
    ∷ (lit "rails", 2)
    ∷ []

abbrev pub platform_infra_keywords : List (Text × ℕ)
platform_infra_keywords =
    (lit "kubernetes", 5)
    ∷ (lit "k8s", 5)
    ∷ (lit "terraform", 4)
    ∷ (lit "ansible", 3)
    ∷ (lit "docker", 4)
    ∷ (lit "ci/cd", 3)
    ∷ (lit "cicd", 3)
    ∷ (lit "observability", 4)
    ∷ (lit "prometheus", 3)
    ∷ (lit "grafana", 3)
    ∷ (lit "datadog", 3)
    ∷ (lit "aws", 3)
    ∷ (lit "gcp", 3)
    ∷ (lit "azure", 3)
    ∷ (lit "google cloud", 3)
    ∷ (lit "infrastructure as code", 4)
    ∷ (lit "iac", 3)
    ∷ []

abbrev pub confidence_high : ℕ
confidence_high = 85

abbrev pub confidence_med : ℕ
confidence_med = 65

abbrev pub confidence_low : ℕ
confidence_low = 45
