-- ===== src/Lib.antt =====
-- jobbot: ingestion of job postings, their triage by rules, and the recommendation of a resume.
--
-- The program's parts. Ingest tasks fetch postings through a connector and store the new ones as
-- rows of `jobs`; each run then starts a chain of four worker tasks over the new ids: scoring,
-- classification, ATS matching and the recommendation gate. The tasks share two tables, `jobs` and
-- `job_analyses`, and hand lists of ids from one to the next. The rules that they apply are pure
-- functions over a job's texts.
--
-- Files and code:
-- - Prelude, Text, Regex: shared lemmas, Python's `str` and the part of its `re` that the code uses.
-- - Matching: core/matching.py. Keywords: core/resumes/keywords.py.
-- - Status: core/job_status.py and the enums of core/db/models.py.
-- - Model: the rows of core/db/models.py and the values of their JSON columns; Model/Tables: the
--   queries and the upsert of job_analyses.
-- - Scoring: core/scoring (score_job and its factors). Ats: core/ats/extraction.py.
-- - Classification: core/classification (RulesBasedClassifier).
-- - ResumeMatching: core/resume_matching.py. Gate: core/automation/generation_gate.py.
-- - Pipeline: apps/worker/tasks; Sweep has the query and the loop that the tasks share; Score,
--   Classify, AtsMatch and Recommend have score_jobs, classify_jobs, ats_match_resume and
--   evaluate_generation_gate; Chain has the chain and the delivery of single messages in any order.
-- - Dedup: core/dedup. RunItems: core/run_items.py. Ingest: apps/worker/tasks/ingest.py
--   (_run_canonical_ingest), with its loop in Ingest/Run; Ingest/Tasks has ingest_greenhouse,
--   ingest_lever and ingest_ashby with their retries, Ingest/Url has ingest_url.
-- - Discovery: apps/worker/tasks/discovery.py, over the same loop; Discovery/Boards has the source
--   adapters' batches, Discovery/Tasks the tasks.
-- - UrlProvider: core/connectors/url_provider.py. Resolution: apps/worker/tasks/resolution.py, which
--   enriches a discovery job in place and starts the chain again.
-- - Api: apps/api/routes/jobs.py; Api/Workflow has the status changes, Api/Listing the listings,
--   Api/Resolve the request of a resolution, Api/Manual the manual entry, Api/Launch and Api/Adapters the
--   requests that launch runs.
-- - Scrape: apps/worker/tasks/scrape.py (scrape_jobspy), a loop of its own.
-- - Runs: apps/api/routes/runs.py.
-- - GenerationRuns: apps/worker/tasks/generation_runs.py and resume.py.
-- - System: all tables, and the tasks and requests as commits that follow each other in any order.
-- - Resume: core/resumes, from the inventory to the planned artifacts: Inventory, Evidence, Selection,
--   Fit (v2_pipeline.py), Payload, Layout and Planner (fit_planner.py, layout_types.py,
--   effective_input.py).
-- - Registry, Policies: core/ingestion/registry.py and core/ingestion/source_policies.py.
-- - Tests: runs at concrete inputs.
--
-- Numbers. All are natural. A float of the source is an exact quotient or a number in a fixed unit:
-- a score in tenths of a point, a height in half points, a confidence or a quality in hundredths, a
-- keyword weight in halves. Rounding is to the nearest, a tie to the even neighbour. Years are
-- natural numbers. Every loop is structural recursion over a list or a text. Two recursions use
-- fuel: the attempts of a task, for which one more than the retries is enough, and the decimal
-- digits of a number, of which there are at most one more than its value.
--
-- Texts are lists of code points; those that come from outside are ASCII. Ids and times are
-- numbers. A query gives rows in the order of the table. The object-relational mapper is taken to
-- write every attribute that a task sets, except a dict that was changed in place and is set again,
-- which it finds unchanged (generation.py), and a session to commit as a whole. A connector's
-- normalize may raise in the ingest and discovery tasks; a task that ends in an exception that it
-- does not catch commits nothing, and so is no step of System. Arguments stand for
-- what is not in the repository or is read from outside: the contents of the skills and catalog
-- files, the settings, the clock, new ids, SHA-256, the order of rows in a query, what Celery's
-- `retry` raises, and the connectors: `normalize` and what their fetch delivers.
--
-- Not modelled: HTTP and browser access, the connectors, the evidence of local files, the rendering of a
-- resume and its verification, storage, logs and metrics, and failures of the database in the middle
-- of a task.
pub mod Prelude
pub mod Text
pub mod Regex
pub mod Dedup
pub mod Matching
pub mod Status
pub mod Keywords
pub mod Model
pub mod Scoring
pub mod Api
pub mod Ats
pub mod Classification
pub mod ResumeMatching
pub mod Gate
pub mod Pipeline
pub mod RunItems
pub mod Ingest
pub mod Registry
pub mod Policies
pub mod UrlProvider
pub mod Resolution
pub mod Discovery
pub mod Resume
pub mod Scrape
pub mod GenerationRuns
pub mod Runs
pub mod System
pub mod Tests
