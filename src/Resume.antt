-- ===== src/Resume.antt =====
-- core/resumes: the grounded pipeline that selects evidence for a job, fits it to one page and builds
-- the structured payload. Rendering is not modelled, and the dataclasses' refusal of blank texts is
-- taken not to occur.
pub mod Evidence
pub mod Selection
pub mod Ranking
pub mod Fit
pub mod Payload
pub mod Layout
pub mod Planner
pub mod Grounded
pub mod Top
pub mod Inventory
pub mod FirstFit
