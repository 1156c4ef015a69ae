-- ===== src/Tests.antt =====
-- Runs of the program's functions at concrete inputs, and the theorems applied at such inputs.
pub mod Data
pub mod Fetched
pub mod Pipeline
pub mod Ingest
pub mod Resolution
pub mod Matching
pub mod Decisions
pub mod Api
pub mod Tasks
pub mod System
pub mod Resume
pub mod Launch
pub mod Generation
pub mod Runs
