-- ===== src/Pipeline.antt =====
-- The tasks of apps/worker/tasks on the tables of jobs and analyses: score.py, classify.py,
-- ats_match.py and generation.py, and the chain of the four.
pub mod Sweep
pub mod Score
pub mod Classify
pub mod AtsMatch
pub mod Recommend
pub mod Chain
pub mod Invariant
pub mod Redelivery
pub mod Progress
pub mod Lost
pub mod Isolation
