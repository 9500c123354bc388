-- ===== src/Tests.antt =====
-- Runs of the model on small contracts, and the theorems applied to them.
pub mod Data
pub mod Diffs
pub mod Runs
pub mod Gates
pub mod Bursts
pub mod Jobs
pub mod Audits
pub mod Bodies
pub mod Frames
pub mod Exports
pub mod Stops
pub mod Workflows
