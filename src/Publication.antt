-- ===== src/Publication.antt =====
-- The publication of a model: what its runtime did, what is decided from it, and the status that the
-- model is given.
pub mod Handle
pub mod Snapshot
pub mod Status
pub mod Conditions
pub mod Ready
pub mod Project
pub mod Runtime
pub mod Observe
mod Examples
