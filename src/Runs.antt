-- ===== src/Runs.antt =====
-- The lifecycle of workflow runs.
pub mod Cancel
pub mod Create
pub mod Commit
pub mod Lifecycle
pub mod Human
pub mod Recovery
pub mod Trace
