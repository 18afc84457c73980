-- ===== src/Validation.antt =====
-- The validation of a graph: backend/app/runtime/validation.
pub mod Issue
pub mod Identity
pub mod Topology
