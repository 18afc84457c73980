-- ===== src/Runners.antt =====
-- backend/app/domain/runners: the machines that execute tasks, their registry and their calls.
pub mod Registry
pub mod Tasks
