-- ===== src/Scheduler.antt =====
-- backend/app/runtime/scheduler/workflow_scheduler.py: `WorkflowScheduler`.
pub mod Ready
pub mod Skip
pub mod Derive
pub mod Progress
pub mod Retry
pub mod Dispatch
pub mod Submit
pub mod Waits
pub mod Reconcile
