-- ===== src/State.antt =====
-- The three status machines: backend/app/runtime/state_machine/__init__.py and
-- backend/app/domain/execution/state_machine.py.
pub mod WorkflowRun
pub mod NodeRun
pub mod ExecutionTask
pub mod Terminal
pub mod Life
