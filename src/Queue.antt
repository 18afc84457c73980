-- ===== src/Queue.antt =====
-- backend/app/infrastructure/execution_backend/mysql.py: the execution queue, `MySQLExecutionBackend`.
pub mod Effects
pub mod Claim
pub mod Report
pub mod Upkeep
pub mod Rules
pub mod Sound
pub mod Life
pub mod Order
pub mod Fencing
pub mod Grant
pub mod Progress
pub mod Recovery
