-- ===== src/Tests.antt =====
-- Concrete runs: the theorems at inputs that meet their hypotheses.
mod States
mod Rows
mod Queues
mod Schedulers
mod Graphs
mod Runs
mod Validations
mod Requests
mod Runners
