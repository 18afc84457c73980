-- ===== src/Lib.antt =====
-- Relayvia: a verification library for the workflow runtime of the backend (backend/app).
--
-- A workflow run executes an immutable graph snapshot. The scheduler turns ready nodes into tasks
-- of the execution queue; workers and runners claim tasks under a lease, execute them and report
-- back; the reports move the task and its node run through their status machines.
--
-- Files. State models runtime/state_machine/__init__.py and domain/execution/state_machine.py:
-- the three status enumerations, their tables of transitions and the functions that refuse a
-- transition. Db models the rows of domain/execution/models.py, domain/runs/models.py and
-- domain/runs/events.py and a transaction over them: a function from the database to an error,
-- which rolls everything back, or to a result with the new database. Queue models
-- infrastructure/execution_backend/mysql.py: Claim has `claim`, Report has `start`, `complete`,
-- `fail`, `wait_node`, `schedule_retry` and `renew_lease`, Upkeep has `submit`, `cancel`,
-- `recover_expired` and `promote_due_retries`, Effects has the helpers. The proofs stand in
-- Queue/Sound (rows stay well formed), Queue/Life (the life of one task), Queue/Fencing,
-- Queue/Grant, Queue/Order, Queue/Progress and Queue/Recovery. Tests has concrete runs.
--
-- Graph models domain/workflows/graph.py and the edges at a node of
-- runtime/validation/graph_index.py; Graph/Reach has its `reachable_from`, Graph/Cycle its
-- `cycle_nodes` and Graph/Search its `ancestors` and `descendants`. Validation models the
-- identity and topology rules of runtime/validation/rules. Scheduler models
-- runtime/scheduler/workflow_scheduler.py: Ready has `find_ready_nodes`, Skip has
-- `mark_unreachable_condition_nodes`, Derive has `derive_workflow_state`, Retry the retry
-- settings, Dispatch where a node executes, Submit `schedule_ready_nodes` (Limits bounds its
-- tasks), Waits `promote_due_waits`, Reconcile `reconcile_run`; its proofs stand in Skip/Rounds
-- (the loop ends), Skip/Exact (what it skips) and Progress. Runs/Cancel has `cancel_run` of
-- domain/runs/service.py and `cancel_run_tasks` of the scheduler, with the proofs in its child
-- modules; Runs/Create has the node runs of a new run (Start says where it starts),
-- Runs/Lifecycle start, pause and resumption, Runs/Human the decisions of a user (Approval says
-- when one is accepted), and Runs/Trace the runtime as a whole, any interleaving of these with
-- the queue. Runs/Recovery models runtime/recovery/execution_recovery.py; Runners/Registry and
-- Runners/Tasks model the registry, claims and heartbeats of domain/runners/service.py,
-- Infrastructure/Retry models infrastructure/database/retry.py. Prelude, Errors, Table and Json
-- are shared.
--
-- Correspondence. A transaction runs alone, as it does under the row locks of the source; what it
-- looks up before it locks comes from a database of its own, that may be older (`seen` in
-- `claim`), and the rows that `skip_locked` passes over are an argument. Identifiers, worker
-- names and lease tokens are only compared for equality, and are numbers. A fresh key or token is
-- an argument. A time is a number of seconds; a transaction that reads the clock for its guard
-- and again for its writes takes both readings, but the scheduler and the requests of a user take
-- one. A request that commits twice is two transactions, and the first stands if the second
-- fails. The TypeError of `wait_node` for metadata that cannot be passed as keyword arguments,
-- and that of a wait whose time has no zone, are errors of the transaction. The TypeError for a
-- selected branch that is a list or an object is not modelled: the edge counts as active. The
-- foreign key from a task's `runner_id` to the Runners is left out. Event payloads, log messages
-- and the texts and details of errors are left out.
--
-- Bounds. The loop of `mark_unreachable_condition_nodes` runs on fuel, one round more than the
-- run has node runs: each round but the last uses a pending node run up. The search of
-- `reachable_from` runs once more than there are starts and edges, since each edge puts a node on
-- the stack at most once; that of `cycle_nodes` once more than there are nodes, since each is put
-- in the queue at most once. A dictionary by `node_id` is a search for the first row, since a run
-- has at most one row for a node. A loop over selected rows reads each row again in its round
-- together with the test that selected it. The searches of `ancestors` and `descendants` and the
-- one that stops at merge nodes run once more than there are neighbours and edges. The retries of
-- a transaction are a recursion on the attempts that are left.
--
-- Not modelled: the context resolver, the sanitiser of traces and Python's built-in conversions,
-- which the scheduler takes as collaborators; the creation of runs but for their node runs; the
-- rules of the validation on nodes, references, context and schemas; workers and executors; what
-- a Runner reports; the registries; and everything that is input and output (connectors, storage,
-- HTTP, the frontend). The texts of a payload that only a Runner reads are left out.
pub mod Infrastructure
pub mod Prelude
pub mod Errors
pub mod Table
pub mod State
pub mod Json
pub mod Graph
pub mod Db
pub mod Queue
pub mod Scheduler
pub mod Runners
pub mod Runs
pub mod Validation
mod Tests
