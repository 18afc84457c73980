-- ===== src/Queue/Report.antt =====
-- The operations of `MySQLExecutionBackend` by which the owner of a lease reports: `start`,
-- `complete`, `fail`, `wait_node`, `schedule_retry` and `renew_lease`. Each reads the clock for the
-- lease (`now`) and again for what it writes (`later`).
use relayvia.Prelude.{
  ℕ, ◌+◌, Bool, true, false, String, Option, none, some, List, [], ◌∷◌, ◌||◌, if◌then◌else◌,
}
use relayvia.Errors.{ErrorCode, Result, ok, and_then}
use relayvia.Table.{get}
use relayvia.Json.{Json, may_spread}
use relayvia.State.WorkflowRun.{WorkflowRunStatus}
use relayvia.State.WorkflowRun
use relayvia.State.NodeRun.{NodeRunStatus}
use relayvia.State.ExecutionTask.{ExecutionTaskStatus}
use relayvia.Db.{
  ExecutionTask, NodeRun, WorkflowRun, WaitingReason, RunEventType, Tx, pure, raise, put_task, ◌>>◌,
}
use relayvia.Queue.Effects.{
  owns, move_task, move_node, node_status, node_completed, node_failed, node_cancelled, unlocked,
  finish_task, requeue_task, settle,
}
use relayvia.Queue.Claim.{run_is_running, start_task}

-- The credentials that a worker shows with a report.
pub record Lease : Type 0 where
  pub task_id : ℕ
  pub worker_id : ℕ
  pub lease_token : ℕ

-- `if not self._owns(...): return False`, and else what follows
abbrev pub guarded_row : Lease → ℕ → (ExecutionTask → Tx Bool) → Option ExecutionTask → Tx Bool
guarded_row lease now body none = pure false
guarded_row lease now body (some task) =
    if owns task lease.worker_id lease.lease_token now then body task else pure false

unfoldable pub guarded : Lease → ℕ → (ExecutionTask → Tx Bool) → Tx Bool
unfolding owns
guarded lease now body db = guarded_row lease now body (get lease.task_id db.tasks) db

abbrev pub is_parked : Option WorkflowRun → Bool
is_parked none = false
is_parked (some run) =
    WorkflowRun.is run.status WorkflowRunStatus.paused
    || WorkflowRun.is run.status WorkflowRunStatus.waiting

-- `_release_or_cancel_for_run_state`
unfoldable pub release_or_cancel : ℕ → ℕ → ExecutionTask → Option WorkflowRun → Tx (Unit {0})
unfolding settle requeue_task finish_task node_cancelled
release_or_cancel task_id later task run =
    if is_parked run
    then settle task_id task requeue_task ok none
    else settle task_id task (finish_task ExecutionTaskStatus.cancelled later)
        (node_cancelled later) none

unfoldable pub start_row : Lease → ℕ → ExecutionTask → Tx Bool
unfolding release_or_cancel settle start_task node_status
start_row lease later task db =
    let run = get task.workflow_run_id db.runs in
    if run_is_running run
    then (do
      settle lease.task_id task (start_task later) (node_status NodeRunStatus.running true)
          (some RunEventType.node_started)
      pure true)
        db
    else (do release_or_cancel lease.task_id later task run; pure false) db

unfoldable pub start : Lease → ℕ → ℕ → Tx Bool
unfolding guarded start_row
start lease now later = guarded lease now (start_row lease later)

-- What `complete` writes to the task.
unfoldable pub complete_task : ℕ → ExecutionTask → Result ExecutionTask
unfolding finish_task
complete_task later task =
    and_then (finish_task ExecutionTaskStatus.completed later task)
      λ t. ok (record t { last_error = none })

unfoldable pub complete : Lease → Json → Json → List Json → ℕ → ℕ → Tx Bool
unfolding guarded settle complete_task node_completed
complete lease output metadata artifacts now later = guarded lease now λ task. do
  settle lease.task_id task (complete_task later) (node_completed output metadata artifacts later)
      (some RunEventType.node_completed)
  pure true

-- What `fail` writes to the task.
unfoldable pub fail_task : Json → ℕ → ExecutionTask → Result ExecutionTask
unfolding finish_task
fail_task error later task =
    and_then (finish_task ExecutionTaskStatus.failed later task)
      λ t. ok (record t { last_error = some error })

unfoldable pub fail : Lease → Json → Json → List Json → ℕ → ℕ → Tx Bool
unfolding guarded settle fail_task node_failed
fail lease error metadata artifacts now later = guarded lease now λ task. do
  settle lease.task_id task (fail_task error later) (node_failed error metadata artifacts later)
      (some RunEventType.node_failed)
  pure true

-- What `wait_node` writes to the node run.
unfoldable pub park_node : WaitingReason → Json → NodeRun → Result NodeRun
unfolding move_node
park_node reason metadata node_run =
    and_then (move_node NodeRunStatus.waiting node_run)
      λ n. ok (record n { waiting_reason = some reason; waiting_metadata = metadata })

-- The last call of `wait_node`, `self._trace(db, task, ..., message=..., reason=..., **waiting_metadata)`,
-- as far as it may raise: `db`, `task`, `event_type` and `message` are parameters of `_trace`, and
-- `reason` is given beside the metadata. The error rolls the writes before it back.
abbrev pub trace_arguments : List String
trace_arguments = "db" ∷ "task" ∷ "event_type" ∷ "message" ∷ "reason" ∷ []

unfoldable pub trace_waiting : Json → Tx Bool
unfolding may_spread
trace_waiting metadata =
    if may_spread trace_arguments metadata then pure true else raise ErrorCode.type_error

unfoldable pub wait_node : Lease → WaitingReason → Json → ℕ → ℕ → Tx Bool
unfolding guarded settle finish_task park_node trace_waiting
wait_node lease reason metadata now later = guarded lease now λ task. do
  settle lease.task_id task (finish_task ExecutionTaskStatus.completed later)
      (park_node reason metadata) (some RunEventType.node_waiting)
  trace_waiting metadata

-- What `schedule_retry` writes to the task.
unfoldable pub retry_task : ℕ → ℕ → ExecutionTask → Result ExecutionTask
unfolding move_task
retry_task backoff_seconds later task =
    and_then (move_task ExecutionTaskStatus.retry_wait task)
      λ t. ok (unlocked (record t { available_at = later + backoff_seconds }))

unfoldable pub schedule_retry : Lease → ℕ → ℕ → ℕ → Tx Bool
unfolding guarded settle retry_task node_status
schedule_retry lease backoff_seconds now later = guarded lease now λ task. do
  settle lease.task_id task (retry_task backoff_seconds later)
      (node_status NodeRunStatus.retrying true) (some RunEventType.node_retrying)
  pure true

unfoldable pub renew_lease : Lease → ℕ → ℕ → ℕ → Tx Bool
unfolding guarded
renew_lease lease lease_seconds now later = guarded lease now λ task. do
  put_task lease.task_id (record task { lease_expires_at = some (later + lease_seconds) })
  pure true
