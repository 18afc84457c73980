-- ===== src/Queue/Effects.antt =====
-- The helpers of `MySQLExecutionBackend` (mysql.py, from "--- helpers ---" on): who owns a task, and
-- what the operations do to the row of a task and to the row of its node run.
use relayvia.Prelude.{ℕ, Bool, false, ◌&&◌, Option, none, some, List, holds_id, ltb, if◌then◌else◌}
use relayvia.Errors.{Result, ok, err, and_then}
use relayvia.Table.{get}
use relayvia.Json.{Json}
use relayvia.State.NodeRun.{NodeRunStatus, is_node_run_terminal, transition_node_run}
use relayvia.State.NodeRun
use relayvia.State.ExecutionTask.{
  ExecutionTaskStatus, is_execution_task_terminal, transition_execution_task,
}
use relayvia.Db.{
  ExecutionTask, NodeRun, RunEventType, Tx, pure, lift, put_task, put_node_run, record_event, ◌>>=◌,
  ◌>>◌,
}

-- `_lease_active`, at the time `now`
abbrev pub lease_active : Option ℕ → ℕ → Bool
lease_active none now = false
lease_active (some expires) now = ltb now expires

-- `_owns`
unfoldable pub owns : ExecutionTask → ℕ → ℕ → ℕ → Bool
unfolding is_execution_task_terminal
owns task worker token now =
    if is_execution_task_terminal task.status
    then false
    else holds_id task.locked_by worker
      && holds_id task.lease_token token
      && lease_active task.lease_expires_at now

-- `transition_execution_task` and the write of the status
unfoldable pub move_task : ExecutionTaskStatus → ExecutionTask → Result ExecutionTask
unfolding transition_execution_task
move_task target task =
    and_then (transition_execution_task task.status target)
      λ _. ok (record task { status = target })

-- `transition_node_run` and the write of the status
unfoldable pub move_node : NodeRunStatus → NodeRun → Result NodeRun
unfolding transition_node_run
move_node target node_run =
    and_then (transition_node_run node_run.status target)
      λ _. ok (record node_run { status = target })

-- `_node_status`
unfoldable pub node_status : NodeRunStatus → Bool → NodeRun → Result NodeRun
unfolding move_node
node_status target allow_same node_run =
    if allow_same && NodeRun.is node_run.status target
    then ok node_run
    else move_node target node_run

-- `_node_completed`
unfoldable pub node_completed : Json → Json → List Json → ℕ → NodeRun → Result NodeRun
unfolding move_node
node_completed output metadata artifacts now node_run =
    and_then (move_node NodeRunStatus.completed node_run) λ n. ok (record n {
      output = some output;
      execution_metadata = metadata;
      artifact_refs = artifacts;
      finished_at = some now;
    })

-- `_node_failed`
unfoldable pub node_failed : Json → Json → List Json → ℕ → NodeRun → Result NodeRun
unfolding move_node is_node_run_terminal
node_failed error metadata artifacts now node_run =
    if is_node_run_terminal node_run.status
    then ok node_run
    else and_then (move_node NodeRunStatus.failed node_run) λ n. ok (record n {
      error = some error;
      execution_metadata = metadata;
      artifact_refs = artifacts;
      finished_at = some now;
    })

-- `_node_cancelled`
unfoldable pub node_cancelled : ℕ → NodeRun → Result NodeRun
unfolding move_node is_node_run_terminal
node_cancelled now node_run =
    if is_node_run_terminal node_run.status
    then ok node_run
    else and_then (move_node NodeRunStatus.cancelled node_run)
        λ n. ok (record n { finished_at = some now })

-- The four lock columns set to null.
abbrev pub unlocked : ExecutionTask → ExecutionTask
unlocked task = record task {
  locked_by = none;
  lease_token = none;
  locked_at = none;
  lease_expires_at = none;
}

-- A task moves to a terminal status at the time `now`.
unfoldable pub finish_task : ExecutionTaskStatus → ℕ → ExecutionTask → Result ExecutionTask
unfolding move_task
finish_task target now task =
    and_then (move_task target task) λ t. ok (record t { finished_at = some now })

-- A task goes back to the queue.
unfoldable pub requeue_task : ExecutionTask → Result ExecutionTask
unfolding move_task
requeue_task task = and_then (move_task ExecutionTaskStatus.pending task) λ t. ok (unlocked t)

-- A change of the node run of a task, if there is one: `db.get(NodeRun, ...)`.
unfoldable pub update_node : ℕ → (NodeRun → Result NodeRun) → Tx (Unit {0})
update_node key change db = elim (get key db.node_runs) [
  | none ↦ ok (tt, db)
  | some n ↦ elim (change n) [ ok n' ↦ put_node_run key n' db | err e ↦ err e ]
]

-- `_trace`
abbrev pub trace : ExecutionTask → RunEventType → Tx (Unit {0})
trace task type = record_event task.workflow_run_id (some task.node_run_id) type

abbrev trace_if : ExecutionTask → Option RunEventType → Tx (Unit {0})
trace_if task none = pure tt
trace_if task (some type) = trace task type

-- The common course of an operation on a locked task: the row of the task, the row of its node run,
-- and the event if there is one.
unfoldable pub settle :
    ℕ
    → ExecutionTask
    → (ExecutionTask → Result ExecutionTask)
    → (NodeRun → Result NodeRun)
    → Option RunEventType
    → Tx (Unit {0})
unfolding update_node
settle task_id task task_change node_change event = do
  task' ← lift (task_change task)
  put_task task_id task'
  update_node task.node_run_id node_change
  trace_if task event
