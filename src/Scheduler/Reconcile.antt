-- ===== src/Scheduler/Reconcile.antt =====
-- `reconcile_run`, `_workflow_event` and `_waiting_reason` of
-- backend/app/runtime/scheduler/workflow_scheduler.py.
pub mod Loops
pub mod Moves
pub mod Sound
use relayvia.Prelude.{
  ℕ, Bool, true, false, not, ◌&&◌, ◌||◌, Option, none, some, List, [], ◌∷◌, ◌==◌, is_some,
  if◌then◌else◌,
}
use relayvia.Errors.{ok}
use relayvia.Table.{Table, get, rows_where}
use relayvia.State.WorkflowRun.{WorkflowRunStatus, is_workflow_run_terminal}
use relayvia.State.WorkflowRun
use relayvia.State.NodeRun.{NodeRunStatus}
use relayvia.State.NodeRun
use relayvia.Db.{
  WorkflowRun, NodeRun, WaitingReason, RunEventType, Db, Tx, pure, lift, put_run, record_event,
  ◌>>=◌, ◌>>◌,
}
use relayvia.Runs.Cancel.{cancel_run_tasks, move_run}
use relayvia.Scheduler.Derive.{derive_workflow_state}
use relayvia.Scheduler.Dispatch.{Collaborators}
use relayvia.Scheduler.Submit.{in_run, schedule_ready_nodes}
use relayvia.Scheduler.Waits.{promote_due_waits}

-- `_waiting_reason`
unfoldable pub waiting_reason : Table NodeRun → Option WaitingReason
waiting_reason [] = none
waiting_reason ((k, n) ∷ rows) =
    if NodeRun.is n.status NodeRunStatus.waiting && is_some n.waiting_reason
    then n.waiting_reason
    else waiting_reason rows

abbrev event_of : WorkflowRunStatus → Option RunEventType
event_of WorkflowRunStatus.waiting = some RunEventType.workflow_waiting
event_of WorkflowRunStatus.running = some RunEventType.workflow_resumed
event_of WorkflowRunStatus.completed = some RunEventType.workflow_completed
event_of WorkflowRunStatus.failed = some RunEventType.workflow_failed
event_of WorkflowRunStatus.cancelled = some RunEventType.workflow_cancelled
event_of _ = none

abbrev event_if : ℕ → Option RunEventType → Tx (Unit {0})
event_if run_id none = pure tt
event_if run_id (some type) = record_event run_id none type

-- `_workflow_event`
unfoldable pub workflow_event : ℕ → WorkflowRunStatus → Tx (Unit {0})
workflow_event run_id derived = event_if run_id (event_of derived)

module _ (c : Collaborators) (task_key workspace_key : ℕ → ℕ) (now run_id : ℕ) where
  -- What follows the derivation, with the row of the run as it then is.
  unfoldable pub finish_reconcile :
      WorkflowRunStatus → Table NodeRun → WorkflowRun → Tx (Option WorkflowRunStatus)
  unfolding schedule_ready_nodes waiting_reason
  finish_reconcile derived rows run =
      (if WorkflowRun.is derived WorkflowRunStatus.running
        then schedule_ready_nodes c task_key workspace_key now run_id
        else pure [])
      >>= λ _.
          put_run run_id (record run {
            waiting_reason =
                if WorkflowRun.is derived WorkflowRunStatus.waiting
                then waiting_reason rows
                else none;
          })
          >> pure (some derived)

  abbrev pub stamped : WorkflowRun → ℕ → WorkflowRun
  stamped run at =
      if is_workflow_run_terminal run.status then record run { finished_at = some at } else run

  -- The derived status differs from the one that the run has.
  unfoldable pub change_state :
      WorkflowRunStatus → Table NodeRun → WorkflowRun → Tx (Option WorkflowRunStatus)
  unfolding move_run cancel_run_tasks workflow_event finish_reconcile is_workflow_run_terminal
  change_state derived rows run = do
    run' ← lift (move_run derived run)
    put_run run_id (stamped run' now)
    if WorkflowRun.is derived WorkflowRunStatus.failed then cancel_run_tasks run_id now else pure tt
    workflow_event run_id derived
    finish_reconcile derived rows (stamped run' now)

  unfoldable pub derive_state : WorkflowRun → Tx (Option WorkflowRunStatus)
  unfolding change_state derive_workflow_state
  derive_state run db =
      let rows = rows_where (in_run run_id) db.node_runs in
      let derived = derive_workflow_state run.graph_snapshot rows in
      if WorkflowRun.is derived run.status
      then finish_reconcile derived rows run db
      else change_state derived rows run db

  unfoldable pub reconcile_found : Option WorkflowRun → Tx (Option WorkflowRunStatus)
  unfolding cancel_run_tasks promote_due_waits schedule_ready_nodes derive_state
  reconcile_found none = pure none
  reconcile_found (some run) =
      if WorkflowRun.is run.status WorkflowRunStatus.cancelled
      then cancel_run_tasks run_id now >> pure (some run.status)
      else if WorkflowRun.is run.status WorkflowRunStatus.completed
          || (WorkflowRun.is run.status WorkflowRunStatus.failed
              || WorkflowRun.is run.status WorkflowRunStatus.paused)
      then pure (some run.status)
      else promote_due_waits c now run_id >>= λ _.
          schedule_ready_nodes c task_key workspace_key now run_id >>= λ _. derive_state run

  unfoldable pub reconcile_run : Tx (Option WorkflowRunStatus)
  unfolding reconcile_found
  reconcile_run db = reconcile_found (get run_id db.runs) db
