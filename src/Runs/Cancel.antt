-- ===== src/Runs/Cancel.antt =====
-- `cancel_run` of backend/app/domain/runs/service.py and `cancel_run_tasks` of
-- backend/app/runtime/scheduler/workflow_scheduler.py. The rows of a loop are those that it selects
-- when it starts; each is read again in its round, and the loop's test with it.
pub mod Moves
pub mod Loops
pub mod Ends
use relayvia.Prelude.{ℕ, Bool, true, false, not, ◌&&◌, Option, none, some, ◌==◌, if◌then◌else◌}
use relayvia.Errors.{ErrorCode, Result, ok, err, and_then}
use relayvia.Table.{get, keys_where}
use relayvia.State.WorkflowRun.{
  WorkflowRunStatus, is_workflow_run_terminal, transition_workflow_run,
}
use relayvia.State.NodeRun.{NodeRunStatus, is_node_run_terminal}
use relayvia.State.NodeRun
use relayvia.State.ExecutionTask.{ExecutionTaskStatus, is_execution_task_terminal}
use relayvia.Db.{
  ExecutionTask, NodeRun, WorkflowRun, RunEventType, Db, Tx, pure, raise, lift, put_run,
  put_node_run, record_event, for_each, ◌>>=◌, ◌>>◌,
}
use relayvia.Queue.Effects.{move_node, finish_task, node_cancelled, settle}
use relayvia.Queue.Upkeep.{at_task}

-- The body of a loop over node runs.
abbrev pub at_node_row :
    (NodeRun → Bool) → (NodeRun → Tx (Unit {0})) → Option NodeRun → Tx (Unit {0})
at_node_row selected body none = pure tt
at_node_row selected body (some n) = if selected n then body n else pure tt

abbrev pub at_node_run : (NodeRun → Bool) → (ℕ → NodeRun → Tx (Unit {0})) → ℕ → Tx (Unit {0})
at_node_run selected body key db = at_node_row selected (body key) (get key db.node_runs) db

unfoldable pub live_task : ℕ → ExecutionTask → Bool
live_task run t = t.workflow_run_id == run && not (is_execution_task_terminal t.status)

unfoldable pub cancel_task : ℕ → ℕ → ExecutionTask → Tx (Unit {0})
unfolding settle finish_task node_cancelled
cancel_task now key task =
    settle key task (finish_task ExecutionTaskStatus.cancelled now) (node_cancelled now)
      (some RunEventType.node_cancelled)

-- the first loop of `cancel_run_tasks`
unfoldable pub cancel_tasks : ℕ → ℕ → Tx (Unit {0})
unfolding cancel_task live_task
cancel_tasks run now db =
    for_each (at_task (live_task run) (cancel_task now)) (keys_where (live_task run) db.tasks) db

abbrev pub pending_node : ℕ → NodeRun → Bool
pending_node run n = n.workflow_run_id == run && NodeRun.is n.status NodeRunStatus.pending

unfoldable pub cancel_node : ℕ → ℕ → NodeRun → Tx (Unit {0})
unfolding move_node
cancel_node now key n = do
  n' ← lift (move_node NodeRunStatus.cancelled n)
  put_node_run key (record n' { finished_at = some now })

-- its second loop
unfoldable pub cancel_pending_nodes : ℕ → ℕ → Tx (Unit {0})
unfolding cancel_node
cancel_pending_nodes run now db =
    for_each (at_node_run (pending_node run) (cancel_node now))
      (keys_where (pending_node run) db.node_runs) db

unfoldable pub cancel_run_tasks : ℕ → ℕ → Tx (Unit {0})
unfolding cancel_tasks cancel_pending_nodes
cancel_run_tasks run now = do cancel_tasks run now; cancel_pending_nodes run now

unfoldable pub live_node : ℕ → NodeRun → Bool
live_node run n = n.workflow_run_id == run && not (is_node_run_terminal n.status)

abbrev pub or_now : Option ℕ → ℕ → Option ℕ
or_now none now = some now
or_now (some t) now = some t

unfoldable pub cancel_live_node : ℕ → ℕ → NodeRun → Tx (Unit {0})
unfolding move_node
cancel_live_node now key n = do
  n' ← lift (move_node NodeRunStatus.cancelled n)
  put_node_run key (record n' { finished_at = or_now n'.finished_at now })

-- the loop of `cancel_run`
unfoldable pub cancel_live_nodes : ℕ → ℕ → Tx (Unit {0})
unfolding cancel_live_node live_node
cancel_live_nodes run now db =
    for_each (at_node_run (live_node run) (cancel_live_node now))
      (keys_where (live_node run) db.node_runs) db

-- `transition_workflow_run` and the write of the status
unfoldable pub move_run : WorkflowRunStatus → WorkflowRun → Result WorkflowRun
unfolding transition_workflow_run
move_run target run =
    and_then (transition_workflow_run run.status target) λ _. ok (record run { status = target })

unfoldable pub cancel_found : ℕ → ℕ → Option WorkflowRun → Tx (Unit {0})
unfolding move_run cancel_live_nodes cancel_run_tasks is_workflow_run_terminal
cancel_found run now none = raise ErrorCode.workflow_run_not_found
cancel_found run now (some row) =
    if is_workflow_run_terminal row.status then raise ErrorCode.run_already_terminal else (do
      row' ← lift (move_run WorkflowRunStatus.cancelled row)
      put_run run (record row' { cancelled_at = some now; finished_at = some now })
      record_event run none RunEventType.workflow_cancelled
      cancel_live_nodes run now
      cancel_run_tasks run now)

-- The retries of `retry_mysql_transaction` start the transaction afresh after a rollback.
unfoldable pub cancel_run : ℕ → ℕ → Tx (Unit {0})
unfolding cancel_found
cancel_run run now db = cancel_found run now (get run db.runs) db
