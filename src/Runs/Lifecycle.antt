-- ===== src/Runs/Lifecycle.antt =====
-- `start_run`, `pause_run` and `resume_run` of backend/app/domain/runs/service.py. The view of the run
-- that they answer is left out.
use relayvia.Prelude.{ℕ, Option, none, some, List}
use relayvia.Errors.{ErrorCode}
use relayvia.Table.{get}
use relayvia.State.WorkflowRun.{WorkflowRunStatus}
use relayvia.Db.{WorkflowRun, RunEventType, Tx, raise, lift, put_run, record_event, ◌>>=◌, ◌>>◌}
use relayvia.Runs.Cancel.{move_run, or_now}
use relayvia.Runs.Commit.{Request, once, commit_then}
use relayvia.Scheduler.Dispatch.{Collaborators}
use relayvia.Scheduler.Submit.{schedule_ready_nodes}
use relayvia.Scheduler.Reconcile.{reconcile_run}

abbrev locked_run : Option WorkflowRun → (WorkflowRun → Tx (Unit {0})) → Tx (Unit {0})
locked_run none body = raise ErrorCode.workflow_run_not_found
locked_run (some run) body = body run

-- `_get_locked` before a change
abbrev pub with_run : ℕ → (WorkflowRun → Tx (Unit {0})) → Tx (Unit {0})
with_run run_id body db = locked_run (get run_id db.runs) body db

unfoldable pub start_transaction : ℕ → ℕ → Tx (Unit {0})
unfolding move_run
start_transaction now run_id = with_run run_id λ run. do
  run' ← lift (move_run WorkflowRunStatus.running run)
  put_run run_id (record run' { started_at = or_now run'.started_at now })
  record_event run_id none RunEventType.workflow_started

unfoldable pub pause_transaction : ℕ → ℕ → Tx (Unit {0})
unfolding move_run
pause_transaction now run_id = with_run run_id λ run. do
  run' ← lift (move_run WorkflowRunStatus.paused run)
  put_run run_id (record run' { paused_at = some now })

unfoldable pub resume_transaction : ℕ → Tx (Unit {0})
unfolding move_run
resume_transaction run_id = with_run run_id λ run. do
  run' ← lift (move_run WorkflowRunStatus.running run)
  put_run run_id (record run' { paused_at = none })

unfoldable pub pause_run : ℕ → ℕ → Request (Unit {0})
unfolding pause_transaction
pause_run now run_id = once (pause_transaction now run_id)

module _ (c : Collaborators) (task_key workspace_key : ℕ → ℕ) (now run_id : ℕ) where
  unfoldable pub start_run : Request (List ℕ)
  unfolding start_transaction schedule_ready_nodes
  start_run =
      commit_then (start_transaction now run_id)
        λ _. schedule_ready_nodes c task_key workspace_key now run_id

  -- The whole reconciliation follows, since a wait may have become due during the pause.
  unfoldable pub resume_run : Request (Option WorkflowRunStatus)
  unfolding resume_transaction reconcile_run
  resume_run =
      commit_then (resume_transaction run_id) λ _. reconcile_run c task_key workspace_key now run_id
