-- ===== src/Runners/Tasks/Signal.antt =====
-- The cancellation of a run reaches the Runners that execute its tasks.
use relayvia.Prelude.{ℕ, true, false, none, some, ◌≡◌, refl, sym, ap, ◌∙◌, Option, arith}
use relayvia.Errors.{ok, is_ok}
use relayvia.Table.{Table, get}
use relayvia.State.WorkflowRun.{is_workflow_run_terminal}
use relayvia.State.ExecutionTask.{is_execution_task_terminal}
use relayvia.Db.{ExecutionTask, WorkflowRun, Db}
use relayvia.Runs.Cancel.{cancel_run, live_task}
use relayvia.Runs.Cancel.Ends.{cancel_run_ends, cancel_run_iff_live, is_live_run}
use relayvia.Runners.Registry.{Runner}
use relayvia.Runners.Tasks.{holds_task, must_stop, heartbeat_row, seen_now, runner_task_heartbeat}

stopped :
    (run : ℕ) (task : ExecutionTask) (db : Db)
    → task.workflow_run_id ≡ run
    → live_task run task ≡ false
    → must_stop task db ≡ true
unfolding must_stop live_task is_execution_task_terminal
stopped run task db of_run done = ground arith

told_to_stop :
    (registry : Table Runner) (runner_id id token seconds later : ℕ) (task : ExecutionTask)
    (db : Db)
    → get id db.tasks ≡ some task
    → holds_task runner_id token task ≡ true
    → must_stop task db ≡ true
    → runner_task_heartbeat registry runner_id id token seconds later db
      ≡ ok ((true, seen_now runner_id later registry), db)
unfolding runner_task_heartbeat heartbeat_row
told_to_stop registry runner_id id token seconds later task db at held stop =
    rw (at, held, stop) refl

live_row :
    (o : Option WorkflowRun)
    → is_live_run o ≡ true
    → (row : WorkflowRun) × (o ≡ some row) × (is_workflow_run_terminal row.status ≡ false)
live_row none h = absurd (cc h)
live_row (some row) h = (row, refl, ground arith)

-- After the cancellation of a run has committed, the heartbeat of every Runner for a task of the run that
-- it holds answers that it must stop, and renews no lease.
pub cancel_run_stops_runners :
    (run now : ℕ) (db after : Db)
    → cancel_run run now db ≡ ok (tt, after)
    → (registry : Table Runner) (runner_id id token seconds later : ℕ) (task : ExecutionTask)
    → get id after.tasks ≡ some task
    → task.workflow_run_id ≡ run
    → holds_task runner_id token task ≡ true
    → runner_task_heartbeat registry runner_id id token seconds later after
      ≡ ok ((true, seen_now runner_id later registry), after)
cancel_run_stops_runners run now db after done registry runner_id id token seconds later task here
      of_run held =
    let (row, at, live) =
      live_row (get run db.runs) (sym (cancel_run_iff_live run now db) ∙ ap is_ok done) in
    let (_, tasks, _, _, _) = rw done at (cancel_run_ends run now db row at live) in
    told_to_stop registry runner_id id token seconds later task after here held
      (stopped run task after of_run (tasks id task here))
