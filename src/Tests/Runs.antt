-- ===== src/Tests/Runs.antt =====
-- The cancellation of the run of the small database.
use relayvia.Prelude.{ℕ, refl, ◌≡◌, [], some, true}
use relayvia.Errors.{is_ok, ok, err}
use relayvia.Table.{get, put, keys_where}
use relayvia.Table.Final.{Keeps, Avoids}
use relayvia.State.WorkflowRun.{
  WorkflowRunStatus, is_workflow_run_terminal, transition_workflow_run,
}
use relayvia.State.NodeRun.{is_node_run_terminal, transition_node_run}
use relayvia.State.ExecutionTask.{
  ExecutionTaskStatus, is_execution_task_terminal, transition_execution_task,
}
use relayvia.Db.{Db, ExecutionTask, for_each}
use relayvia.Queue.Effects.{settle, finish_task, node_cancelled, move_node, move_task, update_node}
use relayvia.Runners.Tasks.{holds_task, seen_now, runner_task_heartbeat}
use relayvia.Runners.Tasks.Signal.{cancel_run_stops_runners}
use relayvia.Db.Keeps.{Returns}
use relayvia.Runs.Cancel.{
  cancel_run, cancel_found, move_run, cancel_live_nodes, cancel_live_node, live_node,
  cancel_run_tasks, cancel_tasks, cancel_task, live_task, cancel_pending_nodes, cancel_node,
}
use relayvia.Runs.Cancel.Moves.{task_final, node_final}
use relayvia.Runs.Cancel.Ends.{cancelled_run, cancel_run_ends, cancel_run_iff_live, is_live_run}
use relayvia.Tests.Rows.{small, run_row, held_task}

cancel_run_ends_example :
    Returns
      (λ d.
        (d.runs ≡ put 1 (cancelled_run 1 90 (run_row WorkflowRunStatus.running)) small.runs)
        × ((j : ℕ) → Avoids (live_task 1) j d.tasks)
        × ((j : ℕ) → Avoids (live_node 1) j d.node_runs)
        × Keeps task_final small.tasks d.tasks
        × Keeps node_final small.node_runs d.node_runs)
      (cancel_run 1 90 small)
cancel_run_ends_example =
    cancel_run_ends 1 90 small (run_row WorkflowRunStatus.running) (unfold get in refl)
      (unfold is_workflow_run_terminal in refl)

cancel_run_iff_live_example : is_ok (cancel_run 1 90 small) ≡ is_live_run (get 1 small.runs)
cancel_run_iff_live_example = cancel_run_iff_live 1 90 small

abbrev after_cancel : Db
after_cancel = elim (cancel_run 1 90 small) [ ok (u, d) ↦ d | err e ↦ small ]

cancel_made : cancel_run 1 90 small ≡ ok (tt, after_cancel)
unfolding cancel_run cancel_found move_run cancel_live_nodes cancel_live_node live_node
    cancel_run_tasks cancel_tasks cancel_task live_task cancel_pending_nodes cancel_node settle
    finish_task node_cancelled move_node move_task update_node transition_workflow_run
    transition_node_run transition_execution_task is_workflow_run_terminal is_node_run_terminal
    is_execution_task_terminal for_each keys_where get put
cancel_made = refl

abbrev stopped_task : ExecutionTask
stopped_task = record held_task { status = ExecutionTaskStatus.cancelled; finished_at = some 90 }

-- the worker 7 still holds the task under its token
task_stopped : get 101 after_cancel.tasks ≡ some stopped_task
unfolding cancel_run cancel_found move_run cancel_live_nodes cancel_live_node live_node
    cancel_run_tasks cancel_tasks cancel_task live_task cancel_pending_nodes cancel_node settle
    finish_task node_cancelled move_node move_task update_node transition_workflow_run
    transition_node_run transition_execution_task is_workflow_run_terminal is_node_run_terminal
    is_execution_task_terminal for_each keys_where get put
task_stopped = refl

cancel_run_stops_runners_example :
    runner_task_heartbeat [] 7 101 70 60 95 after_cancel
    ≡ ok ((true, seen_now 7 95 []), after_cancel)
cancel_run_stops_runners_example =
    cancel_run_stops_runners 1 90 small after_cancel cancel_made [] 7 101 70 60 95 stopped_task
      task_stopped refl (unfold holds_task in refl)
