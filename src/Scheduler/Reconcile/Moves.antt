-- ===== src/Scheduler/Reconcile/Moves.antt =====
-- Which derived statuses a reconciliation can write.
use relayvia.Prelude.{Bool, true, not, ◌&&◌, ◌||◌, any, all, ◌≡◌, ap, ◌∙◌, arith}
use relayvia.Errors.{is_ok}
use relayvia.Table.{Table}
use relayvia.Graph.{WorkflowGraph}
use relayvia.State.WorkflowRun.{WorkflowRunStatus, transition_workflow_run}
use relayvia.State.WorkflowRun
use relayvia.State.NodeRun.{NodeRunStatus, is_node_run_terminal}
use relayvia.State.NodeRun
use relayvia.Db.{WorkflowRun, NodeRun}
use relayvia.Runs.Cancel.{move_run}
use relayvia.Scheduler.Ready.{non_empty}
use relayvia.Scheduler.Derive.{statuses, derive_workflow_state}

-- Every node run is terminal, and none has failed.
abbrev pub all_done : Table NodeRun → Bool
all_done rows =
    not (any (λ s. NodeRun.is s NodeRunStatus.failed) (statuses rows))
    && (non_empty (statuses rows) && all is_node_run_terminal (statuses rows))

derived-completed :
    (g : WorkflowGraph) (rows : Table NodeRun)
    → WorkflowRun.is (derive_workflow_state g rows) WorkflowRunStatus.completed ≡ all_done rows
unfolding derive_workflow_state
derived-completed g rows = ground arith

moves :
    (run : WorkflowRun) (d : WorkflowRunStatus)
    → (WorkflowRun.is run.status WorkflowRunStatus.running
        || WorkflowRun.is run.status WorkflowRunStatus.waiting)
      ≡ true
    → (WorkflowRun.is d WorkflowRunStatus.running
        || (WorkflowRun.is d WorkflowRunStatus.waiting
            || (WorkflowRun.is d WorkflowRunStatus.failed
                || WorkflowRun.is d WorkflowRunStatus.completed)))
      ≡ true
    → (WorkflowRun.is d run.status || is_ok (move_run d run))
      ≡ not (
          WorkflowRun.is run.status WorkflowRunStatus.waiting
          && WorkflowRun.is d WorkflowRunStatus.completed)
unfolding move_run transition_workflow_run
moves run d live derived = ground arith

derived-range :
    (g : WorkflowGraph) (rows : Table NodeRun)
    → (WorkflowRun.is (derive_workflow_state g rows) WorkflowRunStatus.running
        || (WorkflowRun.is (derive_workflow_state g rows) WorkflowRunStatus.waiting
            || (WorkflowRun.is (derive_workflow_state g rows) WorkflowRunStatus.failed
                || WorkflowRun.is (derive_workflow_state g rows) WorkflowRunStatus.completed)))
      ≡ true
unfolding derive_workflow_state
derived-range g rows = ground arith

-- For a run that is running or waiting, the reconciliation finds the derived status there already, or is
-- allowed to move the run to it, except in one case: the run is waiting, and its node runs are all
-- terminal with none failed.
pub derived_move_allowed :
    (run : WorkflowRun) (rows : Table NodeRun)
    → (WorkflowRun.is run.status WorkflowRunStatus.running
        || WorkflowRun.is run.status WorkflowRunStatus.waiting)
      ≡ true
    → (WorkflowRun.is (derive_workflow_state run.graph_snapshot rows) run.status
        || is_ok (move_run (derive_workflow_state run.graph_snapshot rows) run))
      ≡ not (WorkflowRun.is run.status WorkflowRunStatus.waiting && all_done rows)
derived_move_allowed run rows live =
    moves run (derive_workflow_state run.graph_snapshot rows) live
      (derived-range run.graph_snapshot rows)
    ∙ ap (λ b. not (WorkflowRun.is run.status WorkflowRunStatus.waiting && b))
        (derived-completed run.graph_snapshot rows)
