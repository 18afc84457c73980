-- ===== src/Tests/States.antt =====
-- The status machines at concrete statuses.
use relayvia.Prelude.{◌≡◌, refl, true, false, not, List, [], ◌∷◌}
use relayvia.Errors.{is_ok}
use relayvia.State.WorkflowRun.{
  WorkflowRunStatus, is_workflow_run_terminal, transition_workflow_run,
}
use relayvia.State.NodeRun.{NodeRunStatus, member, is_node_run_terminal, transition_node_run}
use relayvia.State.ExecutionTask.{
  ExecutionTaskStatus, is_execution_task_terminal, transition_execution_task,
}
use relayvia.State.Terminal.{cancel_iff_live}
use relayvia.State.Life.{walk, results_need_running}

cancel_iff_live_example :
    (is_ok (transition_workflow_run WorkflowRunStatus.paused WorkflowRunStatus.cancelled)
      ≡ not (is_workflow_run_terminal WorkflowRunStatus.paused))
    × (is_ok (transition_node_run NodeRunStatus.skipped NodeRunStatus.cancelled)
        ≡ not (is_node_run_terminal NodeRunStatus.skipped))
    × (is_ok (transition_execution_task ExecutionTaskStatus.claimed ExecutionTaskStatus.cancelled)
        ≡ not (is_execution_task_terminal ExecutionTaskStatus.claimed))
    × (is_workflow_run_terminal WorkflowRunStatus.paused ≡ true
        → is_ok (transition_workflow_run WorkflowRunStatus.paused WorkflowRunStatus.running)
          ≡ false)
    × (is_node_run_terminal NodeRunStatus.skipped ≡ true
        → is_ok (transition_node_run NodeRunStatus.skipped NodeRunStatus.queued) ≡ false)
    × (is_execution_task_terminal ExecutionTaskStatus.claimed ≡ true
        → is_ok (transition_execution_task ExecutionTaskStatus.claimed ExecutionTaskStatus.failed)
          ≡ false)
cancel_iff_live_example =
    cancel_iff_live WorkflowRunStatus.paused WorkflowRunStatus.running NodeRunStatus.skipped
      NodeRunStatus.queued ExecutionTaskStatus.claimed ExecutionTaskStatus.failed

abbrev retried_path : List NodeRunStatus
retried_path =
    NodeRunStatus.queued ∷ NodeRunStatus.running ∷ NodeRunStatus.retrying ∷ NodeRunStatus.queued
    ∷ NodeRunStatus.running ∷ NodeRunStatus.waiting ∷ NodeRunStatus.completed ∷ []

results_need_running_example : member NodeRunStatus.running retried_path ≡ true
results_need_running_example =
    results_need_running retried_path NodeRunStatus.completed
      (unfold walk transition_node_run in refl) refl
