-- ===== src/State/Terminal.antt =====
-- Terminal statuses of the three machines, and cancellation.
use relayvia.Prelude.{◌≡◌, true, false, not, arith}
use relayvia.Errors.{is_ok}
use relayvia.State.WorkflowRun.{
  WorkflowRunStatus, is_workflow_run_terminal, transition_workflow_run,
}
use relayvia.State.NodeRun.{NodeRunStatus, is_node_run_terminal, transition_node_run}
use relayvia.State.ExecutionTask.{
  ExecutionTaskStatus, is_execution_task_terminal, transition_execution_task,
}

-- In each of the three machines a status may be cancelled exactly if it is not terminal, and a terminal
-- status has no transition at all.
pub cancel_iff_live :
    (w w' : WorkflowRunStatus) (n n' : NodeRunStatus) (t t' : ExecutionTaskStatus)
    → (is_ok (transition_workflow_run w WorkflowRunStatus.cancelled)
        ≡ not (is_workflow_run_terminal w))
      × (is_ok (transition_node_run n NodeRunStatus.cancelled) ≡ not (is_node_run_terminal n))
      × (is_ok (transition_execution_task t ExecutionTaskStatus.cancelled)
          ≡ not (is_execution_task_terminal t))
      × (is_workflow_run_terminal w ≡ true → is_ok (transition_workflow_run w w') ≡ false)
      × (is_node_run_terminal n ≡ true → is_ok (transition_node_run n n') ≡ false)
      × (is_execution_task_terminal t ≡ true → is_ok (transition_execution_task t t') ≡ false)
unfolding is_workflow_run_terminal transition_workflow_run is_node_run_terminal transition_node_run
    is_execution_task_terminal transition_execution_task
cancel_iff_live w w' n n' t t' = (
  ground arith,
  ground arith,
  ground arith,
  λ h. ground arith,
  λ h. ground arith,
  λ h. ground arith,
)
