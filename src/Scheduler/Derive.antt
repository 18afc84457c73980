-- ===== src/Scheduler/Derive.antt =====
-- `derive_workflow_state`.
use relayvia.Prelude.{Bool, ◌&&◌, List, [], ◌∷◌, any, all, if◌then◌else◌}
use relayvia.Table.{Table}
use relayvia.Graph.{WorkflowGraph}
use relayvia.State.WorkflowRun.{WorkflowRunStatus}
use relayvia.State.NodeRun.{NodeRunStatus, is_node_run_terminal}
use relayvia.State.NodeRun
use relayvia.Db.{NodeRun}
use relayvia.Scheduler.Ready.{find_ready_nodes, non_empty}

abbrev pub statuses : Table NodeRun → List NodeRunStatus
statuses [] = []
statuses ((k, r) ∷ rows) = r.status ∷ statuses rows

-- the set `active`
abbrev pub in_flight : NodeRunStatus → Bool
in_flight s =
    NodeRun.member s (NodeRunStatus.queued ∷ NodeRunStatus.running ∷ NodeRunStatus.retrying ∷ [])

unfoldable pub derive_workflow_state : WorkflowGraph → Table NodeRun → WorkflowRunStatus
derive_workflow_state g rows =
    let ss = statuses rows in
    if any (λ s. NodeRun.is s NodeRunStatus.failed) ss
    then WorkflowRunStatus.failed
    else if non_empty ss && all is_node_run_terminal ss
    then WorkflowRunStatus.completed
    else if any (λ s. NodeRun.is s NodeRunStatus.waiting) ss
    then (if any in_flight ss
        then WorkflowRunStatus.running
        else if non_empty (find_ready_nodes g rows)
        then WorkflowRunStatus.running
        else WorkflowRunStatus.waiting)
    else WorkflowRunStatus.running
