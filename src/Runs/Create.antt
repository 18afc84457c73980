-- ===== src/Runs/Create.antt =====
-- `_create_node_runs` of backend/app/domain/runs/service.py. The key that a new row gets comes from
-- `key`; the columns with a default of the table have it.
pub mod Start
pub mod Valid
use relayvia.Prelude.{ℕ, Bool, true, false, Option, none, some, List, [], ◌∷◌, if◌then◌else◌}
use relayvia.Table.{Table}
use relayvia.Json.{Json, empty_object}
use relayvia.Graph.{WorkflowNode, WorkflowGraph, is_data_input}
use relayvia.State.NodeRun.{NodeRunStatus}
use relayvia.Db.{NodeRun}

abbrev pub new_node_run : ℕ → WorkflowNode → Json → NodeRun
new_node_run run_id n input =
    let is_input = is_data_input n.kind in
    record {
      workflow_run_id = run_id;
      node_id = n.id;
      kind = n.kind;
      status = if is_input then NodeRunStatus.completed else NodeRunStatus.pending;
      input = empty_object;
      output = if is_input then some input else none;
      error = none;
      execution_metadata = empty_object;
      artifact_refs = [];
      attempt = 0;
      waiting_reason = none;
      waiting_metadata = empty_object;
      started_at = none;
      finished_at = none;
    }

unfoldable pub node_runs_of : (ℕ → ℕ) → ℕ → List WorkflowNode → Json → Table NodeRun
node_runs_of key run_id [] input = []
node_runs_of key run_id (n ∷ nodes) input =
    (key n.id, new_node_run run_id n input) ∷ node_runs_of key run_id nodes input

unfoldable pub create_node_runs : (ℕ → ℕ) → ℕ → WorkflowGraph → Json → Table NodeRun
unfolding node_runs_of
create_node_runs key run_id g input = node_runs_of key run_id g.nodes input
