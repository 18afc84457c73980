-- ===== src/Tests/Rows.antt =====
-- A small database: one running run, a task that a worker holds, one that waits and one that is done.
use relayvia.Prelude.{ℕ, none, some, [], ◌∷◌, arith}
use relayvia.Table.{get}
use relayvia.Json.{empty_object}
use relayvia.Graph.{NodeKind, WorkflowNode, WorkflowEdge, WorkflowGraph}
use relayvia.State.WorkflowRun.{WorkflowRunStatus}
use relayvia.State.NodeRun.{NodeRunStatus}
use relayvia.State.ExecutionTask.{ExecutionTaskStatus}
use relayvia.Db.{ExecutionTask, NodeRun, WorkflowRun, Db}
use relayvia.Queue.Sound.{IsSound}

abbrev pub input_node : WorkflowNode
input_node = record {
  id = 1;
  kind = NodeKind.data_input;
  config = empty_object;
  input_mapping = empty_object;
}

abbrev pub agent_node : WorkflowNode
agent_node = record {
  id = 2;
  kind = NodeKind.agent;
  config = empty_object;
  input_mapping = empty_object;
}

abbrev pub output_node : WorkflowNode
output_node = record {
  id = 3;
  kind = NodeKind.data_output;
  config = empty_object;
  input_mapping = empty_object;
}

abbrev pub edge : ℕ → ℕ → ℕ → WorkflowEdge
edge id source target = record { id = id; source = source; target = target; source_handle = none }

abbrev pub chain : WorkflowGraph
chain = record {
  nodes = input_node ∷ agent_node ∷ output_node ∷ [];
  edges = edge 1 1 2 ∷ edge 2 2 3 ∷ [];
}

abbrev pub run_row : WorkflowRunStatus → WorkflowRun
run_row status = record {
  workflow_id = 1;
  status = status;
  graph_snapshot = chain;
  execution_snapshot = empty_object;
  input = empty_object;
  variables = empty_object;
  waiting_reason = none;
  started_at = some 1;
  finished_at = none;
  paused_at = none;
  cancelled_at = none;
}

abbrev pub node_row : ℕ → NodeKind → NodeRunStatus → NodeRun
node_row node_id kind status = record {
  workflow_run_id = 1;
  node_id = node_id;
  kind = kind;
  status = status;
  input = empty_object;
  output = none;
  error = none;
  execution_metadata = empty_object;
  artifact_refs = [];
  attempt = 0;
  waiting_reason = none;
  waiting_metadata = empty_object;
  started_at = none;
  finished_at = none;
}

abbrev pub task_row : ℕ → ℕ → ExecutionTaskStatus → ExecutionTask
task_row node_run_id attempt status = record {
  workflow_run_id = 1;
  node_run_id = node_run_id;
  status = status;
  payload = record { node_id = 2; retry_backoff_seconds = 5; workspace = none };
  priority = 0;
  attempt = attempt;
  max_attempts = 3;
  available_at = 10;
  locked_by = none;
  lease_token = none;
  locked_at = none;
  lease_expires_at = none;
  runner_id = none;
  required_capability = none;
  last_error = none;
  created_at = 5;
  started_at = none;
  finished_at = none;
}

-- held by the worker 7 under the token 70 until the time 1000
abbrev pub held_task : ExecutionTask
held_task = record (task_row 11 1 ExecutionTaskStatus.running) {
  locked_by = some 7;
  lease_token = some 70;
  locked_at = some 40;
  lease_expires_at = some 1000;
}

abbrev pub waiting_task : ExecutionTask
waiting_task = task_row 12 0 ExecutionTaskStatus.pending

abbrev pub done_task : ExecutionTask
done_task = task_row 13 1 ExecutionTaskStatus.completed

abbrev pub small : Db
small = record {
  runs = (1, run_row WorkflowRunStatus.running) ∷ [];
  node_runs =
      (11, node_row 2 NodeKind.agent NodeRunStatus.running)
      ∷ (12, node_row 4 NodeKind.agent NodeRunStatus.queued)
      ∷ (13, node_row 5 NodeKind.agent NodeRunStatus.completed)
      ∷ [];
  tasks = (101, held_task) ∷ (102, waiting_task) ∷ (103, done_task) ∷ [];
  workspaces = [];
  events = [];
}

pub small-IsSound : IsSound small
unfolding get
small-IsSound = record {
  paired = λ i t h. ground arith;
  leased = λ i t h. ground arith;
  single = λ i j t u hi hj e. ground arith;
}
