-- ===== src/Scheduler/Submit.antt =====
-- `schedule_ready_nodes` of backend/app/runtime/scheduler/workflow_scheduler.py. `task_key` and
-- `workspace_key` draw the keys of the new rows for a node run.
pub mod Limits
pub mod Marks
pub mod Sound
use relayvia.Prelude.{
  ℕ, String, Bool, true, false, not, ◌&&◌, Option, none, some, List, [], ◌∷◌, ◌++◌, ◌==◌,
  if◌then◌else◌,
}
use relayvia.Errors.{Result, ok, err}
use relayvia.Table.{Table, get, put, keys_where, no_keys, rows_where, put_all}
use relayvia.Json.{Json}
use relayvia.Graph.{WorkflowNode, WorkflowGraph}
use relayvia.Graph.Index.{node}
use relayvia.State.WorkflowRun.{WorkflowRunStatus}
use relayvia.State.WorkflowRun
use relayvia.State.NodeRun.{NodeRunStatus}
use relayvia.State.NodeRun
use relayvia.Db.{
  WorkflowRun, NodeRun, RunEvent, RunEventType, Db, Tx, pure, lift, continue, put_node_run,
  record_event, ◌>>=◌, ◌>>◌,
}
use relayvia.Queue.Effects.{move_node}
use relayvia.Queue.Upkeep.{new_task, insert_task}
use relayvia.Scheduler.Ready.{node_in, find_ready_nodes}
use relayvia.Scheduler.Skip.{mark_unreachable_condition_nodes}
use relayvia.Scheduler.Retry.{retry_settings_for_node}
use relayvia.Scheduler.Dispatch.{
  Collaborators, Executor, later, worker, runner, executor_for, attach_workspace,
}

-- `list_node_runs`
abbrev pub in_run : ℕ → NodeRun → Bool
in_run run_id n = n.workflow_run_id == run_id

-- the events of the node runs that were pending and are skipped
abbrev pub skip_events : ℕ → Table NodeRun → Table NodeRun → List RunEvent
skip_events run_id before [] = []
skip_events run_id before ((k, n) ∷ rows) =
    let rest = skip_events run_id before rows in
    if node_in NodeRunStatus.pending n.node_id before && NodeRun.is n.status NodeRunStatus.skipped
    then ((record {
      workflow_run_id = run_id;
      node_run_id = some k;
      event_type = RunEventType.node_skipped;
    })
        ∷ rest)
    else rest

-- The first row with this `node_id`, with its key.
abbrev pub row_of : ℕ → Table NodeRun → Option (ℕ × NodeRun)
row_of id [] = none
row_of id ((k, n) ∷ rows) = if n.node_id == id then some (k, n) else row_of id rows

module _ (c : Collaborators) (task_key workspace_key : ℕ → ℕ) (now run_id : ℕ)
    (run : WorkflowRun) where
  -- The node run is queued and gets its task.
  unfoldable pub enqueue :
      ℕ → NodeRun → WorkflowNode → Option String → Option ℕ → Option ℕ → Tx (List ℕ)
  unfolding move_node insert_task retry_settings_for_node
  enqueue key node_run n capability runner_id workspace =
      let (max_attempts, backoff) =
        retry_settings_for_node c.int_of_text run.execution_snapshot n c.default_backoff_seconds in
      (do
        n' ← lift (move_node NodeRunStatus.queued node_run)
        put_node_run key n'
        record_event run_id (some key) RunEventType.node_queued
        insert_task (task_key key) (
            new_task run_id key
              (record { node_id = n.id; retry_backoff_seconds = backoff; workspace = workspace })
              c.default_priority max_attempts now runner_id capability now)
        pure (n.id ∷ []))

  abbrev pub on_runner : ℕ → NodeRun → WorkflowNode → String → Option ℕ → Option Json → Tx (List ℕ)
  on_runner key node_run n capability runner_id none = pure []
  on_runner key node_run n capability runner_id (some input) =
      attach_workspace c (workspace_key key) run_id key runner_id n >>= λ workspace.
      enqueue key (record node_run { input = c.sanitize_output input }) n (some capability)
        runner_id workspace

  -- A node that is ready and whose node run has no task. The outputs that the resolver reads are not
  -- changed by the submission of other nodes.
  unfoldable pub submit_node : Table NodeRun → ℕ → NodeRun → WorkflowNode → Tx (List ℕ)
  unfolding enqueue
  submit_node rows key node_run n = elim (executor_for c run rows n) [
    | later ↦ pure []
    | worker ↦ enqueue key node_run n none none none
    | runner capability target ↦
        on_runner key node_run n capability target (c.resolve run rows n.input_mapping)
  ]

  abbrev pub submit_found : Table NodeRun → Option (ℕ × NodeRun) → Option WorkflowNode → Tx (List ℕ)
  submit_found rows none n db = ok ([], db)
  submit_found rows (some r) none db = ok ([], db)
  submit_found rows (some (key, node_run)) (some n) db =
      if no_keys (keys_where (λ t. t.node_run_id == key) db.tasks)
      then submit_node rows key node_run n db
      else ok ([], db)

  -- the loop over the ready nodes
  unfoldable pub submit_all : WorkflowGraph → Table NodeRun → List ℕ → Tx (List ℕ)
  unfolding submit_node
  submit_all g rows [] = pure []
  submit_all g rows (id ∷ ids) = submit_found rows (row_of id rows) (node g id) >>= λ submitted.
      submit_all g rows ids >>= λ more. pure (submitted ++ more)

  -- The rows that the skip loop changed are written, each with its event.
  unfoldable pub write_marks : Table NodeRun → Table NodeRun → Tx (Unit {0})
  write_marks before after db = ok (
    tt,
    record db {
      node_runs = put_all after db.node_runs;
      events = db.events ++ skip_events run_id before after;
    },
  )

  unfoldable pub schedule_rows : Table NodeRun → Tx (List ℕ)
  unfolding write_marks submit_all mark_unreachable_condition_nodes find_ready_nodes
  schedule_rows rows =
      let after = (mark_unreachable_condition_nodes run.graph_snapshot now rows).0 in
      write_marks rows after
      >> submit_all run.graph_snapshot after (find_ready_nodes run.graph_snapshot after)

module _ (c : Collaborators) (task_key workspace_key : ℕ → ℕ) (now run_id : ℕ) where
  abbrev pub schedule_found : Option WorkflowRun → Tx (List ℕ)
  schedule_found none db = ok ([], db)
  schedule_found (some run) db =
      if WorkflowRun.is run.status WorkflowRunStatus.running
      then schedule_rows c task_key workspace_key now run_id run
          (rows_where (in_run run_id) db.node_runs) db
      else ok ([], db)

  unfoldable pub schedule_ready_nodes : Tx (List ℕ)
  unfolding schedule_rows
  schedule_ready_nodes db = schedule_found (get run_id db.runs) db
