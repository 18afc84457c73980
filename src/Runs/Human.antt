-- ===== src/Runs/Human.antt =====
-- `approve_node_run`, `reject_node_run` and `submit_node_run` of backend/app/domain/runs/service.py.
-- `schema_valid` and `conforms` are `Draft7Validator.check_schema` and `iter_errors` of the library
-- jsonschema: the schema is valid, and a value has no error under it.
pub mod Approval
pub mod Changes
pub mod Decisions
use relayvia.Prelude.{
  ℕ, String, Bool, true, false, not, ◌&&◌, ◌||◌, Option, none, some, List, [], ◌∷◌, ◌==◌,
  if◌then◌else◌,
}
use relayvia.Errors.{ErrorCode, Result, ok, err, and_then, require}
use relayvia.Table.{get}
use relayvia.Json.{Json, Fields, get_field}
use relayvia.Graph.{NodeKind, WorkflowNode}
use relayvia.State.WorkflowRun.{WorkflowRunStatus}
use relayvia.State.WorkflowRun
use relayvia.State.NodeRun.{NodeRunStatus}
use relayvia.State.NodeRun
use relayvia.Db.{
  WorkflowRun, NodeRun, WaitingReason, RunEventType, Db, Tx, pure, raise, lift, put_node_run,
  record_event, ◌>>=◌, ◌>>◌,
}
use relayvia.Queue.Effects.{move_node}
use relayvia.Runs.Commit.{Request, commit_then}
use relayvia.Scheduler.Dispatch.{Collaborators, truthy}
use relayvia.Scheduler.Reconcile.{reconcile_run}

-- `next((item for item in graph.nodes if item.id == node_id), None)`
abbrev pub first_node : ℕ → List WorkflowNode → Option WorkflowNode
first_node id [] = none
first_node id (n ∷ nodes) = if n.id == id then some n else first_node id nodes

-- The two actions' pairs of subtype and reason.
abbrev pub is_approval : NodeRun → Bool
is_approval n = elim n.kind [
  | NodeKind.human_approval ↦ elim n.waiting_reason [
    | some WaitingReason.human_approval ↦ true
    | _ ↦ false
  ]
  | _ ↦ false
]

abbrev pub is_input : NodeRun → Bool
is_input n = elim n.kind [
  | NodeKind.human_input ↦ elim n.waiting_reason [
    | some WaitingReason.human_input ↦ true
    | _ ↦ false
  ]
  | _ ↦ false
]

abbrev found_node : Option WorkflowNode → Result WorkflowNode
found_node none = err ErrorCode.node_snapshot_missing
found_node (some n) = ok n

abbrev pub actionable : WorkflowRun → Bool
actionable run =
    WorkflowRun.is run.status WorkflowRunStatus.running
    || WorkflowRun.is run.status WorkflowRunStatus.waiting

-- `_require_waiting`
unfoldable pub require_waiting : NodeRun → Result (Unit {0})
require_waiting n =
    require (NodeRun.is n.status NodeRunStatus.waiting) ErrorCode.node_run_not_waiting

-- `_waiting_node`
unfoldable pub waiting_node : (NodeRun → Bool) → WorkflowRun → NodeRun → Result WorkflowNode
waiting_node action run n =
    and_then (require (actionable run) ErrorCode.workflow_run_not_actionable) λ _.
      and_then (require (action n) ErrorCode.node_run_action_not_allowed)
        λ _. found_node (first_node n.node_id run.graph_snapshot.nodes)

abbrev pub object_of : String → Json → Json
object_of key value = Json.obj (Fields.field key value Fields.end)

unfoldable pub approved : ℕ → WorkflowRun → NodeRun → Result NodeRun
unfolding require_waiting waiting_node move_node
approved now run n = and_then (require_waiting n) λ _.
    and_then (waiting_node is_approval run n) λ _.
      and_then (move_node NodeRunStatus.completed n) λ n'. ok (record n' {
        output = some (object_of "approved" (Json.bool true));
        finished_at = some now;
      })

-- `node.config.get("allow_reject", True)`
abbrev pub allows_reject : Option Json → Bool
allows_reject none = true
allows_reject (some value) = truthy value

abbrev pub rejection : Json
rejection = Json.obj (
    Fields.field "code" (Json.str "REJECTED") (
      Fields.field "message" (Json.str "Approval was rejected") (
        Fields.field "retryable" (Json.bool false)
          (Fields.field "details" (Json.obj Fields.end) Fields.end))))

unfoldable pub rejected : ℕ → WorkflowRun → NodeRun → Result NodeRun
unfolding require_waiting waiting_node move_node
rejected now run n = and_then (require_waiting n) λ _.
    and_then (waiting_node is_approval run n) λ node.
      and_then
        (require (allows_reject (get_field "allow_reject" node.config))
          ErrorCode.human_rejection_disabled)
        λ _.
          and_then (move_node NodeRunStatus.failed n)
            λ n'. ok (record n' { error = some rejection; finished_at = some now })

module _ (schema_valid : Json → Bool) (conforms : Json → Json → Bool) where
  -- `isinstance(schema, dict) and schema`, and what follows
  abbrev pub checked : Option Json → Json → Result (Unit {0})
  checked (some (Json.obj (Fields.field key value fields))) input =
      let schema = Json.obj (Fields.field key value fields) in
      and_then (require (schema_valid schema) ErrorCode.invalid_human_input_schema)
        λ _. require (conforms schema input) ErrorCode.invalid_human_input
  checked _ input = ok tt

  unfoldable pub submitted : Json → ℕ → WorkflowRun → NodeRun → Result NodeRun
  unfolding require_waiting waiting_node move_node
  submitted input now run n = and_then (require_waiting n) λ _.
      and_then (waiting_node is_input run n) λ node.
        and_then (checked (get_field "form_schema" node.config) input) λ _.
          and_then (move_node NodeRunStatus.completed n)
            λ n'. ok (record n' { output = some input; finished_at = some now })

-- `_lock_node_run`, the change and the two events: the first transaction of the three requests, which
-- answers the run of the node run.
abbrev pub on_run :
    ℕ
    → (WorkflowRun → NodeRun → Result NodeRun)
    → RunEventType
    → NodeRun
    → Option WorkflowRun
    → Tx ℕ
on_run key change event n none = raise ErrorCode.workflow_run_not_found
on_run key change event n (some run) = do
  n' ← lift (change run n)
  put_node_run key n'
  record_event n.workflow_run_id (some key) RunEventType.node_resumed
  record_event n.workflow_run_id (some key) event
  pure n.workflow_run_id

abbrev on_node : ℕ → (WorkflowRun → NodeRun → Result NodeRun) → RunEventType → Option NodeRun → Tx ℕ
on_node key change event none db = err ErrorCode.node_run_not_found
on_node key change event (some n) db = on_run key change event n (get n.workflow_run_id db.runs) db

unfoldable pub decide : ℕ → (WorkflowRun → NodeRun → Result NodeRun) → RunEventType → Tx ℕ
decide key change event db = on_node key change event (get key db.node_runs) db

module _ (c : Collaborators) (task_key workspace_key : ℕ → ℕ) (now key : ℕ) where
  unfoldable pub approve_node_run : Request (Option WorkflowRunStatus)
  unfolding decide approved reconcile_run
  approve_node_run =
      commit_then (decide key (approved now) RunEventType.node_completed)
        (reconcile_run c task_key workspace_key now)

  unfoldable pub reject_node_run : Request (Option WorkflowRunStatus)
  unfolding decide rejected reconcile_run
  reject_node_run =
      commit_then (decide key (rejected now) RunEventType.node_failed)
        (reconcile_run c task_key workspace_key now)

  unfoldable pub submit_node_run :
      (Json → Bool) → (Json → Json → Bool) → Json → Request (Option WorkflowRunStatus)
  unfolding decide submitted reconcile_run
  submit_node_run schema_valid conforms input =
      commit_then
        (decide key (submitted schema_valid conforms input now) RunEventType.node_completed)
        (reconcile_run c task_key workspace_key now)
