-- ===== src/Db.antt =====
-- The database rows of the runtime (backend/app/domain/execution/models.py,
-- backend/app/domain/runs/models.py, backend/app/domain/runs/events.py) and the transactions over
-- them. A time, like a duration, is a number of seconds. An identifier, a worker's name and a lease token are
-- opaque and compared for equality only, so they are numbers.
pub mod Keeps
use relayvia.Prelude.{ℕ, ◌+◌, String, Bool, Option, none, some, List, [], ◌∷◌, ◌++◌}
use relayvia.Errors.{ErrorCode, Result, ok, err}
use relayvia.Table.{Table, get, put}
use relayvia.Json.{Json}
use relayvia.Graph.{NodeKind, WorkflowGraph}
use relayvia.State.WorkflowRun.{WorkflowRunStatus}
use relayvia.State.NodeRun.{NodeRunStatus}
use relayvia.State.ExecutionTask.{ExecutionTaskStatus}

-- `payload_json` of a task, by the keys that the runtime reads
pub record Payload : Type 0 where
  pub node_id : ℕ
  pub retry_backoff_seconds : ℕ
  -- the key of the row under `workspace`
  pub workspace : Option ℕ

pub record ExecutionTask : Type 0 where
  pub workflow_run_id : ℕ
  pub node_run_id : ℕ
  pub status : ExecutionTaskStatus
  pub payload : Payload
  pub priority : ℕ
  pub attempt : ℕ
  pub max_attempts : ℕ
  pub available_at : ℕ
  pub locked_by : Option ℕ
  pub lease_token : Option ℕ
  pub locked_at : Option ℕ
  pub lease_expires_at : Option ℕ
  pub runner_id : Option ℕ
  pub required_capability : Option String
  pub last_error : Option Json
  pub created_at : ℕ
  pub started_at : Option ℕ
  pub finished_at : Option ℕ

pub data WaitingReason : Type 0 where
  human_approval human_input wait_timer : WaitingReason

pub record NodeRun : Type 0 where
  pub workflow_run_id : ℕ
  pub node_id : ℕ
  pub kind : NodeKind
  pub status : NodeRunStatus
  pub input : Json
  pub output : Option Json
  pub error : Option Json
  pub execution_metadata : Json
  pub artifact_refs : List Json
  pub attempt : ℕ
  pub waiting_reason : Option WaitingReason
  pub waiting_metadata : Json
  pub started_at : Option ℕ
  pub finished_at : Option ℕ

pub record WorkflowRun : Type 0 where
  pub workflow_id : ℕ
  pub status : WorkflowRunStatus
  pub graph_snapshot : WorkflowGraph
  pub execution_snapshot : Json
  pub input : Json
  pub variables : Json
  pub waiting_reason : Option WaitingReason
  pub started_at : Option ℕ
  pub finished_at : Option ℕ
  pub paused_at : Option ℕ
  pub cancelled_at : Option ℕ

pub data RunEventType : Type 0 where
  workflow_started workflow_waiting workflow_resumed : RunEventType
  node_log workflow_completed workflow_failed workflow_cancelled : RunEventType
  node_queued node_started node_retrying node_waiting node_resumed : RunEventType
  node_completed node_failed node_skipped node_cancelled condition_evaluated branch_selected :
      RunEventType

-- The message and the payload of an event are left out.
pub record RunEvent : Type 0 where
  pub workflow_run_id : ℕ
  pub node_run_id : Option ℕ
  pub event_type : RunEventType

pub data WorkspaceStatus : Type 0 where
  creating ready in_use failed releasing cleaning cleanup_failed released : WorkspaceStatus

-- backend/app/domain/workspaces/models.py. The name and the branch, texts formed from identifiers, are
-- left out, and so is the foreign key to the Runners.
pub record Workspace : Type 0 where
  pub workflow_run_id : ℕ
  pub node_run_id : ℕ
  pub runner_id : Option ℕ
  pub repository : String
  pub path : Option String
  pub base_branch : Option Json
  pub workspace_type : String
  pub status : WorkspaceStatus

pub record Db : Type 0 where
  pub runs : Table WorkflowRun
  pub node_runs : Table NodeRun
  pub tasks : Table ExecutionTask
  pub workspaces : Table Workspace
  pub events : List RunEvent

-- A transaction: an error rolls back every write that it made.
abbrev pub Tx : Type 0 → Type 0
Tx A = Db → Result (A × Db)

abbrev pub pure : {A : Type 0} → A → Tx A
pure a db = ok (a, db)

abbrev pub raise : {A : Type 0} → ErrorCode → Tx A
raise e db = err e

abbrev pub lift : {A : Type 0} → Result A → Tx A
lift (ok a) db = ok (a, db)
lift (err e) db = err e

abbrev pub continue : {A B : Type 0} → Result (A × Db) → (A → Tx B) → Result (B × Db)
continue (ok (a, db)) f = f a db
continue (err e) f = err e

infixl 5 ◌>>=◌ ◌>>◌
abbrev pub ◌>>=◌ : {A B : Type 0} → Tx A → (A → Tx B) → Tx B
◌>>=◌ m f db = continue (m db) f

abbrev pub ◌>>◌ : {B : Type 0} → Tx (Unit {0}) → Tx B → Tx B
m >> k = m >>= λ _. k

-- The state that stands after a transaction was tried: its commit, or nothing on an error.
abbrev pub committed : {A : Type 0} → Result (A × Db) → Db → Db
committed (ok (a, db')) db = db'
committed (err e) db = db

abbrev pub put_run : ℕ → WorkflowRun → Tx (Unit {0})
put_run k run db = ok (tt, record db { runs = put k run db.runs })

abbrev pub put_task : ℕ → ExecutionTask → Tx (Unit {0})
put_task k task db = ok (tt, record db { tasks = put k task db.tasks })

abbrev pub put_node_run : ℕ → NodeRun → Tx (Unit {0})
put_node_run k node_run db = ok (tt, record db { node_runs = put k node_run db.node_runs })

-- `record_event`: the event joins the caller's transaction.
abbrev pub record_event : ℕ → Option ℕ → RunEventType → Tx (Unit {0})
record_event run node_run type db = ok (
  tt,
  record db {
    events =
        db.events
        ++ record { workflow_run_id = run; node_run_id = node_run; event_type = type } ∷ [];
  },
)

-- `for key in keys: body(key)`
unfoldable pub for_each : (ℕ → Tx (Unit {0})) → List ℕ → Tx (Unit {0})
for_each body [] db = ok (tt, db)
for_each body (k ∷ keys) db = let rest = for_each body keys in continue (body k db) (λ _. rest)
