-- ===== src/Runners/Tasks.antt =====
-- `runner_claim` and `runner_task_heartbeat` of backend/app/domain/runners/service.py.
pub mod Sound
pub mod Signal
use relayvia.Prelude.{
  ℕ, ◌+◌, String, Bool, true, false, not, ◌&&◌, ◌||◌, Option, none, some, List, holds_id,
  if◌then◌else◌,
}
use relayvia.Errors.{ErrorCode, Result, ok, err, and_then}
use relayvia.Table.{Table, get, put}
use relayvia.State.WorkflowRun.{WorkflowRunStatus, is_workflow_run_terminal}
use relayvia.State.NodeRun.{NodeRunStatus}
use relayvia.State.ExecutionTask.{ExecutionTaskStatus}
use relayvia.State.ExecutionTask
use relayvia.Db.{
  ExecutionTask, NodeRun, WorkflowRun, Workspace, WorkspaceStatus, RunEventType, Db, Tx, pure,
  continue, put_task, ◌>>◌,
}
use relayvia.Queue.Effects.{node_status, settle, trace}
use relayvia.Queue.Claim.{Claimant, run_is_running, claim_candidate, lease_to, start_task}
use relayvia.Runs.Cancel.{or_now}
use relayvia.Runners.Registry.{Runner}

-- what the claim does to the node run, where `attempt` is the task's new one
unfoldable pub node_started_on : ℕ → ℕ → NodeRun → Result NodeRun
unfolding node_status
node_started_on attempt now n =
    and_then (node_status NodeRunStatus.running true n)
      λ n'. ok (record n' { attempt = attempt; started_at = or_now n'.started_at now })

abbrev in_use_row : ℕ → ℕ → Option Workspace → Tx (Unit {0})
in_use_row runner_id key none db = ok (tt, db)
in_use_row runner_id key (some w) db = ok (
  tt,
  record db {
    workspaces =
        put key (record w { runner_id = some runner_id; status = WorkspaceStatus.in_use })
          db.workspaces;
  },
)

-- The workspace that the payload names, if there is one.
unfoldable pub workspace_in_use : ℕ → Option ℕ → Tx (Unit {0})
workspace_in_use runner_id none db = ok (tt, db)
workspace_in_use runner_id (some key) db = in_use_row runner_id key (get key db.workspaces) db

-- The Runner takes the tasks whose capability it has, and starts them at once.
abbrev pub claimant : ℕ → List String → Claimant
claimant runner_id capabilities = record {
  worker_id = runner_id;
  capabilities = some capabilities;
  auto_start = true;
}

unfoldable pub runner_take : ℕ → ℕ → ℕ → ℕ → ℕ → ExecutionTask → Tx (Option ℕ)
unfolding settle start_task node_started_on workspace_in_use
runner_take runner_id token now lease_seconds id task = do
  settle id (lease_to runner_id token now lease_seconds task) (start_task now)
      (node_started_on (task.attempt + 1) now) none
  workspace_in_use runner_id task.payload.workspace
  trace task RunEventType.node_started
  pure (some id)

abbrev pub runner_row : ℕ → ℕ → ℕ → ℕ → ℕ → Option ExecutionTask → Tx (Option ℕ)
runner_row runner_id token now lease_seconds id none db = ok (none, db)
runner_row runner_id token now lease_seconds id (some task) db =
    if ExecutionTask.is task.status ExecutionTaskStatus.pending
    then runner_take runner_id token now lease_seconds id task db
    else ok (none, db)

-- The candidate is looked up without a lock in `seen`; `skipped` says that another transaction holds it.
unfoldable pub runner_claim : Db → ℕ → List String → ℕ → ℕ → ℕ → Bool → Tx (Option ℕ)
unfolding claim_candidate runner_take
runner_claim seen runner_id capabilities token now lease_seconds skipped db =
    elim (claim_candidate (claimant runner_id capabilities) now seen) [
      | none ↦ ok (none, db)
      | some (id, candidate) ↦
          if run_is_running (get candidate.workflow_run_id db.runs) && not skipped
          then runner_row runner_id token now lease_seconds id (get id db.tasks) db
          else ok (none, db)
    ]

abbrev run_over : Option WorkflowRun → Bool
run_over none = true
run_over (some run) = is_workflow_run_terminal run.status

-- The Runner is told to stop: its task no longer runs, or the run is over.
unfoldable pub must_stop : ExecutionTask → Db → Bool
unfolding is_workflow_run_terminal
must_stop task db =
    not (ExecutionTask.is task.status ExecutionTaskStatus.running)
    || run_over (get task.workflow_run_id db.runs)

unfoldable pub holds_task : ℕ → ℕ → ExecutionTask → Bool
holds_task runner_id token task =
    holds_id task.locked_by runner_id && holds_id task.lease_token token

unfoldable pub heartbeat_row : ℕ → ℕ → ℕ → ℕ → ℕ → Option ExecutionTask → Tx Bool
unfolding must_stop holds_task
heartbeat_row runner_id token lease_seconds now id none db = err ErrorCode.runner_task_stale
heartbeat_row runner_id token lease_seconds now id (some task) db =
    if not (holds_task runner_id token task)
    then err ErrorCode.runner_task_stale
    else if must_stop task db
    then ok (true, db)
    else (put_task id (record task { lease_expires_at = some (now + lease_seconds) }) >> pure false)
        db

abbrev seen_row : ℕ → ℕ → Option Runner → Table Runner → Table Runner
seen_row runner_id now none registry = registry
seen_row runner_id now (some r) registry =
    put runner_id (record r { last_seen_at = some now }) registry

-- The Runner has been seen.
abbrev pub seen_now : ℕ → ℕ → Table Runner → Table Runner
seen_now runner_id now registry = seen_row runner_id now (get runner_id registry) registry

-- The answer is the signal to stop, with the registry as the call leaves it.
unfoldable pub runner_task_heartbeat : Table Runner → ℕ → ℕ → ℕ → ℕ → ℕ → Tx (Bool × Table Runner)
unfolding heartbeat_row
runner_task_heartbeat registry runner_id id token lease_seconds now db =
    continue (heartbeat_row runner_id token lease_seconds now id (get id db.tasks) db)
      λ stop. pure (stop, seen_now runner_id now registry)
