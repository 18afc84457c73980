-- ===== src/Queue/Claim.antt =====
-- `claim` of `MySQLExecutionBackend`. The candidate is looked up without a lock, so it comes from a
-- database `seen` that may be older than the one in which the rows are then locked.
use relayvia.Prelude.{
  ℕ, ◌+◌, String, Bool, true, false, not, ◌&&◌, ◌||◌, Option, none, some, List, [], ◌∷◌, ltb, leb,
  ◌==◌, any, if◌then◌else◌,
}
use relayvia.Errors.{Result, ok, and_then}
use relayvia.Table.{Table, get}
use relayvia.State.WorkflowRun.{WorkflowRunStatus}
use relayvia.State.WorkflowRun
use relayvia.State.NodeRun.{NodeRunStatus}
use relayvia.State.ExecutionTask.{ExecutionTaskStatus}
use relayvia.State.ExecutionTask
use relayvia.Db.{ExecutionTask, WorkflowRun, RunEventType, Payload, Db, Tx, pure, put_task, ◌>>◌}
use relayvia.Queue.Effects.{move_task, node_status, settle}
use text.Mathlib.Text.{◌==◌ as str_eq}

pub record ClaimedTask : Type 0 where
  pub id : ℕ
  pub workflow_run_id : ℕ
  pub node_run_id : ℕ
  pub payload : Payload
  pub attempt : ℕ
  pub max_attempts : ℕ
  pub locked_by : ℕ
  pub lease_token : ℕ
  pub lease_expires_at : ℕ

-- Who claims: a server Worker takes the tasks with no required capability, a Runner those whose
-- capability it has and that are not reserved for another Runner.
pub record Claimant : Type 0 where
  pub worker_id : ℕ
  pub capabilities : Option (List String)
  pub auto_start : Bool

abbrev pub run_is_running : Option WorkflowRun → Bool
run_is_running none = false
run_is_running (some run) = WorkflowRun.is run.status WorkflowRunStatus.running

abbrev pub capability_in : Option String → List String → Bool
capability_in none capabilities = false
capability_in (some c) capabilities = any (str_eq c) capabilities

abbrev pub unreserved : Option ℕ → ℕ → Bool
unreserved none worker = true
unreserved (some runner) worker = runner == worker

abbrev is_none : Option String → Bool
is_none none = true
is_none (some c) = false

unfoldable pub fits : Claimant → ExecutionTask → Bool
fits who task = elim who.capabilities [
  | none ↦ is_none task.required_capability
  | some cs ↦ capability_in task.required_capability cs && unreserved task.runner_id who.worker_id
]

-- The `where` clauses of the candidate query.
unfoldable pub eligible : Claimant → ℕ → Db → ExecutionTask → Bool
eligible who now db task =
    ExecutionTask.is task.status ExecutionTaskStatus.pending
    && leb task.available_at now
    && run_is_running (get task.workflow_run_id db.runs)
    && fits who task

-- The `order_by` of the candidate query: `a` comes strictly before `b`.
unfoldable pub precedes : ExecutionTask → ExecutionTask → Bool
precedes a b =
    ltb b.priority a.priority
    || (a.priority == b.priority
        && (ltb a.available_at b.available_at
            || (a.available_at == b.available_at && ltb a.created_at b.created_at)))

abbrev pub better : ℕ → ExecutionTask → Option (ℕ × ExecutionTask) → Option (ℕ × ExecutionTask)
better k task none = some (k, task)
better k task (some (j, other)) = if precedes other task then some (j, other) else some (k, task)

-- `.order_by(...).limit(1)` over the selected rows
unfoldable pub first_of_order :
    (ExecutionTask → Bool) → Table ExecutionTask → Option (ℕ × ExecutionTask)
first_of_order p [] = none
first_of_order p ((k, task) ∷ rows) =
    let rest = first_of_order p rows in if p task then better k task rest else rest

unfoldable pub claim_candidate : Claimant → ℕ → Db → Option (ℕ × ExecutionTask)
unfolding eligible first_of_order
claim_candidate who now seen = first_of_order (eligible who now seen) seen.tasks

-- The values of the conditional UPDATE.
abbrev pub lease_to : ℕ → ℕ → ℕ → ℕ → ExecutionTask → ExecutionTask
lease_to worker token now lease_seconds task = record task {
  status = ExecutionTaskStatus.claimed;
  locked_by = some worker;
  lease_token = some token;
  locked_at = some now;
  lease_expires_at = some (now + lease_seconds);
}

-- What `auto_start` does to the claimed row.
unfoldable pub start_task : ℕ → ExecutionTask → Result ExecutionTask
unfolding move_task
start_task now task =
    and_then (move_task ExecutionTaskStatus.running task)
      λ t. ok (record t { attempt = t.attempt + 1; started_at = some now })

abbrev pub claimed_task : ℕ → ℕ → ℕ → ℕ → ℕ → ℕ → ExecutionTask → ClaimedTask
claimed_task id worker token now lease_seconds attempt task = record {
  id = id;
  workflow_run_id = task.workflow_run_id;
  node_run_id = task.node_run_id;
  payload = task.payload;
  attempt = attempt;
  max_attempts = task.max_attempts;
  locked_by = worker;
  lease_token = token;
  lease_expires_at = now + lease_seconds;
}

-- From the conditional UPDATE on: its own test of the status repeats the one on the locked row.
unfoldable pub take : Claimant → ℕ → ℕ → ℕ → ℕ → ExecutionTask → Tx (Option ClaimedTask)
unfolding settle start_task node_status
take who token now lease_seconds id task =
    let held = lease_to who.worker_id token now lease_seconds task in
    if who.auto_start
    then (do
      settle id held (start_task now) (node_status NodeRunStatus.running true)
          (some RunEventType.node_started)
      pure (some (claimed_task id who.worker_id token now lease_seconds (task.attempt + 1) task)))
    else (do
      put_task id held
      pure (some (claimed_task id who.worker_id token now lease_seconds task.attempt task)))

-- The task as it was locked: gone or no longer pending, and there is no claim.
unfoldable pub claim_row : Claimant → ℕ → ℕ → ℕ → ℕ → Option ExecutionTask → Tx (Option ClaimedTask)
unfolding take
claim_row who token now lease_seconds id none = pure none
claim_row who token now lease_seconds id (some task) =
    if ExecutionTask.is task.status ExecutionTaskStatus.pending
    then take who token now lease_seconds id task
    else pure none

-- The rows are locked, in the order run and then task, and tested again. `skipped` says that another
-- transaction holds the task (`skip_locked`).
unfoldable pub claim_locked :
    Claimant → ℕ → ℕ → ℕ → Bool → ℕ → ExecutionTask → Tx (Option ClaimedTask)
unfolding claim_row
claim_locked who token now lease_seconds skipped id candidate db =
    if run_is_running (get candidate.workflow_run_id db.runs) && not skipped
    then claim_row who token now lease_seconds id (get id db.tasks) db
    else ok (none, db)

unfoldable pub claim : Db → Claimant → ℕ → ℕ → ℕ → Bool → Tx (Option ClaimedTask)
unfolding claim_candidate claim_locked
claim seen who token now lease_seconds skipped db = elim (claim_candidate who now seen) [
  | none ↦ ok (none, db)
  | some (id, candidate) ↦ claim_locked who token now lease_seconds skipped id candidate db
]
