-- ===== src/Queue/Upkeep.antt =====
-- The operations of `MySQLExecutionBackend` that need no lease: `submit`, `cancel`, `recover_expired`
-- and `promote_due_retries`. `locked` says which tasks another transaction holds (`skip_locked`).
use relayvia.Prelude.{
  ℕ, Bool, true, false, not, ◌&&◌, ◌||◌, Option, none, some, ltb, leb, length, filter,
  if◌then◌else◌, String, ◌==◌,
}
use relayvia.Errors.{ErrorCode, ok, err}
use relayvia.Table.{get, keys_where, no_keys}
use relayvia.State.NodeRun.{NodeRunStatus}
use relayvia.State.ExecutionTask.{ExecutionTaskStatus, is_execution_task_terminal}
use relayvia.State.ExecutionTask
use relayvia.Db.{ExecutionTask, RunEventType, Payload, Db, Tx, pure, put_task, for_each, ◌>>◌}
use relayvia.Queue.Effects.{
  move_task, node_status, node_cancelled, finish_task, requeue_task, settle,
}

-- The new row of `submit`, also that of the scheduler's tasks.
abbrev pub new_task : ℕ → ℕ → Payload → ℕ → ℕ → ℕ → Option ℕ → Option String → ℕ → ExecutionTask
new_task run node_run payload priority max_attempts available_at runner capability created_at =
    record {
      workflow_run_id = run;
      node_run_id = node_run;
      status = ExecutionTaskStatus.pending;
      payload = payload;
      priority = priority;
      attempt = 0;
      max_attempts = max_attempts;
      available_at = available_at;
      locked_by = none;
      lease_token = none;
      locked_at = none;
      lease_expires_at = none;
      runner_id = runner;
      required_capability = capability;
      last_error = none;
      created_at = created_at;
      started_at = none;
      finished_at = none;
    }

abbrev pub exists {ℓ} : {A : Type ℓ} → Option A → Bool
exists none = false
exists (some a) = true

-- The constraints of the table `execution_tasks`: a new key, one task to a node run, and foreign
-- keys that name rows. The foreign key from `runner_id` to the Runners, whose table is apart from these
-- rows, is left out: a task with a `runner_id` is inserted whether or not there is such a Runner.
unfoldable pub may_insert : ℕ → ExecutionTask → Db → Bool
may_insert key task db =
    not (exists (get key db.tasks))
    && no_keys (keys_where (λ t. t.node_run_id == task.node_run_id) db.tasks)
    && exists (get task.node_run_id db.node_runs)
    && exists (get task.workflow_run_id db.runs)

unfoldable pub insert_task : ℕ → ExecutionTask → Tx (Unit {0})
unfolding may_insert
insert_task key task db =
    if may_insert key task db then put_task key task db else err ErrorCode.integrity_error

-- `task_id` is the primary key that the new row gets.
unfoldable pub submit : ℕ → ℕ → ℕ → Payload → ℕ → ℕ → ℕ → ℕ → Tx ℕ
unfolding insert_task
submit task_id run node_run payload priority max_attempts available_at now = do
  insert_task task_id
      (new_task run node_run payload priority max_attempts available_at none none now)
  pure task_id

unfoldable pub cancel_row : ℕ → ℕ → Option ExecutionTask → Tx Bool
unfolding settle finish_task node_cancelled is_execution_task_terminal
cancel_row task_id now none = pure false
cancel_row task_id now (some task) =
    if is_execution_task_terminal task.status then pure false else (do
      settle task_id task (finish_task ExecutionTaskStatus.cancelled now) (node_cancelled now)
          (some RunEventType.node_cancelled)
      pure true)

unfoldable pub cancel : ℕ → ℕ → Tx Bool
unfolding cancel_row
cancel task_id now db = cancel_row task_id now (get task_id db.tasks) db

-- The body of a loop over the tasks that a query selected. The row is read again in its round, and
-- the query's test with it: the rounds before it changed other rows only.
abbrev pub at_row :
    (ExecutionTask → Bool) → (ExecutionTask → Tx (Unit {0})) → Option ExecutionTask → Tx (Unit {0})
at_row selected body none = pure tt
at_row selected body (some task) = if selected task then body task else pure tt

abbrev pub at_task :
    (ExecutionTask → Bool) → (ℕ → ExecutionTask → Tx (Unit {0})) → ℕ → Tx (Unit {0})
at_task selected body key db = at_row selected (body key) (get key db.tasks) db

abbrev pub expired : Option ℕ → ℕ → Bool
expired none now = false
expired (some t) now = ltb t now

unfoldable pub lease_lost : ℕ → ExecutionTask → Bool
lease_lost now task =
    (ExecutionTask.is task.status ExecutionTaskStatus.claimed
      || ExecutionTask.is task.status ExecutionTaskStatus.running)
    && expired task.lease_expires_at now

unfoldable pub recover_row : ℕ → ExecutionTask → Tx (Unit {0})
unfolding settle requeue_task
recover_row key task = settle key task requeue_task ok none

unfoldable pub recover_expired : (ℕ → Bool) → ℕ → Tx ℕ
unfolding lease_lost recover_row
recover_expired locked now db =
    let keys = filter (λ k. not (locked k)) (keys_where (lease_lost now) db.tasks) in
    (do for_each (at_task (lease_lost now) recover_row) keys; pure (length keys)) db

unfoldable pub retry_due : ℕ → ExecutionTask → Bool
retry_due now task =
    ExecutionTask.is task.status ExecutionTaskStatus.retry_wait && leb task.available_at now

-- A retry keeps its (empty) lock columns.
unfoldable pub promote_row : ℕ → ExecutionTask → Tx (Unit {0})
unfolding settle move_task node_status
promote_row key task =
    settle key task (move_task ExecutionTaskStatus.pending) (node_status NodeRunStatus.queued true)
      (some RunEventType.node_queued)

unfoldable pub promote_due_retries : (ℕ → Bool) → ℕ → Tx ℕ
unfolding retry_due promote_row
promote_due_retries locked now db =
    let keys = filter (λ k. not (locked k)) (keys_where (retry_due now) db.tasks) in
    (do for_each (at_task (retry_due now) promote_row) keys; pure (length keys)) db
