-- ===== src/Queue/Progress.antt =====
-- Over sound rows, the owner of a running task can report, and what the report writes.
use relayvia.Prelude.{ℕ, ◌+◌, Bool, true, false, none, some, ◌≡◌, refl, List, arith, if◌then◌else◌}
use relayvia.Errors.{ErrorCode, Result, ok, is_ok}
use relayvia.Table.{get, put, get-put_self}
use relayvia.Json.{Json, may_spread}
use relayvia.State.NodeRun.{NodeRunStatus}
use relayvia.State.ExecutionTask.{ExecutionTaskStatus}
use relayvia.Db.{ExecutionTask, NodeRun, WaitingReason, RunEventType, Db, Tx, pure, raise, continue}
use relayvia.Queue.Effects.{owns, settle, node_status, node_completed, node_failed, finish_task}
use relayvia.Queue.Report.{
  Lease, guarded, complete, complete_task, fail, fail_task, wait_node, park_node, schedule_retry,
  retry_task, trace_arguments, trace_waiting,
}
use relayvia.Queue.Sound.{IsSound, settle_lem, couples-some, events_after}

-- The transaction commits `true`, and leaves these rows under the two keys.
pub record Leaves (key node_key : ℕ) (t : ExecutionTask) (n : NodeRun) (r : Result (Bool × Db))
    : Type 0 where
  pub after : Db
  pub commits : r ≡ ok (true, after)
  pub task_row : get key after.tasks ≡ some t
  pub node_row : get node_key after.node_runs ≡ some n

spread_traces :
    (metadata : Json)
    → may_spread trace_arguments metadata ≡ true
    → (d : Db) → trace_waiting metadata d ≡ ok (true, d)
unfolding trace_waiting
spread_traces metadata h d = rw h refl

module _ (db : Db) (sound : IsSound db) (lease : Lease) (now later : ℕ) (task : ExecutionTask)
    (at : get lease.task_id db.tasks ≡ some task)
    (running : task.status ≡ ExecutionTaskStatus.running)
    (owned : owns task lease.worker_id lease.lease_token now ≡ true) where
  running_node :
      (n : NodeRun) × (get task.node_run_id db.node_runs ≡ some n)
      × (n.status ≡ NodeRunStatus.running)
  running_node =
      let (n, e, c) =
        couples-some task.status (get task.node_run_id db.node_runs)
          (sound.paired lease.task_id task at) in
      (n, e, ground arith)

  reports :
      (tc : ExecutionTask → Result ExecutionTask) (nc : NodeRun → Result NodeRun)
      (event : RunEventType) (last : Tx Bool) (t : ExecutionTask) (n n' : NodeRun)
      → ((d : Db) → last d ≡ ok (true, d))
      → tc task ≡ ok t
      → get task.node_run_id db.node_runs ≡ some n
      → nc n ≡ ok n'
      → Leaves lease.task_id task.node_run_id t n' (
          guarded lease now
            (λ u d. continue (settle lease.task_id u tc nc (some event) d) (λ _. last))
            db)
  unfolding guarded
  reports tc nc event last t n n' ends ht hn hn' = record {
    after = record db {
      tasks = put lease.task_id t db.tasks;
      node_runs = put task.node_run_id n' db.node_runs;
      events = events_after task (some event) db.events;
    };
    commits = rw at (
        rw owned
          (rw (settle_lem lease.task_id task tc nc (some event) db t n n' ht hn hn') (ends _)));
    task_row = get-put_self lease.task_id t db.tasks;
    node_row = get-put_self task.node_run_id n' db.node_runs;
  }

  -- whether the last call of `wait_node` raises
  parks_iff :
      (reason : WaitingReason) (metadata : Json) (n : NodeRun)
      → get task.node_run_id db.node_runs ≡ some n
      → n.status ≡ NodeRunStatus.running
      → is_ok (wait_node lease reason metadata now later db) ≡ may_spread trace_arguments metadata
  unfolding wait_node guarded trace_waiting finish_task park_node
  parks_iff reason metadata n hn r = rw at (
      rw owned (
        rw
          (settle_lem lease.task_id task (finish_task ExecutionTaskStatus.completed later)
            (park_node reason metadata) (some RunEventType.node_waiting) db
            (record task { status = ExecutionTaskStatus.completed; finished_at = some later }) n
            (record n {
              status = NodeRunStatus.waiting;
              waiting_reason = some reason;
              waiting_metadata = metadata;
            })
            (ground arith) hn (ground arith))
          (traced (may_spread trace_arguments metadata) _)))
    where
      traced :
          (b : Bool) (d : Db) → is_ok ((if b then pure true else raise ErrorCode.type_error) d) ≡ b
      traced true d = refl
      traced false d = refl

  -- The owner of a running task can report in each of the four ways. A completion leaves the task and
  -- its node run completed, with the output; a failure leaves both failed, with the error; a waiting
  -- node leaves the task completed and the node run waiting, with the reason and the metadata, if the
  -- metadata is an object none of whose keys is `db`, `task`, `event_type`, `message` or `reason`; a
  -- retry gives the lease up and leaves the task to wait until its backoff is over, and the node run
  -- retrying. Parking with any other metadata is an error.
  pub reports_succeed :
      (output error metadata waiting : Json) (artifacts : List Json) (reason : WaitingReason)
      (backoff : ℕ)
      → may_spread trace_arguments waiting ≡ true
      → (n : NodeRun) × (get task.node_run_id db.node_runs ≡ some n)
        × Leaves lease.task_id task.node_run_id
            (record task {
              status = ExecutionTaskStatus.completed;
              finished_at = some later;
              last_error = none;
            })
            (record n {
              status = NodeRunStatus.completed;
              output = some output;
              execution_metadata = metadata;
              artifact_refs = artifacts;
              finished_at = some later;
            })
            (complete lease output metadata artifacts now later db)
        × Leaves lease.task_id task.node_run_id
            (record task {
              status = ExecutionTaskStatus.failed;
              finished_at = some later;
              last_error = some error;
            })
            (record n {
              status = NodeRunStatus.failed;
              error = some error;
              execution_metadata = metadata;
              artifact_refs = artifacts;
              finished_at = some later;
            })
            (fail lease error metadata artifacts now later db)
        × Leaves lease.task_id task.node_run_id
            (record task { status = ExecutionTaskStatus.completed; finished_at = some later })
            (record n {
              status = NodeRunStatus.waiting;
              waiting_reason = some reason;
              waiting_metadata = waiting;
            })
            (wait_node lease reason waiting now later db)
        × Leaves lease.task_id task.node_run_id
            (record task {
              status = ExecutionTaskStatus.retry_wait;
              available_at = later + backoff;
              locked_by = none;
              lease_token = none;
              locked_at = none;
              lease_expires_at = none;
            })
            (record n { status = NodeRunStatus.retrying })
            (schedule_retry lease backoff now later db)
        × (is_ok (wait_node lease reason metadata now later db)
            ≡ may_spread trace_arguments metadata)
  unfolding complete complete_task node_completed fail fail_task node_failed wait_node park_node
      schedule_retry retry_task node_status
  reports_succeed output error metadata waiting artifacts reason backoff spread =
      let (n, e, r) = running_node in
      (
        n,
        e,
        reports (complete_task later) (node_completed output metadata artifacts later)
            RunEventType.node_completed (pure true) _ n _ (λ d. refl) (ground arith) e
            (ground arith),
        reports (fail_task error later) (node_failed error metadata artifacts later)
            RunEventType.node_failed (pure true) _ n _ (λ d. refl) (ground arith) e (ground arith),
        reports (finish_task ExecutionTaskStatus.completed later) (park_node reason waiting)
            RunEventType.node_waiting (trace_waiting waiting) _ n _ (spread_traces waiting spread)
            (ground arith) e (ground arith),
        reports (retry_task backoff later) (node_status NodeRunStatus.retrying true)
            RunEventType.node_retrying (pure true) _ n _ (λ d. refl) (ground arith) e
            (ground arith),
        parks_iff reason metadata n e r,
      )
