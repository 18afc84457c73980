-- ===== src/Scheduler/Waits.antt =====
-- `promote_due_waits` of backend/app/runtime/scheduler/workflow_scheduler.py.
use relayvia.Prelude.{
  ℕ, String, Bool, true, false, not, ◌&&◌, Option, none, some, leb, ◌==◌, if◌then◌else◌,
}
use relayvia.Errors.{ErrorCode, err}
use relayvia.Table.{keys_where, no_keys}
use relayvia.Json.{Json, get_field}
use relayvia.State.NodeRun.{NodeRunStatus}
use relayvia.State.NodeRun
use relayvia.Db.{
  NodeRun, WaitingReason, RunEventType, Tx, pure, lift, put_node_run, record_event, for_each, ◌>>=◌,
  ◌>>◌,
}
use relayvia.Queue.Effects.{move_node}
use relayvia.Runs.Cancel.{at_node_run}
use relayvia.Scheduler.Dispatch.{Collaborators, Moment}

abbrev pub is_wait_timer : Option WaitingReason → Bool
is_wait_timer (some WaitingReason.wait_timer) = true
is_wait_timer _ = false

abbrev reached : Option Moment → ℕ → Bool
reached (some (Moment.aware due)) now = leb due now
reached _ now = false

abbrev has_no_zone : Option Moment → Bool
has_no_zone (some Moment.naive) = true
has_no_zone _ = false

abbrev time_of : (String → Option Moment) → Option Json → Option Moment
time_of fromisoformat (some (Json.str s)) = fromisoformat s
time_of fromisoformat _ = none

abbrev resume_time : Collaborators → NodeRun → Option Moment
resume_time c n = time_of c.fromisoformat (get_field "resume_at" n.waiting_metadata)

-- The tests of the loop.
unfoldable pub wait_due : Collaborators → ℕ → ℕ → NodeRun → Bool
wait_due c now run_id n =
    n.workflow_run_id == run_id
    && (NodeRun.is n.status NodeRunStatus.waiting
        && (is_wait_timer n.waiting_reason && reached (resume_time c n) now))

-- The node runs at which the loop raises: `due > utc_now()` compares a time without a zone with one that
-- has a zone.
unfoldable pub wait_fails : Collaborators → ℕ → NodeRun → Bool
wait_fails c run_id n =
    n.workflow_run_id == run_id
    && (NodeRun.is n.status NodeRunStatus.waiting
        && (is_wait_timer n.waiting_reason && has_no_zone (resume_time c n)))

unfoldable pub promote_wait : ℕ → ℕ → ℕ → NodeRun → Tx (Unit {0})
unfolding move_node
promote_wait now run_id key n = do
  n' ← lift (move_node NodeRunStatus.completed n)
  put_node_run key (record n' { output = some n.waiting_metadata; finished_at = some now })
  record_event run_id (some key) RunEventType.node_resumed
  record_event run_id (some key) RunEventType.node_completed

-- The error of one round rolls the others back, whichever came first.
unfoldable pub promote_due_waits : Collaborators → ℕ → ℕ → Tx Bool
unfolding promote_wait wait_due wait_fails
promote_due_waits c now run_id db =
    let keys = keys_where (wait_due c now run_id) db.node_runs in
    if no_keys (keys_where (wait_fails c run_id) db.node_runs)
    then (for_each (at_node_run (wait_due c now run_id) (promote_wait now run_id)) keys
          >> pure (not (no_keys keys)))
        db
    else err ErrorCode.type_error
