-- ===== src/Queue/Life/Calls.antt =====
-- Every call of the backend moves a row along its life.
use relayvia.Prelude.{
  ℕ, true, false, Option, none, some, ◌≡◌, refl, List, [], ◌∷◌, ◌+◌, inl, inr, Option-cases, arith,
}
use relayvia.Errors.{ErrorCode, Result, ok, err}
use relayvia.Table.{get, put, get-put}
use relayvia.State.NodeRun.{NodeRunStatus}
use relayvia.State.ExecutionTask.{ExecutionTaskStatus, is_execution_task_terminal}
use relayvia.State.ExecutionTask
use relayvia.Db.{ExecutionTask, NodeRun, RunEventType, Payload, Db, pure, continue, put_task, ◌>>◌}
use relayvia.Db.Keeps.{
  Commits, Commits-then, Commits-if, Commits-if_tx, Commits-for_each, Commits-committed,
}
use relayvia.Queue.Effects.{
  settle, finish_task, requeue_task, move_task, node_cancelled, node_status, node_completed,
  node_failed,
}
use relayvia.Queue.Claim.{Claimant, take, start_task, lease_to, claimed_task, run_is_running}
use relayvia.Queue.Report.{
  Lease, start, start_row, release_or_cancel, is_parked, complete, complete_task, fail, fail_task,
  wait_node, park_node, schedule_retry, retry_task, renew_lease,
}
use relayvia.Queue.Upkeep.{
  submit, new_task, may_insert, insert_task, cancel, recover_expired, recover_row, lease_lost,
  promote_due_retries, promote_row, retry_due, at_task,
}
use relayvia.Queue.Rules.{Commits-guarded, Commits-at_task, Commits-claim, Commits-traced}
use relayvia.Queue.Sound.Trace.{
  Call, claim_call, start_call, complete_call, fail_call, wait_call, retry_call, renew_call,
  submit_call, cancel_call, recover_call, promote_call, perform, perform_all,
}
use relayvia.Queue.Life.{
  Change, next, claimed, started, completed, failed, parked, retried, cancelled, requeued, promoted,
  renewed,
}
use relayvia.Queue.Life.Rows.{LivesIn, Lives, write-Lives, settle-Lives}

-- The lease token that a claim draws is one of `Issued`.
abbrev pub Draws : (ℕ → Type 0) → Call → Type 0
Draws Issued (claim_call seen who token now seconds skipped) = Issued token
Draws Issued _ = Unit

abbrev pub AllDraw : (ℕ → Type 0) → List Call → Type 0
AllDraw Issued [] = Unit
AllDraw Issued (c ∷ calls) = Draws Issued c × AllDraw Issued calls

module _ (Issued : ℕ → Type 0) (key : ℕ) (row : ExecutionTask) where
  abbrev P : Db → Type 0
  P = Lives Issued key row

  module _ (k : ℕ) (u : ExecutionTask) (db : Db) (lives : P db) (at : get k db.tasks ≡ some u) where
    moved :
        (tc : ExecutionTask → Result ExecutionTask) (nc : NodeRun → Result NodeRun)
        (event : Option RunEventType)
        → ((t : ExecutionTask) → tc u ≡ ok t → Change Issued u t)
        → Commits P (settle k u tc nc event db)
    moved tc nc event change =
        settle-Lives key row k u u tc nc event db lives at (λ t h life. next life (change t h))

    moved_then :
        {A : Type 0} (tc : ExecutionTask → Result ExecutionTask) (nc : NodeRun → Result NodeRun)
        (event : Option RunEventType) (a : A)
        → ((t : ExecutionTask) → tc u ≡ ok t → Change Issued u t)
        → Commits P (continue (settle k u tc nc event db) (λ _. pure a))
    moved_then tc nc event a change =
        Commits-then P (settle k u tc nc event db) a (moved tc nc event change)

    release-Lives : (later : ℕ) (run : _) → Commits P (release_or_cancel k later u run db)
    unfolding release_or_cancel
    release-Lives later run =
        Commits-if_tx P (is_parked run) _ _ db (λ _. moved requeue_task ok none (λ t h. requeued h))
          (λ _.
            moved (finish_task ExecutionTaskStatus.cancelled later) (node_cancelled later) none
              (λ t h. cancelled later h))

    take-Lives :
        (who : Claimant) (token now seconds : ℕ)
        → Issued token
        → ExecutionTask.is u.status ExecutionTaskStatus.pending ≡ true
        → Commits P (take who token now seconds k u db)
    unfolding take
    take-Lives who token now seconds issued waits =
        let held = lease_to who.worker_id token now seconds u in
        let waits' : u.status ≡ ExecutionTaskStatus.pending = ground arith in
        let held_by : Change Issued u held =
          claimed who.worker_id token now seconds issued waits' refl in
        Commits-if_tx P who.auto_start
          (do
            settle k held (start_task now) (node_status NodeRunStatus.running true)
                (some RunEventType.node_started)
            pure (some (claimed_task k who.worker_id token now seconds (u.attempt + 1) u)))
          (do
            put_task k held
            pure (some (claimed_task k who.worker_id token now seconds u.attempt u)))
          db
          (λ _.
            Commits-then P
              (settle k held (start_task now) (node_status NodeRunStatus.running true)
                (some RunEventType.node_started) db)
              _
              (settle-Lives key row k u held (start_task now)
                (node_status NodeRunStatus.running true) (some RunEventType.node_started) db lives
                at (λ t h life. next (next life held_by) (started now h))))
          (λ _. write-Lives key row k u db.tasks held lives at (λ life. next life held_by))

  at_lost : (now k : ℕ) (db : Db) → P db → Commits P (at_task (lease_lost now) recover_row k db)
  unfolding recover_row
  at_lost now k db lives =
      Commits-at_task P db lives (lease_lost now) recover_row k
        λ u at _. moved k u db lives at requeue_task ok none (λ t h. requeued h)

  at_due : (now k : ℕ) (db : Db) → P db → Commits P (at_task (retry_due now) promote_row k db)
  unfolding promote_row
  at_due now k db lives = Commits-at_task P db lives (retry_due now) promote_row k λ u at _.
      moved k u db lives at (move_task ExecutionTaskStatus.pending)
        (node_status NodeRunStatus.queued true) (some RunEventType.node_queued) (λ t h. promoted h)

  module _ (db : Db) (lives : P db) where
    start-Lives : (lease : Lease) (now later : ℕ) → Commits P (start lease now later db)
    unfolding start start_row
    start-Lives lease now later = Commits-guarded P db lives lease now _ λ u at _.
        Commits-if P (run_is_running (get u.workflow_run_id db.runs)) _ _
          (λ _.
            moved_then lease.task_id u db lives at (start_task later)
              (node_status NodeRunStatus.running true) (some RunEventType.node_started) true
              (λ t h. started later h))
          (λ _.
            Commits-then P
              (release_or_cancel lease.task_id later u (get u.workflow_run_id db.runs) db) false
              (release-Lives lease.task_id u db lives at later (get u.workflow_run_id db.runs)))

    cancel-Lives : (k now : ℕ) → Commits P (cancel k now db)
    unfolding cancel
    cancel-Lives k now = elim (Option-cases (get k db.tasks)) [
      | inl e ↦ rw e lives
      | inr (u, e) ↦ rw e (
          Commits-if_tx P (is_execution_task_terminal u.status) (pure false)
            (settle k u (finish_task ExecutionTaskStatus.cancelled now) (node_cancelled now)
                (some RunEventType.node_cancelled)
              >> pure true)
            db (λ _. lives)
            (λ _.
              moved_then k u db lives e (finish_task ExecutionTaskStatus.cancelled now)
                (node_cancelled now) (some RunEventType.node_cancelled) true
                (λ t h. cancelled now h)))
    ]

    inserted :
        (k : ℕ) (task : ExecutionTask)
        → may_insert k task db ≡ true
        → LivesIn Issued key row (put k task db.tasks)
    unfolding may_insert
    inserted k task may =
        let (r, at, life) = lives in (r, ground (arith, get-put k key task db.tasks), life)

    -- A new row has a new key.
    submit-Lives :
        (k run node_run : ℕ) (payload : Payload) (priority max_attempts available_at now : ℕ)
        → Commits P (submit k run node_run payload priority max_attempts available_at now db)
    unfolding submit insert_task
    submit-Lives k run node_run payload priority max_attempts available_at now =
        let task = new_task run node_run payload priority max_attempts available_at none none now in
        Commits-then P _ k (
          Commits-if P (may_insert k task db) (put_task k task db) (err ErrorCode.integrity_error)
            (λ may. inserted k task may) (λ _. tt))

    call-Lives : (c : Call) → Draws Issued c → P (perform c db)
    unfolding perform complete fail wait_node schedule_retry renew_lease recover_expired
        promote_due_retries
    call-Lives (claim_call seen who token now seconds skipped) d = Commits-committed P _ db lives (
        Commits-claim P db lives who token now seconds skipped seen
          (λ k u at waits. take-Lives k u db lives at who token now seconds d waits))
    call-Lives (start_call lease now later) d =
        Commits-committed P _ db lives (start-Lives lease now later)
    call-Lives (complete_call lease output metadata artifacts now later) d =
        Commits-committed P _ db lives (
          Commits-guarded P db lives lease now _ λ u at _.
            moved_then lease.task_id u db lives at (complete_task later)
              (node_completed output metadata artifacts later) (some RunEventType.node_completed)
              true (λ t h. completed later h))
    call-Lives (fail_call lease error metadata artifacts now later) d =
        Commits-committed P _ db lives (
          Commits-guarded P db lives lease now _ λ u at _.
            moved_then lease.task_id u db lives at (fail_task error later)
              (node_failed error metadata artifacts later) (some RunEventType.node_failed) true
              (λ t h. failed error later h))
    call-Lives (wait_call lease reason metadata now later) d = Commits-committed P _ db lives (
        Commits-guarded P db lives lease now _ λ u at _. Commits-traced P metadata _ (
          moved lease.task_id u db lives at (finish_task ExecutionTaskStatus.completed later)
            (park_node reason metadata) (some RunEventType.node_waiting) (λ t h. parked later h)))
    call-Lives (retry_call lease backoff now later) d = Commits-committed P _ db lives (
        Commits-guarded P db lives lease now _ λ u at _.
          moved_then lease.task_id u db lives at (retry_task backoff later)
            (node_status NodeRunStatus.retrying true) (some RunEventType.node_retrying) true
            (λ t h. retried backoff later h))
    call-Lives (renew_call lease seconds now later) d = Commits-committed P _ db lives (
        Commits-guarded P db lives lease now _ λ u at owned.
          write-Lives key row lease.task_id u db.tasks
            (record u { lease_expires_at = some (later + seconds) }) lives at
            (λ life.
              next life
                (renewed lease.worker_id lease.lease_token now (later + seconds) owned refl)))
    call-Lives (submit_call k run node_run payload priority max_attempts available_at now) d =
        Commits-committed P _ db lives
          (submit-Lives k run node_run payload priority max_attempts available_at now)
    call-Lives (cancel_call k now) d = Commits-committed P _ db lives (cancel-Lives k now)
    call-Lives (recover_call locked now) d = Commits-committed P _ db lives (
        Commits-then P _ _
          (Commits-for_each P (at_task (lease_lost now) recover_row) (at_lost now) _ db lives))
    call-Lives (promote_call locked now) d = Commits-committed P _ db lives (
        Commits-then P _ _
          (Commits-for_each P (at_task (retry_due now) promote_row) (at_due now) _ db lives))

  -- Over any sequence of calls, whose claims draw their tokens from `Issued`, a task's row lives a life
  -- of the relation `Changes`.
  pub perform_all-Lives :
      (calls : List Call) (db : Db) → AllDraw Issued calls → P db → P (perform_all calls db)
  unfolding perform_all
  perform_all-Lives [] db d lives = lives
  perform_all-Lives (c ∷ calls) db d lives =
      perform_all-Lives calls (perform c db) d.1 (call-Lives db lives c d.0)
