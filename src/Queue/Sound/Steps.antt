-- ===== src/Queue/Sound/Steps.antt =====
-- Every operation of the queue keeps the rows of tasks and node runs sound.
use relayvia.Prelude.{
  ℕ, Bool, true, false, Option, none, some, ◌≡◌, refl, List, arith, inl, inr, Option-cases,
}
use relayvia.Errors.{Result}
use relayvia.Table.{get}
use relayvia.Json.{Json}
use relayvia.State.ExecutionTask.{ExecutionTaskStatus, is_execution_task_terminal}
use relayvia.Db.{
  ExecutionTask, NodeRun, RunEventType, WaitingReason, WorkflowRun, Db, Tx, pure, continue, ◌>>◌,
}
use relayvia.Db.Keeps.{Commits, Commits-then, Commits-if, Commits-if_tx, Commits-for_each}
use relayvia.Queue.Effects.{owns, settle, node_cancelled, finish_task}
use relayvia.Queue.Claim.{run_is_running}
use relayvia.Queue.Report.{
  Lease, guarded, start, start_row, release_or_cancel, is_parked, complete, fail, wait_node,
  schedule_retry,
}
use relayvia.Queue.Upkeep.{
  cancel, recover_expired, recover_row, lease_lost, promote_due_retries, promote_row, retry_due,
  at_task,
}
use relayvia.Queue.Rules.{Commits-guarded, Commits-at_task, Commits-traced}
use relayvia.Queue.Sound.{IsSound, Suits, settle-IsSound, lease_fits, locks_set}
use relayvia.Queue.Sound.Changes.{
  start-Suits, complete-Suits, fail-Suits, park-Suits, retry-Suits, cancel-Suits, requeue-Suits,
  promote-Suits,
}

module _ (db : Db) (sound : IsSound db) (key : ℕ) (task : ExecutionTask)
    (at : get key db.tasks ≡ some task) where
  -- `settle` on the row that stands in the table
  pub settle_row :
      {tc : ExecutionTask → Result ExecutionTask} {nc : NodeRun → Result NodeRun}
      (event : Option RunEventType)
      → Suits task tc nc
      → Commits IsSound (settle key task tc nc event db)
  settle_row event suits =
      settle-IsSound db sound key task task _ _ event at refl (sound.paired key task at) suits

  settle_row_then :
      {A : Type 0} {tc : ExecutionTask → Result ExecutionTask} {nc : NodeRun → Result NodeRun}
      (event : Option RunEventType) (a : A)
      → Suits task tc nc
      → Commits IsSound (continue (settle key task tc nc event db) (λ _. pure a))
  settle_row_then event a suits = Commits-then IsSound _ a (settle_row event suits)

  pub leased : lease_fits task.status task ≡ true
  leased = sound.leased key task at

  -- an owner's lease is complete
  owned_locks : (worker token now : ℕ) → owns task worker token now ≡ true → locks_set task ≡ true
  unfolding owns
  owned_locks worker token now h = ground (arith, leased)

module _ (db : Db) (sound : IsSound db) where
  pub guarded-IsSound :
      (lease : Lease) (now : ℕ) (body : ExecutionTask → Tx Bool)
      → ((task : ExecutionTask)
          → get lease.task_id db.tasks ≡ some task
          → locks_set task ≡ true
          → Commits IsSound (body task db))
      → Commits IsSound (guarded lease now body db)
  guarded-IsSound lease now body keep = Commits-guarded IsSound db sound lease now body λ task at h.
      keep task at
        (owned_locks db sound lease.task_id task at lease.worker_id lease.lease_token now h)

  module _ (lease : Lease) (now later : ℕ) where
    pub complete-IsSound :
        (output metadata : Json) (artifacts : List Json)
        → Commits IsSound (complete lease output metadata artifacts now later db)
    unfolding complete
    complete-IsSound output metadata artifacts = guarded-IsSound lease now _ λ task at _.
        settle_row_then db sound lease.task_id task at (some RunEventType.node_completed) true
          (complete-Suits task (leased db sound _ task at) output metadata artifacts later)

    pub fail-IsSound :
        (error metadata : Json) (artifacts : List Json)
        → Commits IsSound (fail lease error metadata artifacts now later db)
    unfolding fail
    fail-IsSound error metadata artifacts = guarded-IsSound lease now _ λ task at _.
        settle_row_then db sound lease.task_id task at (some RunEventType.node_failed) true
          (fail-Suits task (leased db sound _ task at) error metadata artifacts later)

    pub wait_node-IsSound :
        (reason : WaitingReason) (metadata : Json)
        → Commits IsSound (wait_node lease reason metadata now later db)
    unfolding wait_node
    wait_node-IsSound reason metadata = guarded-IsSound lease now _ λ task at _.
        Commits-traced IsSound metadata _ (
          settle_row db sound lease.task_id task at (some RunEventType.node_waiting)
            (park-Suits task (leased db sound _ task at) reason metadata later))

    pub schedule_retry-IsSound :
        (backoff : ℕ) → Commits IsSound (schedule_retry lease backoff now later db)
    unfolding schedule_retry
    schedule_retry-IsSound backoff = guarded-IsSound lease now _ λ task at _.
        settle_row_then db sound lease.task_id task at (some RunEventType.node_retrying) true
          (retry-Suits task (leased db sound _ task at) backoff later)

    release-IsSound :
        (task : ExecutionTask) (run : Option WorkflowRun)
        → get lease.task_id db.tasks ≡ some task
        → locks_set task ≡ true
        → Commits IsSound (release_or_cancel lease.task_id later task run db)
    unfolding release_or_cancel
    release-IsSound task run at locked =
        Commits-if_tx IsSound (is_parked run) _ _ db
          (λ _.
            settle_row db sound _ task at none
              (requeue-Suits task (leased db sound _ task at) locked))
          (λ _.
            settle_row db sound _ task at none
              (cancel-Suits task (leased db sound _ task at) later))

    pub start-IsSound : Commits IsSound (start lease now later db)
    unfolding start start_row
    start-IsSound = guarded-IsSound lease now _ λ task at locked.
        Commits-if IsSound (run_is_running (get task.workflow_run_id db.runs)) _ _
          (λ _.
            settle_row_then db sound _ task at (some RunEventType.node_started) true
              (start-Suits task (leased db sound _ task at) later))
          (λ _.
            Commits-then IsSound _ false
              (release-IsSound task (get task.workflow_run_id db.runs) at locked))

  pub cancel-IsSound : (key now : ℕ) → Commits IsSound (cancel key now db)
  unfolding cancel
  cancel-IsSound key now = elim (Option-cases (get key db.tasks)) [
    | inl e ↦ rw e sound
    | inr (task, e) ↦ rw e (
        Commits-if_tx IsSound (is_execution_task_terminal task.status) (pure false)
          (settle key task (finish_task ExecutionTaskStatus.cancelled now) (node_cancelled now)
              (some RunEventType.node_cancelled)
            >> pure true)
          db (λ _. sound)
          (λ _.
            settle_row_then db sound key task e (some RunEventType.node_cancelled) true
              (cancel-Suits task (leased db sound _ task e) now)))
  ]

  pub lost_locks :
      (now : ℕ) (task : ExecutionTask)
      → lease_fits task.status task ≡ true
      → lease_lost now task ≡ true
      → locks_set task ≡ true
  unfolding lease_lost
  lost_locks now task h l = ground arith

recover-IsSound_row :
    (now key : ℕ) (db : Db)
    → IsSound db
    → Commits IsSound (at_task (lease_lost now) recover_row key db)
unfolding recover_row
recover-IsSound_row now key db sound =
    Commits-at_task IsSound db sound (lease_lost now) recover_row key λ task at lost.
      settle_row db sound key task at none (
        requeue-Suits task (leased db sound key task at)
          (lost_locks db sound now task (leased db sound key task at) lost))

promote-IsSound_row :
    (now key : ℕ) (db : Db)
    → IsSound db
    → Commits IsSound (at_task (retry_due now) promote_row key db)
unfolding promote_row
promote-IsSound_row now key db sound =
    Commits-at_task IsSound db sound (retry_due now) promote_row key λ task at due.
      settle_row db sound key task at (some RunEventType.node_queued)
        (promote-Suits task (leased db sound key task at) now due)

module _ (db : Db) (sound : IsSound db) (locked : ℕ → Bool) (now : ℕ) where
  pub recover_expired-IsSound : Commits IsSound (recover_expired locked now db)
  unfolding recover_expired
  recover_expired-IsSound = Commits-then IsSound _ _ (
      Commits-for_each IsSound (at_task (lease_lost now) recover_row) (recover-IsSound_row now) _ db
        sound)

  pub promote_due_retries-IsSound : Commits IsSound (promote_due_retries locked now db)
  unfolding promote_due_retries
  promote_due_retries-IsSound = Commits-then IsSound _ _ (
      Commits-for_each IsSound (at_task (retry_due now) promote_row) (promote-IsSound_row now) _ db
        sound)
