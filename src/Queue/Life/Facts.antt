-- ===== src/Queue/Life/Facts.antt =====
-- What holds of a task over any sequence of queue calls.
use relayvia.Prelude.{
  ℕ, ◌<◌, ◌≤◌, Bool, true, false, some, ◌≡◌, ◌≢◌, refl, ◌∙◌, List, arith, holds_id, ap,
}
use relayvia.Table.{get}
use relayvia.State.ExecutionTask.{ExecutionTaskStatus, is_execution_task_terminal}
use relayvia.Db.{ExecutionTask, Db}
use relayvia.Queue.Effects.{owns, move_task, finish_task, requeue_task}
use relayvia.Queue.Claim.{start_task}
use relayvia.Queue.Report.{complete_task, fail_task, retry_task}
use relayvia.Queue.Sound.Trace.{Call, perform_all}
use relayvia.Queue.Life.{
  Change, Changes, here, next, claimed, started, completed, failed, parked, retried, cancelled,
  requeued, promoted, renewed,
}
use relayvia.Queue.Life.Calls.{AllDraw, perform_all-Lives}

-- A terminal row has no further write.
Change-terminal :
    {Issued : ℕ → Type 0} {t u : ExecutionTask}
    → Change Issued t u
    → is_execution_task_terminal t.status ≡ false
unfolding start_task complete_task fail_task finish_task retry_task requeue_task move_task owns
Change-terminal (claimed worker token now seconds i p e) = ground arith
Change-terminal (started later e) = ground arith
Change-terminal (completed later e) = ground arith
Change-terminal (failed error later e) = ground arith
Change-terminal (parked later e) = ground arith
Change-terminal (retried backoff later e) = ground arith
Change-terminal (cancelled later e) = ground arith
Change-terminal (requeued e) = ground arith
Change-terminal (promoted e) = ground arith
Change-terminal (renewed worker token now expires p e) = ground arith

Changes-terminal :
    {Issued : ℕ → Type 0} {t u : ExecutionTask}
    → is_execution_task_terminal t.status ≡ true
    → Changes Issued t u
    → u ≡ t
Changes-terminal h here = refl
Changes-terminal h (next life c) =
    let same = Changes-terminal h life in
    absurd
      (cc (Change-terminal c, ap (λ (x : ExecutionTask). is_execution_task_terminal x.status) same))

-- What no write changes, and that the number of attempts never falls.
pub record Continues (t u : ExecutionTask) : Type 0 where
  pub same_run : u.workflow_run_id ≡ t.workflow_run_id
  pub same_node : u.node_run_id ≡ t.node_run_id
  pub same_payload : u.payload ≡ t.payload
  pub same_priority : u.priority ≡ t.priority
  pub same_max : u.max_attempts ≡ t.max_attempts
  pub same_runner : u.runner_id ≡ t.runner_id
  pub same_capability : u.required_capability ≡ t.required_capability
  pub attempts_grow : t.attempt ≤ u.attempt

Change-Continues : {Issued : ℕ → Type 0} {t u : ExecutionTask} → Change Issued t u → Continues t u
unfolding start_task complete_task fail_task finish_task retry_task requeue_task move_task
Change-Continues (claimed worker token now seconds i p e) = ground arith
Change-Continues (started later e) = ground arith
Change-Continues (completed later e) = ground arith
Change-Continues (failed error later e) = ground arith
Change-Continues (parked later e) = ground arith
Change-Continues (retried backoff later e) = ground arith
Change-Continues (cancelled later e) = ground arith
Change-Continues (requeued e) = ground arith
Change-Continues (promoted e) = ground arith
Change-Continues (renewed worker token now expires p e) = ground arith

Changes-Continues : {Issued : ℕ → Type 0} {t u : ExecutionTask} → Changes Issued t u → Continues t u
Changes-Continues here = ground arith
Changes-Continues (next life c) =
    let a = Changes-Continues life in let b = Change-Continues c in ground arith

-- A token that is not issued is not held, once it is not held.
Change-token :
    {Issued : ℕ → Type 0} {t u : ExecutionTask} (token : ℕ)
    → ((k : ℕ) → Issued k → k ≢ token)
    → Change Issued t u
    → holds_id t.lease_token token ≡ false
    → holds_id u.lease_token token ≡ false
unfolding start_task complete_task fail_task finish_task retry_task requeue_task move_task
Change-token token fresh (claimed worker k now seconds i p e) h = ground (arith, fresh k i)
Change-token token fresh (started later e) h = ground arith
Change-token token fresh (completed later e) h = ground arith
Change-token token fresh (failed error later e) h = ground arith
Change-token token fresh (parked later e) h = ground arith
Change-token token fresh (retried backoff later e) h = ground arith
Change-token token fresh (cancelled later e) h = ground arith
Change-token token fresh (requeued e) h = ground arith
Change-token token fresh (promoted e) h = ground arith
Change-token token fresh (renewed worker k now expires p e) h = ground arith

Changes-token :
    {Issued : ℕ → Type 0} {t u : ExecutionTask} (token : ℕ)
    → ((k : ℕ) → Issued k → k ≢ token)
    → Changes Issued t u
    → holds_id t.lease_token token ≡ false
    → holds_id u.lease_token token ≡ false
Changes-token token fresh here h = h
Changes-token token fresh (next life c) h =
    Change-token token fresh c (Changes-token token fresh life h)

-- The states in which a task has run.
abbrev pub has_run : ExecutionTaskStatus → Bool
has_run ExecutionTaskStatus.running = true
has_run ExecutionTaskStatus.retry_wait = true
has_run ExecutionTaskStatus.completed = true
has_run ExecutionTaskStatus.failed = true
has_run _ = false

abbrev pub Counted : ExecutionTask → Type 0
Counted t = has_run t.status ≡ true → 0 < t.attempt

Change-Counted :
    {Issued : ℕ → Type 0} {t u : ExecutionTask} → Change Issued t u → Counted t → Counted u
unfolding start_task complete_task fail_task finish_task retry_task requeue_task move_task
Change-Counted (claimed worker token now seconds i p e) h = ground arith
Change-Counted (started later e) h = ground arith
Change-Counted (completed later e) h = ground arith
Change-Counted (failed error later e) h = ground arith
Change-Counted (parked later e) h = ground arith
Change-Counted (retried backoff later e) h = ground arith
Change-Counted (cancelled later e) h = ground arith
Change-Counted (requeued e) h = ground arith
Change-Counted (promoted e) h = ground arith
Change-Counted (renewed worker token now expires p e) h = ground arith

Changes-Counted :
    {Issued : ℕ → Type 0} {t u : ExecutionTask} → Changes Issued t u → Counted t → Counted u
Changes-Counted here h = h
Changes-Counted (next life c) h = Change-Counted c (Changes-Counted life h)

module _ (Issued : ℕ → Type 0) (calls : List Call) (db : Db) (draws : AllDraw Issued calls)
    (key : ℕ) (row : ExecutionTask) (at : get key db.tasks ≡ some row) where
  -- A task that is completed, failed or cancelled is never written again: after any calls of any
  -- workers its row is the same.
  pub finished_stays :
      is_execution_task_terminal row.status ≡ true → get key (perform_all calls db).tasks ≡ some row
  finished_stays h =
      let (r, e, life) = perform_all-Lives Issued key row calls db draws (row, at, here) in
      e ∙ ap some (Changes-terminal h life)

  -- After any calls the task is still there, belongs to the same run and node run, and has the same
  -- payload, priority, limit of attempts, runner and capability; its attempts have not fallen; and if
  -- it has never run before but has run then, at least one attempt is counted.
  pub task-Continues :
      Counted row
      → (r : ExecutionTask) × (get key (perform_all calls db).tasks ≡ some r)
        × Continues row r
        × Counted r
  task-Continues h =
      let (r, e, life) = perform_all-Lives Issued key row calls db draws (row, at, here) in
      (r, e, Changes-Continues life, Changes-Counted life h)

  pub token_stays_lost :
      (token : ℕ)
      → ((k : ℕ) → Issued k → k ≢ token)
      → holds_id row.lease_token token ≡ false
      → (r : ExecutionTask) × (get key (perform_all calls db).tasks ≡ some r)
        × (holds_id r.lease_token token ≡ false)
  token_stays_lost token fresh h =
      let (r, e, life) = perform_all-Lives Issued key row calls db draws (row, at, here) in
      (r, e, Changes-token token fresh life h)
