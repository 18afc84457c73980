-- ===== src/Queue/Life.antt =====
-- The life of a task row, as a step relation, and that every call of the backend moves the rows along
-- it.
pub mod Rows
pub mod Calls
pub mod Facts
use relayvia.Prelude.{ℕ, ◌+◌, ◌≡◌, true, some}
use relayvia.Errors.{ok}
use relayvia.Json.{Json}
use relayvia.State.ExecutionTask.{ExecutionTaskStatus}
use relayvia.Db.{ExecutionTask}
use relayvia.Queue.Effects.{owns, move_task, finish_task, requeue_task}
use relayvia.Queue.Claim.{start_task, lease_to}
use relayvia.Queue.Report.{complete_task, fail_task, retry_task}
use relayvia.Queue.Upkeep.{retry_due, lease_lost}

-- One write to a row. `Issued` says which lease tokens the claims in question draw.
pub data Change (Issued : ℕ → Type 0) (t t' : ExecutionTask) : Type 0 where
  claimed :
      (worker token now seconds : ℕ)
      → Issued token
      → t.status ≡ ExecutionTaskStatus.pending
      → t' ≡ lease_to worker token now seconds t
      → Change Issued t t'
  started : (later : ℕ) → start_task later t ≡ ok t' → Change Issued t t'
  completed : (later : ℕ) → complete_task later t ≡ ok t' → Change Issued t t'
  failed : (error : Json) (later : ℕ) → fail_task error later t ≡ ok t' → Change Issued t t'
  parked :
      (later : ℕ) → finish_task ExecutionTaskStatus.completed later t ≡ ok t' → Change Issued t t'
  retried : (backoff later : ℕ) → retry_task backoff later t ≡ ok t' → Change Issued t t'
  cancelled :
      (later : ℕ) → finish_task ExecutionTaskStatus.cancelled later t ≡ ok t' → Change Issued t t'
  requeued : requeue_task t ≡ ok t' → Change Issued t t'
  promoted : move_task ExecutionTaskStatus.pending t ≡ ok t' → Change Issued t t'
  renewed :
      (worker token now expires : ℕ)
      → owns t worker token now ≡ true
      → t' ≡ record t { lease_expires_at = some expires }
      → Change Issued t t'

-- A life: writes in sequence.
pub data Changes (Issued : ℕ → Type 0) (t : ExecutionTask) : ExecutionTask → Type 0 where
  here : Changes Issued t t
  next : {u v : ExecutionTask} → Changes Issued t u → Change Issued u v → Changes Issued t v
