-- ===== src/Queue/Sound/Changes.antt =====
-- The changes that the operations make to a task and to its node run suit each other.
use relayvia.Prelude.{ℕ, true, ◌≡◌, List, arith}
use relayvia.Errors.{ok}
use relayvia.Json.{Json}
use relayvia.State.NodeRun.{NodeRunStatus}
use relayvia.State.ExecutionTask.{ExecutionTaskStatus}
use relayvia.Db.{ExecutionTask, WaitingReason}
use relayvia.Queue.Effects.{
  move_task, node_status, node_completed, node_failed, node_cancelled, finish_task, requeue_task,
}
use relayvia.Queue.Claim.{start_task}
use relayvia.Queue.Report.{complete_task, fail_task, park_node, retry_task}
use relayvia.Queue.Upkeep.{retry_due}
use relayvia.Queue.Sound.{lease_fits, locks_set, Suits}

module _ (task : ExecutionTask) (leased : lease_fits task.status task ≡ true) where
  pub start-Suits :
      (later : ℕ) → Suits task (start_task later) (node_status NodeRunStatus.running true)
  unfolding start_task node_status
  start-Suits later = record { suits = λ t n n' ht hn c. ground arith }

  pub complete-Suits :
      (output metadata : Json) (artifacts : List Json) (later : ℕ)
      → Suits task (complete_task later) (node_completed output metadata artifacts later)
  unfolding complete_task node_completed
  complete-Suits output metadata artifacts later = record { suits = λ t n n' ht hn c. ground arith }

  pub fail-Suits :
      (error metadata : Json) (artifacts : List Json) (later : ℕ)
      → Suits task (fail_task error later) (node_failed error metadata artifacts later)
  unfolding fail_task node_failed
  fail-Suits error metadata artifacts later = record { suits = λ t n n' ht hn c. ground arith }

  pub park-Suits :
      (reason : WaitingReason) (metadata : Json) (later : ℕ)
      → Suits task (finish_task ExecutionTaskStatus.completed later) (park_node reason metadata)
  unfolding finish_task park_node
  park-Suits reason metadata later = record { suits = λ t n n' ht hn c. ground arith }

  pub retry-Suits :
      (backoff later : ℕ)
      → Suits task (retry_task backoff later) (node_status NodeRunStatus.retrying true)
  unfolding retry_task node_status
  retry-Suits backoff later = record { suits = λ t n n' ht hn c. ground arith }

  pub cancel-Suits :
      (later : ℕ)
      → Suits task (finish_task ExecutionTaskStatus.cancelled later) (node_cancelled later)
  unfolding finish_task node_cancelled
  cancel-Suits later = record { suits = λ t n n' ht hn c. ground arith }

  pub requeue-Suits : locks_set task ≡ true → Suits task requeue_task ok
  unfolding requeue_task
  requeue-Suits locked = record { suits = λ t n n' ht hn c. ground arith }

  pub promote-Suits :
      (now : ℕ)
      → retry_due now task ≡ true
      → Suits task (move_task ExecutionTaskStatus.pending) (node_status NodeRunStatus.queued true)
  unfolding move_task node_status retry_due
  promote-Suits now due = record { suits = λ t n n' ht hn c. ground arith }
