-- ===== src/Runs/Recovery.antt =====
-- backend/app/runtime/recovery/execution_recovery.py: lost leases, due retries, and then every active run
-- in one transaction.
use relayvia.Prelude.{ℕ, Bool, true, false, ◌||◌}
use relayvia.Errors.{ok, err}
use relayvia.Table.{keys_where}
use relayvia.State.WorkflowRun.{WorkflowRunStatus}
use relayvia.State.WorkflowRun
use relayvia.Db.{WorkflowRun, Tx, pure, for_each, ◌>>=◌, ◌>>◌}
use relayvia.Queue.Upkeep.{recover_expired, promote_due_retries}
use relayvia.Runs.Commit.{Request, commit_then}
use relayvia.Scheduler.Dispatch.{Collaborators}
use relayvia.Scheduler.Reconcile.{reconcile_run}

unfoldable pub is_active : WorkflowRun → Bool
is_active run =
    WorkflowRun.is run.status WorkflowRunStatus.running
    || (WorkflowRun.is run.status WorkflowRunStatus.paused
        || WorkflowRun.is run.status WorkflowRunStatus.waiting)

module _ (c : Collaborators) (task_key workspace_key : ℕ → ℕ) (now : ℕ) where
  -- an error of one reconciliation rolls all of them back
  unfoldable pub reconcile_active : Tx (Unit {0})
  unfolding is_active reconcile_run
  reconcile_active db =
      for_each (λ id. reconcile_run c task_key workspace_key now id >>= λ _. pure tt)
        (keys_where is_active db.runs) db

  abbrev pub after_expired : Bool → (ℕ → Bool) → ℕ → Request (ℕ × ℕ)
  after_expired true locked expired =
      commit_then (promote_due_retries locked now) λ due. reconcile_active >> pure (expired, due)
  after_expired false locked expired =
      commit_then (promote_due_retries locked now) λ due. pure (expired, due)

  -- The three transactions, the last one if it is asked for. `locked` says which tasks another
  -- transaction holds.
  unfoldable pub run_execution_recovery : Bool → (ℕ → Bool) → Request (ℕ × ℕ)
  unfolding recover_expired promote_due_retries reconcile_active
  run_execution_recovery with_active locked db = elim (recover_expired locked now db) [
    | ok (expired, after) ↦ after_expired with_active locked expired after
    | err e ↦ (err e, db)
  ]
