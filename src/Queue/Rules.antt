-- ===== src/Queue/Rules.antt =====
-- Rules for what the operations of the backend share: the guard of a report, the rounds of a loop and
-- the course of a claim. `P` is any property of the database.
use relayvia.Prelude.{ℕ, Bool, true, false, not, ◌&&◌, none, some, ◌≡◌, inl, inr, Option-cases}
use relayvia.Errors.{ErrorCode, Result}
use relayvia.Json.{Json, may_spread}
use relayvia.Table.{get}
use relayvia.State.ExecutionTask.{ExecutionTaskStatus}
use relayvia.State.ExecutionTask
use relayvia.Db.{ExecutionTask, Db, Tx, pure, raise, continue}
use relayvia.Db.Keeps.{Commits, Commits-if, Commits-if_tx, Commits-after}
use relayvia.Queue.Effects.{owns}
use relayvia.Queue.Claim.{Claimant, claim, claim_candidate, claim_locked, take, run_is_running}
use relayvia.Queue.Report.{Lease, guarded, trace_arguments, trace_waiting}
use relayvia.Queue.Upkeep.{at_task}

-- what `wait_node` checks last
pub Commits-traced :
    (P : Db → Type 0) (metadata : Json) (r : Result (Unit {0} × Db))
    → Commits P r
    → Commits P (continue r (λ _. trace_waiting metadata))
unfolding trace_waiting
Commits-traced P metadata r h =
    Commits-after P P r (λ _. trace_waiting metadata) h
      λ _ after kept.
        Commits-if_tx P (may_spread trace_arguments metadata) (pure true)
          (raise ErrorCode.type_error) after (λ _. kept) (λ _. tt)

module _ (P : Db → Type 0) (db : Db) (holds : P db) where
  pub Commits-guarded :
      (lease : Lease) (now : ℕ) (body : ExecutionTask → Tx Bool)
      → ((task : ExecutionTask)
          → get lease.task_id db.tasks ≡ some task
          → owns task lease.worker_id lease.lease_token now ≡ true
          → Commits P (body task db))
      → Commits P (guarded lease now body db)
  unfolding guarded
  Commits-guarded lease now body keep = elim (Option-cases (get lease.task_id db.tasks)) [
    | inl e ↦ rw e holds
    | inr (task, e) ↦ rw e (
        Commits-if_tx P (owns task lease.worker_id lease.lease_token now) (body task) (pure false)
          db (keep task e) (λ _. holds))
  ]

  pub Commits-at_task :
      (p : ExecutionTask → Bool) (body : ℕ → ExecutionTask → Tx (Unit {0})) (key : ℕ)
      → ((task : ExecutionTask)
          → get key db.tasks ≡ some task
          → p task ≡ true
          → Commits P (body key task db))
      → Commits P (at_task p body key db)
  Commits-at_task p body key keep = elim (Option-cases (get key db.tasks)) [
    | inl e ↦ rw e holds
    | inr (task, e) ↦
        rw e (Commits-if_tx P (p task) (body key task) (pure tt) db (keep task e) (λ _. holds))
  ]

  module _ (who : Claimant) (token now seconds : ℕ) (skipped : Bool) where
    pub Commits-claim_locked :
        (key : ℕ) (candidate : ExecutionTask)
        → ((task : ExecutionTask)
            → get key db.tasks ≡ some task
            → ExecutionTask.is task.status ExecutionTaskStatus.pending ≡ true
            → Commits P (take who token now seconds key task db))
        → Commits P (claim_locked who token now seconds skipped key candidate db)
    unfolding claim_locked
    Commits-claim_locked key candidate keep =
        Commits-if P (run_is_running (get candidate.workflow_run_id db.runs) && not skipped) _ _
          (λ _. elim (Option-cases (get key db.tasks)) [
            | inl e ↦ rw e holds
            | inr (task, e) ↦ rw e (
                Commits-if_tx P (ExecutionTask.is task.status ExecutionTaskStatus.pending)
                  (take who token now seconds key task) (pure none) db (keep task e) (λ _. holds))
          ])
          (λ _. holds)

    pub Commits-claim :
        (seen : Db)
        → ((key : ℕ) (task : ExecutionTask)
            → get key db.tasks ≡ some task
            → ExecutionTask.is task.status ExecutionTaskStatus.pending ≡ true
            → Commits P (take who token now seconds key task db))
        → Commits P (claim seen who token now seconds skipped db)
    unfolding claim
    Commits-claim seen keep = elim (Option-cases (claim_candidate who now seen)) [
      | inl e ↦ rw (e, claim) holds
      | inr ((key, candidate), e) ↦ rw (e, claim) (Commits-claim_locked key candidate (keep key))
    ]
