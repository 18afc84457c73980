-- ===== src/Runners/Tasks/Sound.antt =====
-- The calls of a Runner keep the rows sound.
use relayvia.Prelude.{
  ℕ, ◌+◌, String, Bool, true, false, not, ◌&&◌, Option, none, some, List, ◌≡◌, refl, inl, inr,
  arith, Bool-cases, Option-cases,
}
use relayvia.Table.{Table, get}
use relayvia.State.ExecutionTask.{ExecutionTaskStatus}
use relayvia.State.ExecutionTask
use relayvia.Db.{ExecutionTask, Db}
use relayvia.Db.Keeps.{Commits, Commits-continue, Commits-if}
use relayvia.Queue.Effects.{settle, move_task, node_status, move_node}
use relayvia.Queue.Claim.{claim_candidate, run_is_running, lease_to, start_task}
use relayvia.Queue.Sound.{IsSound, Suits, settle-IsSound, locks_set}
use relayvia.Queue.Sound.Claims.{held_pair, renewed-IsSound}
use relayvia.Scheduler.Reconcile.Loops.{rest-IsSound}
use relayvia.Runners.Registry.{Runner}
use relayvia.Runners.Tasks.{
  node_started_on, workspace_in_use, claimant, runner_take, runner_claim, must_stop, holds_task,
  heartbeat_row, runner_task_heartbeat,
}

started-Suits :
    (task : ExecutionTask) (attempt now : ℕ)
    → locks_set task ≡ true
    → Suits task (start_task now) (node_started_on attempt now)
unfolding start_task move_task node_started_on node_status move_node
started-Suits task attempt now locked = record { suits = λ t n n' ht hn c. ground arith }

workspace-IsSound :
    (runner_id : ℕ) (key : Option ℕ) (db : Db)
    → IsSound db
    → Commits IsSound (workspace_in_use runner_id key db)
unfolding workspace_in_use
workspace-IsSound runner_id none db sound = sound
workspace-IsSound runner_id (some key) db sound = elim (Option-cases (get key db.workspaces)) [
  | inl e ↦ rw e sound
  | inr (w, e) ↦
      rw e (record { paired = sound.paired; leased = sound.leased; single = sound.single })
]

module _ (db : Db) (sound : IsSound db) (runner_id : ℕ) where
  module _ (capabilities : List String) (token now seconds : ℕ) where
    runner_take-IsSound :
        (id : ℕ) (task : ExecutionTask)
        → get id db.tasks ≡ some task
        → ExecutionTask.is task.status ExecutionTaskStatus.pending ≡ true
        → Commits IsSound (runner_take runner_id token now seconds id task db)
    unfolding runner_take
    runner_take-IsSound id task at waits =
        let held = lease_to runner_id token now seconds task in
        Commits-continue IsSound
          (settle id held (start_task now) (node_started_on (task.attempt + 1) now) none db) _
          (settle-IsSound db sound id task held (start_task now)
            (node_started_on (task.attempt + 1) now) none at refl
            (held_pair db sound (claimant runner_id capabilities) token now seconds id task at
              waits)
            (started-Suits held (task.attempt + 1) now refl))
          (λ _ d s.
            Commits-continue IsSound (workspace_in_use runner_id task.payload.workspace d) _
              (workspace-IsSound runner_id task.payload.workspace d s)
              (λ _ e t. rest-IsSound e e.runs _ t))

    pub runner_claim-IsSound :
        (seen : Db) (skipped : Bool)
        → Commits IsSound (runner_claim seen runner_id capabilities token now seconds skipped db)
    unfolding runner_claim
    runner_claim-IsSound seen skipped =
        elim (Option-cases (claim_candidate (claimant runner_id capabilities) now seen)) [
          | inl e ↦ rw (e, runner_claim) sound
          | inr ((id, candidate), e) ↦
              rw (e, runner_claim)
                (Commits-if IsSound
                  (run_is_running (get candidate.workflow_run_id db.runs) && not skipped) _ _
                  (λ _. elim (Option-cases (get id db.tasks)) [
                    | inl o ↦ rw o sound
                    | inr (task, o) ↦ rw o (
                        Commits-if IsSound
                          (ExecutionTask.is task.status ExecutionTaskStatus.pending) _ _
                          (runner_take-IsSound id task o) (λ _. sound))
                  ])
                  (λ _. sound))
        ]

  running_locks :
      (id : ℕ) (task : ExecutionTask)
      → get id db.tasks ≡ some task
      → must_stop task db ≡ false
      → locks_set task ≡ true
  unfolding must_stop
  running_locks id task at h = ground (arith, sound.leased id task at)

  pub runner_task_heartbeat-IsSound :
      (registry : Table Runner) (id token seconds now : ℕ)
      → Commits IsSound (runner_task_heartbeat registry runner_id id token seconds now db)
  unfolding runner_task_heartbeat heartbeat_row
  runner_task_heartbeat-IsSound registry id token seconds now =
      elim (Option-cases (get id db.tasks)) [
        | inl e ↦ rw e tt
        | inr (task, e) ↦ elim (Bool-cases (holds_task runner_id token task)) [
          | inr o ↦ rw (e, o) tt
          | inl o ↦ elim (Bool-cases (must_stop task db)) [
            | inl m ↦ rw (e, o, m) sound
            | inr m ↦
                rw (e, o, m)
                  (renewed-IsSound db sound id (now + seconds) task e (running_locks id task e m))
          ]
        ]
      ]
