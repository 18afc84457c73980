-- ===== src/Queue/Sound/Claims.antt =====
-- The operations that write a task alone, or a new one, keep the rows sound: `renew_lease`, `claim`
-- and `submit`.
use relayvia.Prelude.{
  ℕ, Bool, true, none, some, ◌≡◌, refl, arith, ◌+◌, ◌==◌, inl, inr, Option-cases,
}
use relayvia.Errors.{ErrorCode, err}
use relayvia.Table.{get, put, get-put, no_keys-get}
use relayvia.State.NodeRun.{NodeRunStatus}
use relayvia.State.ExecutionTask.{ExecutionTaskStatus}
use relayvia.State.ExecutionTask
use relayvia.Db.{ExecutionTask, NodeRun, RunEventType, Payload, Db, pure, put_task, ◌>>◌}
use relayvia.Db.Keeps.{Commits, Commits-then, Commits-if, Commits-if_tx}
use relayvia.Queue.Effects.{settle, node_status}
use relayvia.Queue.Claim.{Claimant, claim, take, start_task, lease_to, claimed_task}
use relayvia.Queue.Report.{Lease, renew_lease}
use relayvia.Queue.Upkeep.{may_insert, new_task, submit}
use relayvia.Queue.Rules.{Commits-claim}
use relayvia.Queue.Sound.{IsSound, settle-IsSound, write_task, lease_fits, locks_set, couples}
use relayvia.Queue.Sound.Changes.{start-Suits}
use relayvia.Queue.Sound.Steps.{guarded-IsSound, leased}

-- The node run, if there is one under the key, is queued.
abbrev pub IsQueued : ℕ → Db → Type 0
IsQueued node_run db =
    (n : NodeRun) → get node_run db.node_runs ≡ some n → n.status ≡ NodeRunStatus.queued

inserted_pair :
    (key : ℕ) (task : ExecutionTask) (db : Db)
    → IsQueued task.node_run_id db
    → may_insert key task db ≡ true
    → couples ExecutionTaskStatus.pending (get task.node_run_id db.node_runs) ≡ true
unfolding may_insert
inserted_pair key task db queued may = elim (Option-cases (get task.node_run_id db.node_runs)) [
  | inl e ↦ ground arith
  | inr (n, e) ↦ let q = queued n e in ground arith
]

module _ (db : Db) (sound : IsSound db) where
  pub renewed-IsSound :
      (key expires : ℕ) (task : ExecutionTask)
      → get key db.tasks ≡ some task
      → locks_set task ≡ true
      → IsSound
          (record db { tasks = put key (record task { lease_expires_at = some expires }) db.tasks })
  renewed-IsSound key expires task at locked =
      write_task db sound key task at (record task { lease_expires_at = some expires }) refl
        (sound.paired key task at) (renewed task locked (leased db sound key task at))
    where
      renewed :
          (t : ExecutionTask)
          → locks_set t ≡ true
          → lease_fits t.status t ≡ true
          → lease_fits t.status (record t { lease_expires_at = some expires }) ≡ true
      renewed t l h = ground arith

  pub renew_lease-IsSound :
      (lease : Lease) (seconds now later : ℕ)
      → Commits IsSound (renew_lease lease seconds now later db)
  unfolding renew_lease
  renew_lease-IsSound lease seconds now later =
      guarded-IsSound db sound lease now _
        λ task at locked. renewed-IsSound lease.task_id (later + seconds) task at locked

  module _ (who : Claimant) (token now seconds key : ℕ) (task : ExecutionTask)
      (at : get key db.tasks ≡ some task)
      (waits : ExecutionTask.is task.status ExecutionTaskStatus.pending ≡ true) where
    pub held_pair : couples ExecutionTaskStatus.claimed (get task.node_run_id db.node_runs) ≡ true
    held_pair = ground (arith, sound.paired key task at)

    take-IsSound : Commits IsSound (take who token now seconds key task db)
    unfolding take
    take-IsSound =
        let held = lease_to who.worker_id token now seconds task in
        Commits-if_tx IsSound who.auto_start
          (do
            settle key held (start_task now) (node_status NodeRunStatus.running true)
                (some RunEventType.node_started)
            pure (some (claimed_task key who.worker_id token now seconds (task.attempt + 1) task)))
          (do
            put_task key held
            pure (some (claimed_task key who.worker_id token now seconds task.attempt task)))
          db
          (λ _.
            Commits-then IsSound
              (settle key held (start_task now) (node_status NodeRunStatus.running true)
                (some RunEventType.node_started) db)
              _
              (settle-IsSound db sound key task held (start_task now)
                (node_status NodeRunStatus.running true) (some RunEventType.node_started) at refl
                held_pair (start-Suits held refl now)))
          (λ _. write_task db sound key task at held refl held_pair refl)

  pub claim-IsSound :
      (seen : Db) (who : Claimant) (token now seconds : ℕ) (skipped : Bool)
      → Commits IsSound (claim seen who token now seconds skipped db)
  claim-IsSound seen who token now seconds skipped =
      Commits-claim IsSound db sound who token now seconds skipped seen
        (λ key task at waits. take-IsSound who token now seconds key task at waits)

  -- A new task of a node run that is queued.
  pub insert_task-IsSound :
      (key : ℕ) (task : ExecutionTask)
      → task.status ≡ ExecutionTaskStatus.pending
      → lease_fits ExecutionTaskStatus.pending task ≡ true
      → couples ExecutionTaskStatus.pending (get task.node_run_id db.node_runs) ≡ true
      → may_insert key task db ≡ true
      → IsSound (record db { tasks = put key task db.tasks })
  unfolding may_insert
  insert_task-IsSound key task fresh clear queued may = record {
    paired = λ i u h. ground (arith, get-put key i task db.tasks, sound.paired i u);
    leased = λ i u h. ground (arith, get-put key i task db.tasks, sound.leased i u);
    single = λ i j u v hi hj e. ground (
      arith,
      get-put key i task db.tasks,
      get-put key j task db.tasks,
      sound.single i j u v,
      no_keys-get (λ (t : ExecutionTask). t.node_run_id == task.node_run_id) i u db.tasks,
      no_keys-get (λ (t : ExecutionTask). t.node_run_id == task.node_run_id) j v db.tasks,
    );
  }

  pub submit-IsSound :
      (key run node_run : ℕ) (payload : Payload) (priority max_attempts available_at now : ℕ)
      → IsQueued node_run db
      → Commits IsSound (submit key run node_run payload priority max_attempts available_at now db)
  unfolding submit
  submit-IsSound key run node_run payload priority max_attempts available_at now queued =
      let task = new_task run node_run payload priority max_attempts available_at none none now in
      Commits-then IsSound _ key (
        Commits-if IsSound (may_insert key task db) (put_task key task db)
          (err ErrorCode.integrity_error)
          (λ may. insert_task-IsSound key task refl refl (inserted_pair key task db queued may) may)
          (λ _. tt))
