-- ===== src/Scheduler/Reconcile/Sound.antt =====
-- The reconciliation of a run keeps the rows sound.
use relayvia.Prelude.{ℕ, ◌||◌, some, [], inl, inr, Option-cases, if◌then◌else◌}
use relayvia.Errors.{Result-cases}
use relayvia.Table.{Table, get, put, rows_where}
use relayvia.State.WorkflowRun.{WorkflowRunStatus}
use relayvia.State.WorkflowRun
use relayvia.Db.{WorkflowRun, NodeRun, Db, pure, ◌>>=◌}
use relayvia.Db.Keeps.{Commits, Commits-continue, Commits-then, Commits-if, Commits-if_tx}
use relayvia.Queue.Sound.{IsSound}
use relayvia.Runs.Cancel.{cancel_run_tasks, move_run}
use relayvia.Scheduler.Derive.{derive_workflow_state}
use relayvia.Scheduler.Dispatch.{Collaborators}
use relayvia.Scheduler.Submit.{in_run, schedule_ready_nodes}
use relayvia.Scheduler.Submit.Sound.{schedule_ready_nodes-IsSound}
use relayvia.Scheduler.Waits.{promote_due_waits}
use relayvia.Scheduler.Reconcile.{
  workflow_event, finish_reconcile, stamped, change_state, derive_state, reconcile_found,
  reconcile_run,
}
use relayvia.Scheduler.Reconcile.Loops.{
  rest-IsSound, promote_due_waits-IsSound, cancel_run_tasks-IsSound,
}

module _ (c : Collaborators) (task_key workspace_key : ℕ → ℕ) (now run_id : ℕ) where
  finish_reconcile-IsSound :
      (derived : WorkflowRunStatus) (rows : Table NodeRun) (run : WorkflowRun) (db : Db)
      → IsSound db
      → Commits IsSound (finish_reconcile c task_key workspace_key now run_id derived rows run db)
  unfolding finish_reconcile
  finish_reconcile-IsSound derived rows run db sound =
      Commits-continue IsSound
        ((if WorkflowRun.is derived WorkflowRunStatus.running
            then schedule_ready_nodes c task_key workspace_key now run_id
            else pure [])
          db)
        _
        (Commits-if_tx IsSound (WorkflowRun.is derived WorkflowRunStatus.running)
          (schedule_ready_nodes c task_key workspace_key now run_id) (pure []) db
          (λ _. schedule_ready_nodes-IsSound c task_key workspace_key now run_id db sound)
          (λ _. sound))
        (λ _ d s. rest-IsSound d _ d.events s)

  evented-IsSound :
      (derived : WorkflowRunStatus) (db : Db)
      → IsSound db
      → Commits IsSound (workflow_event run_id derived db)
  unfolding workflow_event
  evented-IsSound WorkflowRunStatus.created db sound = sound
  evented-IsSound WorkflowRunStatus.running db sound = rest-IsSound db db.runs _ sound
  evented-IsSound WorkflowRunStatus.waiting db sound = rest-IsSound db db.runs _ sound
  evented-IsSound WorkflowRunStatus.paused db sound = sound
  evented-IsSound WorkflowRunStatus.completed db sound = rest-IsSound db db.runs _ sound
  evented-IsSound WorkflowRunStatus.failed db sound = rest-IsSound db db.runs _ sound
  evented-IsSound WorkflowRunStatus.cancelled db sound = rest-IsSound db db.runs _ sound

  change_state-IsSound :
      (derived : WorkflowRunStatus) (rows : Table NodeRun) (run : WorkflowRun) (db : Db)
      → IsSound db
      → Commits IsSound (change_state c task_key workspace_key now run_id derived rows run db)
  unfolding change_state
  change_state-IsSound derived rows run db sound = elim (Result-cases (move_run derived run)) [
    | inr (e, h) ↦ rw h tt
    | inl (run', h) ↦ rw h (
        Commits-continue IsSound
          ((if WorkflowRun.is derived WorkflowRunStatus.failed
              then cancel_run_tasks run_id now
              else pure tt)
            (record db {
              runs = put run_id (stamped c task_key workspace_key now run_id run' now) db.runs;
            }))
          _
          (Commits-if_tx IsSound (WorkflowRun.is derived WorkflowRunStatus.failed)
            (cancel_run_tasks run_id now) (pure tt) _
            (λ _. cancel_run_tasks-IsSound run_id now _ (rest-IsSound db _ db.events sound))
            (λ _. rest-IsSound db _ db.events sound))
          (λ _ d s.
            Commits-continue IsSound (workflow_event run_id derived d) _
              (evented-IsSound derived d s)
              (λ _ d' s'.
                finish_reconcile-IsSound derived rows
                  (stamped c task_key workspace_key now run_id run' now) d' s')))
  ]

  derive_state-IsSound :
      (run : WorkflowRun) (db : Db)
      → IsSound db
      → Commits IsSound (derive_state c task_key workspace_key now run_id run db)
  unfolding derive_state
  derive_state-IsSound run db sound =
      let rows = rows_where (in_run run_id) db.node_runs in
      let derived = derive_workflow_state run.graph_snapshot rows in
      Commits-if IsSound (WorkflowRun.is derived run.status)
        (finish_reconcile c task_key workspace_key now run_id derived rows run db)
        (change_state c task_key workspace_key now run_id derived rows run db)
        (λ _. finish_reconcile-IsSound derived rows run db sound)
        (λ _. change_state-IsSound derived rows run db sound)

  live-IsSound :
      (run : WorkflowRun) (db : Db)
      → IsSound db
      → Commits IsSound (
          (promote_due_waits c now run_id >>= λ _.
          schedule_ready_nodes c task_key workspace_key now run_id >>= λ _.
          derive_state c task_key workspace_key now run_id run)
            db)
  live-IsSound run db sound =
      Commits-continue IsSound (promote_due_waits c now run_id db) _
        (promote_due_waits-IsSound c now run_id db sound)
        (λ _ d s.
          Commits-continue IsSound (schedule_ready_nodes c task_key workspace_key now run_id d) _
            (schedule_ready_nodes-IsSound c task_key workspace_key now run_id d s)
            (λ _ d' s'. derive_state-IsSound run d' s'))

  -- The reconciliation of a run, with whatever the resolver and the other collaborators answer and
  -- whatever keys are drawn, keeps the rows of tasks and node runs sound.
  pub reconcile_run-IsSound :
      (db : Db)
      → IsSound db
      → Commits IsSound (reconcile_run c task_key workspace_key now run_id db)
  unfolding reconcile_run reconcile_found
  reconcile_run-IsSound db sound = elim (Option-cases (get run_id db.runs)) [
    | inl e ↦ rw e sound
    | inr (run, e) ↦ rw e (
        Commits-if_tx IsSound (WorkflowRun.is run.status WorkflowRunStatus.cancelled) _ _ db
          (λ _.
            Commits-then IsSound (cancel_run_tasks run_id now db) (some run.status)
              (cancel_run_tasks-IsSound run_id now db sound))
          (λ _.
            Commits-if_tx IsSound
              (WorkflowRun.is run.status WorkflowRunStatus.completed
                || (WorkflowRun.is run.status WorkflowRunStatus.failed
                    || WorkflowRun.is run.status WorkflowRunStatus.paused))
              (pure (some run.status)) _ db (λ _. sound) (λ _. live-IsSound run db sound)))
  ]
