-- ===== src/Scheduler/Reconcile/Loops.antt =====
-- The loops of a reconciliation keep the rows sound: the waits that are due, and the cancellation of tasks.
use relayvia.Prelude.{
  ℕ, Bool, true, some, List, ◌==◌, ◌≡◌, sym, ap, ◌∙◌, inl, inr, arith, Bool-cases, Option-cases,
}
use relayvia.Errors.{Result-cases}
use relayvia.Table.{Table, get, put, get-put, keys_where, no_keys}
use relayvia.State.NodeRun.{NodeRunStatus}
use relayvia.State.NodeRun
use relayvia.State.ExecutionTask.{ExecutionTaskStatus}
use relayvia.Db.{WorkflowRun, NodeRun, RunEvent, RunEventType, Db, Tx, pure}
use relayvia.Db.Keeps.{
  Commits, Commits-continue, Commits-then, Commits-if, Commits-if_tx, Commits-for_each,
}
use relayvia.Queue.Effects.{move_node}
use relayvia.Queue.Rules.{Commits-at_task}
use relayvia.Queue.Upkeep.{at_task}
use relayvia.Queue.Sound.{IsSound, couples, coupled}
use relayvia.Queue.Sound.Steps.{settle_row, leased}
use relayvia.Queue.Sound.Changes.{cancel-Suits}
use relayvia.Runs.Cancel.{
  at_node_run, live_task, cancel_task, cancel_tasks, pending_node, cancel_node,
  cancel_pending_nodes, cancel_run_tasks,
}
use relayvia.Scheduler.Dispatch.{Collaborators}
use relayvia.Scheduler.Submit.Sound.{move_node_status}
use relayvia.Scheduler.Waits.{wait_due, wait_fails, promote_wait, promote_due_waits}

-- a node run gets a status that fits the same tasks
pub recoupled-IsSound :
    (db : Db) (key : ℕ) (n n' : NodeRun) (events : List RunEvent)
    → IsSound db
    → get key db.node_runs ≡ some n
    → ((s : ExecutionTaskStatus) → coupled s n.status ≡ true → coupled s n'.status ≡ true)
    → IsSound (record db { node_runs = put key n' db.node_runs; events = events })
recoupled-IsSound db key n n' events sound at fits = record {
  paired = λ i t h. elim (Bool-cases (key == t.node_run_id)) [
    | inr e ↦
        ap (couples t.status) (get-put key t.node_run_id n' db.node_runs)
        ∙ rw e (sound.paired i t h)
    | inl e ↦
        let same : key ≡ t.node_run_id = ground arith in
        ap (couples t.status) (get-put key t.node_run_id n' db.node_runs)
        ∙ rw e (
            fits t.status (
              ap (couples t.status) (sym at ∙ ap (λ k. get k db.node_runs) same)
              ∙ sound.paired i t h))
  ];
  leased = sound.leased;
  single = sound.single;
}

-- the rows of runs and the events are not in question
pub rest-IsSound :
    (db : Db) (runs : Table WorkflowRun) (events : List RunEvent)
    → IsSound db
    → IsSound (record db { runs = runs; events = events })
rest-IsSound db runs events sound = record {
  paired = sound.paired;
  leased = sound.leased;
  single = sound.single;
}

Commits-at_node_run :
    (db : Db)
    → IsSound db
    → (p : NodeRun → Bool) (body : ℕ → NodeRun → Tx (Unit {0})) (key : ℕ)
    → ((n : NodeRun) → get key db.node_runs ≡ some n → p n ≡ true → Commits IsSound (body key n db))
    → Commits IsSound (at_node_run p body key db)
Commits-at_node_run db sound p body key keep = elim (Option-cases (get key db.node_runs)) [
  | inl e ↦ rw e sound
  | inr (n, e) ↦
      rw e (Commits-if_tx IsSound (p n) (body key n) (pure tt) db (keep n e) (λ _. sound))
]

module _ (c : Collaborators) (now run_id : ℕ) where
  promote_wait-IsSound :
      (key : ℕ) (db : Db)
      → IsSound db
      → Commits IsSound (at_node_run (wait_due c now run_id) (promote_wait now run_id) key db)
  unfolding promote_wait wait_due
  promote_wait-IsSound key db sound =
      Commits-at_node_run db sound (wait_due c now run_id) (promote_wait now run_id) key λ n at due.
        elim (Result-cases (move_node NodeRunStatus.completed n)) [
          | inr (e, h) ↦ rw h tt
          | inl (n', h) ↦ rw h (
              recoupled-IsSound db key n _ _ sound at (λ s f.
                ap (coupled s) (move_node_status NodeRunStatus.completed n n' h)
                ∙ waiting_done s n (waits n due) f))
        ]
    where
      waiting_done :
          (s : ExecutionTaskStatus) (n : NodeRun)
          → NodeRun.is n.status NodeRunStatus.waiting ≡ true
          → coupled s n.status ≡ true
          → coupled s NodeRunStatus.completed ≡ true
      waiting_done s n w f = ground arith

      waits :
          (n : NodeRun)
          → wait_due c now run_id n ≡ true
          → NodeRun.is n.status NodeRunStatus.waiting ≡ true
      waits n due = ground arith

  pub promote_due_waits-IsSound :
      (db : Db) → IsSound db → Commits IsSound (promote_due_waits c now run_id db)
  unfolding promote_due_waits
  promote_due_waits-IsSound db sound =
      Commits-if IsSound (no_keys (keys_where (wait_fails c run_id) db.node_runs)) _ _
        (λ _. Commits-then IsSound _ _ (Commits-for_each IsSound _ promote_wait-IsSound _ db sound))
        (λ _. tt)

module _ (run_id now : ℕ) where
  cancel_task-IsSound :
      (key : ℕ) (db : Db)
      → IsSound db
      → Commits IsSound (at_task (live_task run_id) (cancel_task now) key db)
  unfolding cancel_task
  cancel_task-IsSound key db sound =
      Commits-at_task IsSound db sound (live_task run_id) (cancel_task now) key λ task at live.
        settle_row db sound key task at (some RunEventType.node_cancelled)
          (cancel-Suits task (leased db sound key task at) now)

  cancel_node-IsSound :
      (key : ℕ) (db : Db)
      → IsSound db
      → Commits IsSound (at_node_run (pending_node run_id) (cancel_node now) key db)
  unfolding cancel_node
  cancel_node-IsSound key db sound =
      Commits-at_node_run db sound (pending_node run_id) (cancel_node now) key λ n at p.
        elim (Result-cases (move_node NodeRunStatus.cancelled n)) [
          | inr (e, h) ↦ rw h tt
          | inl (n', h) ↦
              rw h
                (recoupled-IsSound db key n _ db.events sound at (λ s f. absurd (untasked s n p f)))
        ]
    where
      untasked :
          (s : ExecutionTaskStatus) (n : NodeRun)
          → pending_node run_id n ≡ true
          → coupled s n.status ≡ true
          → ⊥
      untasked s n p f = absurd (ground arith)

  pub cancel_run_tasks-IsSound :
      (db : Db) → IsSound db → Commits IsSound (cancel_run_tasks run_id now db)
  unfolding cancel_run_tasks cancel_tasks cancel_pending_nodes
  cancel_run_tasks-IsSound db sound =
      Commits-continue IsSound (cancel_tasks run_id now db) (λ _. cancel_pending_nodes run_id now)
        (Commits-for_each IsSound _ cancel_task-IsSound _ db sound)
        (λ _ d s. Commits-for_each IsSound _ cancel_node-IsSound _ d s)
