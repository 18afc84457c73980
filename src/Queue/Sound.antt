-- ===== src/Queue/Sound.antt =====
-- The well-formedness of the queue: what the rows of a task and of its node run say of each other.
pub mod Changes
pub mod Steps
pub mod Claims
pub mod Trace
use relayvia.Prelude.{
  ℕ, Bool, true, false, not, ◌&&◌, Option, none, some, ◌≡◌, refl, ◌∷◌, [], ◌++◌, List, is_some,
  arith, inl, inr, ◌∙◌, ◌==◌, if◌then◌else◌,
}
use relayvia.Errors.{ErrorCode, Result, ok, err, Result-cases}
use relayvia.Table.{get, put, get-put}
use relayvia.State.NodeRun.{NodeRunStatus}
use relayvia.State.ExecutionTask.{ExecutionTaskStatus}
use relayvia.Db.{ExecutionTask, NodeRun, RunEvent, RunEventType, Db, Tx}
use relayvia.Db.Keeps.{Commits}
use relayvia.Queue.Effects.{settle}

-- The statuses that a task and its node run have together.
abbrev pub coupled : ExecutionTaskStatus → NodeRunStatus → Bool
coupled ExecutionTaskStatus.pending NodeRunStatus.queued = true
coupled ExecutionTaskStatus.pending NodeRunStatus.running = true
coupled ExecutionTaskStatus.claimed NodeRunStatus.queued = true
coupled ExecutionTaskStatus.claimed NodeRunStatus.running = true
coupled ExecutionTaskStatus.running NodeRunStatus.running = true
coupled ExecutionTaskStatus.retry_wait NodeRunStatus.retrying = true
coupled ExecutionTaskStatus.completed NodeRunStatus.completed = true
coupled ExecutionTaskStatus.completed NodeRunStatus.waiting = true
coupled ExecutionTaskStatus.completed NodeRunStatus.failed = true
coupled ExecutionTaskStatus.completed NodeRunStatus.cancelled = true
coupled ExecutionTaskStatus.failed NodeRunStatus.failed = true
coupled ExecutionTaskStatus.cancelled NodeRunStatus.cancelled = true
coupled _ _ = false

abbrev pub locks_clear : ExecutionTask → Bool
locks_clear t =
    not (is_some t.locked_by)
    && not (is_some t.lease_token)
    && not (is_some t.locked_at)
    && not (is_some t.lease_expires_at)

abbrev pub locks_set : ExecutionTask → Bool
locks_set t =
    is_some t.locked_by
    && is_some t.lease_token
    && is_some t.locked_at
    && is_some t.lease_expires_at

-- A claimed or running task is leased, a pending or retrying one is not, and a finished one may keep
-- its last lease.
abbrev pub lease_fits : ExecutionTaskStatus → ExecutionTask → Bool
lease_fits ExecutionTaskStatus.pending t = locks_clear t
lease_fits ExecutionTaskStatus.retry_wait t = locks_clear t
lease_fits ExecutionTaskStatus.claimed t = locks_set t
lease_fits ExecutionTaskStatus.running t = locks_set t
lease_fits _ t = true

abbrev pub couples : ExecutionTaskStatus → Option NodeRun → Bool
couples s none = false
couples s (some n) = coupled s n.status

pub record IsSound (db : Db) : Type 0 where
  pub paired :
      (i : ℕ) (t : ExecutionTask)
      → get i db.tasks ≡ some t
      → couples t.status (get t.node_run_id db.node_runs) ≡ true
  pub leased : (i : ℕ) (t : ExecutionTask) → get i db.tasks ≡ some t → lease_fits t.status t ≡ true
  pub single :
      (i j : ℕ) (t u : ExecutionTask)
      → get i db.tasks ≡ some t
      → get j db.tasks ≡ some u
      → t.node_run_id ≡ u.node_run_id
      → i ≡ j

module _ (db : Db) (sound : IsSound db) (key : ℕ) (row : ExecutionTask)
    (at : get key db.tasks ≡ some row) where
  write_pair :
      (t : ExecutionTask) (n' : NodeRun) (events : List RunEvent)
      → t.node_run_id ≡ row.node_run_id
      → coupled t.status n'.status ≡ true
      → lease_fits t.status t ≡ true
      → IsSound (record db {
        tasks = put key t db.tasks;
        node_runs = put row.node_run_id n' db.node_runs;
        events = events;
      })
  write_pair t n' events same pair lease = record {
    paired = λ i u h. ground (
      arith,
      get-put key i t db.tasks,
      get-put row.node_run_id u.node_run_id n' db.node_runs,
      sound.paired i u,
      sound.single i key u row,
    );
    leased = λ i u h. ground (arith, get-put key i t db.tasks, sound.leased i u);
    single = λ i j u v hi hj e. ground (
      arith,
      get-put key i t db.tasks,
      get-put key j t db.tasks,
      sound.single i j u v,
      sound.single i key u row,
      sound.single key j row v,
    );
  }

  -- a write to the task alone
  pub write_task :
      (t : ExecutionTask)
      → t.node_run_id ≡ row.node_run_id
      → couples t.status (get row.node_run_id db.node_runs) ≡ true
      → lease_fits t.status t ≡ true
      → IsSound (record db { tasks = put key t db.tasks })
  write_task t same pair lease = record {
    paired = λ i u h. ground (arith, get-put key i t db.tasks, sound.paired i u);
    leased = λ i u h. ground (arith, get-put key i t db.tasks, sound.leased i u);
    single = λ i j u v hi hj e. ground (
      arith,
      get-put key i t db.tasks,
      get-put key j t db.tasks,
      sound.single i j u v,
      sound.single i key u row,
      sound.single key j row v,
    );
  }

-- What `settle` writes keeps the pairing.
pub record Suits (task : ExecutionTask) (task_change : ExecutionTask → Result ExecutionTask)
    (node_change : NodeRun → Result NodeRun) : Type 0 where
  pub suits :
      (t : ExecutionTask) (n n' : NodeRun)
      → task_change task ≡ ok t
      → node_change n ≡ ok n'
      → coupled task.status n.status ≡ true
      → (coupled t.status n'.status ≡ true)
        × (lease_fits t.status t ≡ true)
        × (t.node_run_id ≡ task.node_run_id)

abbrev pub events_after : ExecutionTask → Option RunEventType → List RunEvent → List RunEvent
events_after task none events = events
events_after task (some type) events =
    events
    ++ record {
      workflow_run_id = task.workflow_run_id;
      node_run_id = some task.node_run_id;
      event_type = type;
    }
      ∷ []

module _ (key : ℕ) (task : ExecutionTask) (task_change : ExecutionTask → Result ExecutionTask)
    (node_change : NodeRun → Result NodeRun) (event : Option RunEventType) (db : Db) where
  pub settle_lem :
      (t : ExecutionTask) (n n' : NodeRun)
      → task_change task ≡ ok t
      → get task.node_run_id db.node_runs ≡ some n
      → node_change n ≡ ok n'
      → settle key task task_change node_change event db
        ≡ ok (
          tt,
          record db {
            tasks = put key t db.tasks;
            node_runs = put task.node_run_id n' db.node_runs;
            events = events_after task event db.events;
          },
        )
  unfolding settle
  settle_lem t n n' ht hn hn' = ground arith

  pub settle_tasks :
      (t : ExecutionTask)
      → task_change task ≡ ok t
      → Commits
          (λ db'. db'.tasks ≡ put key t db.tasks)
          (settle key task task_change node_change event db)
  unfolding settle
  settle_tasks t h = ground arith

  pub settle_task_err :
      (e : ErrorCode)
      → task_change task ≡ err e
      → settle key task task_change node_change event db ≡ err e
  unfolding settle
  settle_task_err e h = ground arith

  pub settle_node_err :
      (n : NodeRun) (t : ExecutionTask) (e : ErrorCode)
      → task_change task ≡ ok t
      → get task.node_run_id db.node_runs ≡ some n
      → node_change n ≡ err e
      → settle key task task_change node_change event db ≡ err e
  unfolding settle
  settle_node_err n t e ht hn h = ground arith

pub couples-some :
    (s : ExecutionTaskStatus) (o : Option NodeRun)
    → couples s o ≡ true
    → (n : NodeRun) × (o ≡ some n) × (coupled s n.status ≡ true)
couples-some s none h = cc
couples-some s (some n) h = (n, refl, h)

-- `task` may differ from the row that is in the table, as the claimed row does.
pub settle-IsSound :
    (db : Db) (sound : IsSound db) (key : ℕ) (row task : ExecutionTask)
    (task_change : ExecutionTask → Result ExecutionTask) (node_change : NodeRun → Result NodeRun)
    (event : Option RunEventType)
    → get key db.tasks ≡ some row
    → task.node_run_id ≡ row.node_run_id
    → couples task.status (get row.node_run_id db.node_runs) ≡ true
    → Suits task task_change node_change
    → Commits IsSound (settle key task task_change node_change event db)
unfolding settle
settle-IsSound db sound key row task tc nc event at same pair suits =
    elim (Result-cases (tc task)) [
      | inr (e, he) ↦ rw (settle_task_err key task tc nc event db e he) tt
      | inl (t, ht) ↦
          let (n, hn, hc) = couples-some task.status (get row.node_run_id db.node_runs) pair in
          elim (Result-cases (nc n)) [
            | inr (e, he) ↦ rw (settle_node_err key task tc nc event db n t e ht (rw same hn) he) tt
            | inl (n', hn') ↦
                let (hc', hl, hs) = suits.suits t n n' ht hn' hc in
                rw (settle_lem key task tc nc event db t n n' ht (rw same hn) hn')
                  (rw same (write_pair db sound key row at t n' _ (hs ∙ same) hc' hl))
          ]
    ]
