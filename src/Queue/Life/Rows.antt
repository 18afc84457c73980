-- ===== src/Queue/Life/Rows.antt =====
-- How the helpers of the backend move a row.
use relayvia.Prelude.{ℕ, Option, some, ◌≡◌, sym, arith, inl, inr, Bool-cases, ◌==◌, subst}
use relayvia.Errors.{Result, ok, Result-cases}
use relayvia.Table.{Table, get, put, get-put}
use relayvia.Db.{ExecutionTask, NodeRun, RunEventType, Db}
use relayvia.Db.Keeps.{Commits, Commits-imp}
use relayvia.Queue.Effects.{settle}
use relayvia.Queue.Sound.{settle_tasks, settle_task_err}
use relayvia.Queue.Life.{Changes}

-- The row under `key`, which was `row`, has moved on.
abbrev pub LivesIn : (ℕ → Type 0) → ℕ → ExecutionTask → Table ExecutionTask → Type 0
LivesIn Issued key row tasks = (r : ExecutionTask) × (get key tasks ≡ some r) × Changes Issued row r

abbrev pub Lives : (ℕ → Type 0) → ℕ → ExecutionTask → Db → Type 0
Lives Issued key row db = LivesIn Issued key row db.tasks

module _ {Issued : ℕ → Type 0} (key : ℕ) (row : ExecutionTask) (k : ℕ) (u : ExecutionTask) where
  -- a write of `t` to the row `u` of the key `k`
  pub write-Lives :
      (tasks : Table ExecutionTask) (t : ExecutionTask)
      → LivesIn Issued key row tasks
      → get k tasks ≡ some u
      → (Changes Issued row u → Changes Issued row t)
      → LivesIn Issued key row (put k t tasks)
  write-Lives tasks t (r, at, life) h path = elim (Bool-cases (k == key)) [
    | inl same ↦
        let e : r ≡ u = ground arith in
        (t, ground (arith, get-put k key t tasks), path (subst (λ x. Changes Issued row x) e life))
    | inr other ↦ (r, ground (arith, get-put k key t tasks), life)
  ]

  module _ (task : ExecutionTask) (task_change : ExecutionTask → Result ExecutionTask)
      (node_change : NodeRun → Result NodeRun) (event : Option RunEventType) (db : Db) where
    pub settle-Lives :
        Lives Issued key row db
        → get k db.tasks ≡ some u
        → ((t : ExecutionTask)
            → task_change task ≡ ok t
            → Changes Issued row u
            → Changes Issued row t)
        → Commits (Lives Issued key row) (settle k task task_change node_change event db)
    settle-Lives lives at path = elim (Result-cases (task_change task)) [
      | inr (e, h) ↦ rw (settle_task_err k task task_change node_change event db e h) tt
      | inl (t, h) ↦
          Commits-imp (λ db'. db'.tasks ≡ put k t db.tasks) (Lives Issued key row)
            (settle k task task_change node_change event db)
            (λ db' e.
              subst (LivesIn Issued key row) (sym e) (write-Lives db.tasks t lives at (path t h)))
            (settle_tasks k task task_change node_change event db t h)
    ]
