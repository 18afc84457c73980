-- ===== src/Queue/Recovery.antt =====
-- The periodic upkeep of the queue over sound rows: it never fails, and it leaves nothing over.
use relayvia.Prelude.{
  ℕ, Bool, true, false, not, Option, none, some, ◌≡◌, refl, arith, any, filter, ◌==◌, inl, inr,
  Option-cases, Bool-cases, length, ap,
}
use relayvia.Errors.{Result, ok}
use relayvia.Table.{get, put, get-put, keys_where, keys_where_complete, any-filter}
use relayvia.State.NodeRun.{NodeRunStatus}
use relayvia.State.ExecutionTask.{ExecutionTaskStatus}
use relayvia.Db.{ExecutionTask, NodeRun, RunEventType, Db, Tx, pure, for_each, ◌>>◌}
use relayvia.Db.Keeps.{Returns, Returns-imp, Returns-continue, Returns-for_each}
use relayvia.Queue.Effects.{settle, requeue_task, move_task, node_status}
use relayvia.Queue.Upkeep.{
  recover_expired, recover_row, lease_lost, promote_due_retries, promote_row, retry_due, at_task,
}
use relayvia.Queue.Sound.{
  IsSound, Suits, settle_lem, settle-IsSound, couples-some, coupled, lease_fits,
}
use relayvia.Queue.Sound.Changes.{requeue-Suits, promote-Suits}

module _ (db : Db) (sound : IsSound db) (key : ℕ) (task : ExecutionTask)
    (at : get key db.tasks ≡ some task) where
  -- `settle` whose two changes succeed.
  settles :
      (tc : ExecutionTask → Result ExecutionTask) (nc : NodeRun → Result NodeRun)
      (event : Option RunEventType) (t : ExecutionTask)
      → Suits task tc nc
      → tc task ≡ ok t
      → ((n : NodeRun) → coupled task.status n.status ≡ true → (n' : NodeRun) × (nc n ≡ ok n'))
      → Returns (λ d. IsSound d × (d.tasks ≡ put key t db.tasks)) (settle key task tc nc event db)
  settles tc nc event t suits ht hn =
      let (n, e, c) =
        couples-some task.status (get task.node_run_id db.node_runs) (sound.paired key task at) in
      let (n', e') = hn n c in
      let eq = settle_lem key task tc nc event db t n n' ht e e' in
      rw eq (
        rw eq at (
            settle-IsSound db sound key task task tc nc event at refl (sound.paired key task at)
              suits),
        refl,
      )

  leased' : lease_fits task.status task ≡ true
  leased' = sound.leased key task at

-- The row under `j` does not pass the test, if there is one.
abbrev pub Clear : (ExecutionTask → Bool) → ℕ → Db → Type 0
Clear p j db = (t : ExecutionTask) → get j db.tasks ≡ some t → p t ≡ false

-- One round of a loop over the rows that pass `p`, each of which the body can move out of `p`.
module _ (p : ExecutionTask → Bool) (tc : ExecutionTask → Result ExecutionTask)
    (nc : NodeRun → Result NodeRun) (event : Option RunEventType)
    (moves : (task : ExecutionTask)
      → lease_fits task.status task ≡ true
      → p task ≡ true
      → (t : ExecutionTask) × (tc task ≡ ok t)
        × (p t ≡ false)
        × Suits task tc nc
        × ((n : NodeRun)
            → coupled task.status n.status ≡ true
            → (n' : NodeRun) × (nc n ≡ ok n'))) where
  abbrev body : ℕ → ExecutionTask → Tx (Unit {0})
  body k task = settle k task tc nc event

  Clear-round :
      (k : ℕ) (db : Db)
      → IsSound db
      → Returns
          (λ d. IsSound d × Clear p k d × ((j : ℕ) → Clear p j db → Clear p j d))
          (at_task p body k db)
  Clear-round k db sound = elim (Option-cases (get k db.tasks)) [
    | inl e ↦ rw e (sound, λ t h. cc, λ j c. c)
    | inr (task, e) ↦ elim (Bool-cases (p task)) [
      | inr out ↦ rw e (rw out (sound, λ t h. ground arith, λ j c. c))
      | inl selected ↦
          let (t, ht, clear, suits, hn) = moves task (sound.leased k task e) selected in
          rw e (
            rw selected (
              Returns-imp (λ d. IsSound d × (d.tasks ≡ put k t db.tasks)) _ (body k task db)
                (λ d (s, same). (
                  s,
                  λ u h. ground (arith, get-put k k t db.tasks),
                  λ j c u h. ground (arith, get-put k j t db.tasks, c u),
                ))
                (settles db sound k task e tc nc event t suits ht hn)))
    ]
  ]

  Clear-loop :
      (locked : ℕ → Bool) (db : Db)
      → IsSound db
      → let keys = filter (λ k. not (locked k)) (keys_where p db.tasks) in
        Returns
          (λ d. IsSound d × ((j : ℕ) → locked j ≡ false → Clear p j d))
          ((for_each (at_task p body) keys >> pure (length keys)) db)
  Clear-loop locked db sound =
      let keys = filter (λ k. not (locked k)) (keys_where p db.tasks) in
      Returns-continue _ _ (for_each (at_task p body) keys db) (λ _. pure (length keys))
        (Returns-for_each IsSound (Clear p) (at_task p body) Clear-round keys db sound)
        (λ _ d (s, kept, reached). (
          s,
          λ j free. elim (Bool-cases (any (λ k. k == j) keys)) [
            | inl inside ↦ reached j inside
            | inr outside ↦ kept j (unselected locked db j free outside)
          ],
        ))
    where
      unselected :
          (locked : ℕ → Bool) (db : Db) (j : ℕ)
          → locked j ≡ false
          → any (λ k. k == j) (filter (λ k. not (locked k)) (keys_where p db.tasks)) ≡ false
          → Clear p j db
      unselected locked db j free out t h = elim (Bool-cases (p t)) [
        | inr e ↦ e
        | inl e ↦ absurd (
            cc (
              any-filter (λ k. not (locked k)) j (keys_where p db.tasks)
                (keys_where_complete p j t db.tasks h e) (ap not free)))
      ]

lost_moves :
    (now : ℕ) (task : ExecutionTask)
    → lease_fits task.status task ≡ true
    → lease_lost now task ≡ true
    → (t : ExecutionTask) × (requeue_task task ≡ ok t)
      × (lease_lost now t ≡ false)
      × Suits task requeue_task ok
      × ((n : NodeRun) → coupled task.status n.status ≡ true → (n' : NodeRun) × (ok n ≡ ok n'))
unfolding lease_lost requeue_task
lost_moves now task leased lost = (
  record task {
    status = ExecutionTaskStatus.pending;
    locked_by = none;
    lease_token = none;
    locked_at = none;
    lease_expires_at = none;
  },
  ground arith,
  ground arith,
  requeue-Suits task leased (ground arith),
  λ n c. (n, refl),
)

due_moves :
    (now : ℕ) (task : ExecutionTask)
    → lease_fits task.status task ≡ true
    → retry_due now task ≡ true
    → (t : ExecutionTask) × (move_task ExecutionTaskStatus.pending task ≡ ok t)
      × (retry_due now t ≡ false)
      × Suits task (move_task ExecutionTaskStatus.pending) (node_status NodeRunStatus.queued true)
      × ((n : NodeRun)
          → coupled task.status n.status ≡ true
          → (n' : NodeRun) × (node_status NodeRunStatus.queued true n ≡ ok n'))
unfolding retry_due move_task node_status
due_moves now task leased due = (
  record task { status = ExecutionTaskStatus.pending },
  ground arith,
  ground arith,
  promote-Suits task leased now due,
  λ n c. (record n { status = NodeRunStatus.queued }, ground arith),
)

module _ (db : Db) (sound : IsSound db) (locked : ℕ → Bool) (now : ℕ) where
  -- The recovery of lost leases never fails over sound rows. It keeps them sound, and afterwards no
  -- claimed or running task has a lease that ended before `now`, but for those that another
  -- transaction held.
  pub recover_expired-Clear :
      Returns
        (λ d. IsSound d × ((j : ℕ) → locked j ≡ false → Clear (lease_lost now) j d))
        (recover_expired locked now db)
  unfolding recover_expired recover_row
  recover_expired-Clear =
      Clear-loop (lease_lost now) requeue_task ok none (lost_moves now) locked db sound

  -- The promotion of retries never fails over sound rows. It keeps them sound, and afterwards no task
  -- waits for a retry that is due, but for those that another transaction held.
  pub promote_due_retries-Clear :
      Returns
        (λ d. IsSound d × ((j : ℕ) → locked j ≡ false → Clear (retry_due now) j d))
        (promote_due_retries locked now db)
  unfolding promote_due_retries promote_row
  promote_due_retries-Clear =
      Clear-loop (retry_due now) (move_task ExecutionTaskStatus.pending)
        (node_status NodeRunStatus.queued true) (some RunEventType.node_queued) (due_moves now)
        locked db sound
