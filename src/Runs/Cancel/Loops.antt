-- ===== src/Runs/Cancel/Loops.antt =====
-- The loops of a cancellation: none fails, and the first two leave no row that they select.
use relayvia.Prelude.{
  ℕ, Bool, true, false, some, ◌≡◌, refl, ◌==◌, arith, inl, inr, Option-cases, Bool-cases, any, List,
  ap,
}
use relayvia.Errors.{ok}
use relayvia.Table.{get, put, keys_where}
use relayvia.Table.Final.{Avoids, put-Avoids_self, unselected-Avoids}
use relayvia.State.NodeRun.{NodeRunStatus, is_node_run_terminal}
use relayvia.State.ExecutionTask.{ExecutionTaskStatus}
use relayvia.Db.{ExecutionTask, NodeRun, Db, Tx, for_each, RunEvent, RunEventType, continue}
use relayvia.Db.Keeps.{Returns, Returns-imp, Returns-for_each}
use relayvia.Queue.Effects.{node_cancelled, settle, update_node, finish_task, trace}
use relayvia.Queue.Upkeep.{at_task}
use relayvia.Runs.Cancel.{
  live_task, live_node, pending_node, cancel_task, cancel_node, cancel_live_node, at_node_run,
  cancel_tasks, cancel_live_nodes, cancel_pending_nodes, or_now,
}
use relayvia.Runs.Cancel.Moves.{
  Moves, no_Moves, Moves-Moves, task_final, node_final, put_node-Moves, put_task-Moves,
  move_node_cancelled, finish_task_cancelled, cancelled_node-live, cancelled_task-live,
  node_cancelled-Moves,
}

module _ (run now : ℕ) where
  cancel_live_node-Moves :
      (k : ℕ) (n : NodeRun) (d : Db)
      → get k d.node_runs ≡ some n
      → live_node run n ≡ true
      → Returns
          (λ e. Moves run d e × Avoids (live_node run) k e.node_runs)
          (cancel_live_node now k n d)
  unfolding cancel_live_node live_node
  cancel_live_node-Moves k n d at l =
      let open_row : node_final n ≡ false = ground arith in
      let n' = record n {
        status = NodeRunStatus.cancelled;
        finished_at = or_now n.finished_at now;
      } in
      rw (move_node_cancelled n open_row) (
        put_node-Moves run d k n n' d.events at open_row refl,
        put-Avoids_self (live_node run) k n' d.node_runs (cancelled_node-live run n' refl),
      )

  cancel_node-Moves :
      (k : ℕ) (n : NodeRun) (d : Db)
      → get k d.node_runs ≡ some n
      → pending_node run n ≡ true
      → Returns (Moves run d) (cancel_node now k n d)
  unfolding cancel_node is_node_run_terminal
  cancel_node-Moves k n d at l =
      let open_row : node_final n ≡ false = ground arith in
      let n' = record n { status = NodeRunStatus.cancelled; finished_at = some now } in
      rw (move_node_cancelled n open_row) (put_node-Moves run d k n n' d.events at open_row refl)

  events-Moves : (d : Db) (events : List RunEvent) → Moves run d (record d { events = events })
  events-Moves d events = record {
    runs = refl;
    tasks = λ j x h f. h;
    nodes = λ j x h f. h;
    clear_tasks = λ j h. h;
    clear_nodes = λ j h. h;
  }

  update_cancel-Moves :
      (k : ℕ) (d : Db)
      → (d' : Db) × (update_node k (node_cancelled now) d ≡ ok (tt, d'))
        × Moves run d d'
        × (d'.tasks ≡ d.tasks)
  unfolding update_node
  update_cancel-Moves k d = elim (Option-cases (get k d.node_runs)) [
    | inl e ↦ (d, rw (e, update_node) refl, no_Moves run d, refl)
    | inr (n, e) ↦
        let (n', en, m) = node_cancelled-Moves run now d k n d.events e in
        (record d { node_runs = put k n' d.node_runs }, rw (e, update_node, en) refl, m, refl)
  ]

  cancel_task_lem :
      (k : ℕ) (t t' : ExecutionTask) (d d' : Db)
      → finish_task ExecutionTaskStatus.cancelled now t ≡ ok t'
      → update_node t.node_run_id (node_cancelled now) (record d { tasks = put k t' d.tasks })
        ≡ ok (tt, d')
      → cancel_task now k t d ≡ trace t RunEventType.node_cancelled d'
  unfolding cancel_task settle
  cancel_task_lem k t t' d d' h u =
      rw h (ap (λ r. continue r (λ _. trace t RunEventType.node_cancelled)) u)

  cancel_task-Moves :
      (k : ℕ) (t : ExecutionTask) (d : Db)
      → get k d.tasks ≡ some t
      → live_task run t ≡ true
      → Returns (λ e. Moves run d e × Avoids (live_task run) k e.tasks) (cancel_task now k t d)
  unfolding live_task
  cancel_task-Moves k t d at l =
      let open_row : task_final t ≡ false = ground arith in
      let t' = record t { status = ExecutionTaskStatus.cancelled; finished_at = some now } in
      let written : Db = record d { tasks = put k t' d.tasks } in
      let first = put_task-Moves run d k t t' d.events at open_row refl in
      let gone = put-Avoids_self (live_task run) k t' d.tasks (cancelled_task-live run t' refl) in
      let (d', u, second, same) = update_cancel-Moves t.node_run_id written in
      let both = Moves-Moves run d written d' first second in
      rw (cancel_task_lem k t t' d d' (finish_task_cancelled now t open_row) u)
        (Moves-Moves run d d' _ both (events-Moves d' _), rw same gone)

  -- A loop whose rounds cancel what they find: its goals, once reached, stay.
  loop_Moves :
      (Goal : ℕ → Db → Type 0) (body : ℕ → Tx (Unit {0}))
      → ((j : ℕ) (a b : Db) → Moves run a b → Goal j a → Goal j b)
      → ((k : ℕ) (d : Db) → Returns (λ e. Moves run d e × Goal k e) (body k d))
      → (keys : List ℕ) (a : Db)
      → Returns
          (λ d.
            Moves run a d
            × ((j : ℕ) → Goal j a → Goal j d)
            × ((j : ℕ) → any (λ k. k == j) keys ≡ true → Goal j d))
          (for_each body keys a)
  loop_Moves Goal body stays round keys a =
      Returns-for_each (Moves run a) Goal body
        (λ k d m.
          Returns-imp _ _ (body k d)
            (λ e (n, g). (Moves-Moves run a d e m n, g, λ j h. stays j d e n h)) (round k d))
        keys a (no_Moves run a)

  abbrev pub NodesDone : Db → Type 0
  NodesDone d = (j : ℕ) → Avoids (live_node run) j d.node_runs

  abbrev pub TasksDone : Db → Type 0
  TasksDone d = (j : ℕ) → Avoids (live_task run) j d.tasks

  node_round :
      (p : NodeRun → Bool) (Q : ℕ → Db → Type 0) (body : ℕ → NodeRun → Tx (Unit {0}))
      → ((k : ℕ) (d : Db) → Avoids p k d.node_runs → Q k d)
      → ((k : ℕ) (n : NodeRun) (d : Db)
          → get k d.node_runs ≡ some n
          → p n ≡ true
          → Returns (λ e. Moves run d e × Q k e) (body k n d))
      → (k : ℕ) (d : Db) → Returns (λ e. Moves run d e × Q k e) (at_node_run p body k d)
  node_round p Q body idle step k d = elim (Option-cases (get k d.node_runs)) [
    | inl e ↦ rw e (no_Moves run d, idle k d (λ x h. cc))
    | inr (n, e) ↦ elim (Bool-cases (p n)) [
      | inr out ↦ rw e (rw out (no_Moves run d, idle k d (λ x h. ground arith)))
      | inl selected ↦ rw e (rw selected (step k n d e selected))
    ]
  ]

  pub cancel_live_nodes-Moves :
      (a : Db) → Returns (λ d. Moves run a d × NodesDone d) (cancel_live_nodes run now a)
  unfolding cancel_live_nodes
  cancel_live_nodes-Moves a =
      Returns-imp _ _
        (for_each (at_node_run (live_node run) (cancel_live_node now))
          (keys_where (live_node run) a.node_runs) a)
        (λ d (m, kept, reached). (
          m,
          λ j. elim (Bool-cases (any (λ k. k == j) (keys_where (live_node run) a.node_runs))) [
            | inl inside ↦ reached j inside
            | inr outside ↦ kept j (unselected-Avoids (live_node run) j a.node_runs outside)
          ],
        ))
        (loop_Moves (λ j d. Avoids (live_node run) j d.node_runs)
          (at_node_run (live_node run) (cancel_live_node now)) (λ j a b m. m.clear_nodes j)
          (node_round (live_node run) (λ j d. Avoids (live_node run) j d.node_runs)
            (cancel_live_node now) (λ k d h. h) cancel_live_node-Moves)
          (keys_where (live_node run) a.node_runs) a)

  pub cancel_pending_nodes-Moves : (a : Db) → Returns (Moves run a) (cancel_pending_nodes run now a)
  unfolding cancel_pending_nodes
  cancel_pending_nodes-Moves a =
      Returns-imp _ _
        (for_each (at_node_run (pending_node run) (cancel_node now))
          (keys_where (pending_node run) a.node_runs) a)
        (λ d (m, _, _). m)
        (loop_Moves (λ j d. Unit) (at_node_run (pending_node run) (cancel_node now))
          (λ j a b m u. u)
          (node_round (pending_node run) (λ j d. Unit) (cancel_node now) (λ k d h. tt)
            (λ k n d at l.
              Returns-imp _ _ (cancel_node now k n d) (λ e m. (m, tt))
                (cancel_node-Moves k n d at l)))
          (keys_where (pending_node run) a.node_runs) a)

  task_round :
      (k : ℕ) (d : Db)
      → Returns
          (λ e. Moves run d e × Avoids (live_task run) k e.tasks)
          (at_task (live_task run) (cancel_task now) k d)
  task_round k d = elim (Option-cases (get k d.tasks)) [
    | inl e ↦ rw e (no_Moves run d, λ x h. cc)
    | inr (t, e) ↦ elim (Bool-cases (live_task run t)) [
      | inr out ↦ rw e (rw out (no_Moves run d, λ x h. ground arith))
      | inl selected ↦ rw e (rw selected (cancel_task-Moves k t d e selected))
    ]
  ]

  pub cancel_tasks-Moves :
      (a : Db) → Returns (λ d. Moves run a d × TasksDone d) (cancel_tasks run now a)
  unfolding cancel_tasks
  cancel_tasks-Moves a =
      Returns-imp _ _
        (for_each (at_task (live_task run) (cancel_task now)) (keys_where (live_task run) a.tasks)
          a)
        (λ d (m, kept, reached). (
          m,
          λ j. elim (Bool-cases (any (λ k. k == j) (keys_where (live_task run) a.tasks))) [
            | inl inside ↦ reached j inside
            | inr outside ↦ kept j (unselected-Avoids (live_task run) j a.tasks outside)
          ],
        ))
        (loop_Moves (λ j d. Avoids (live_task run) j d.tasks)
          (at_task (live_task run) (cancel_task now)) (λ j a b m. m.clear_tasks j) task_round
          (keys_where (live_task run) a.tasks) a)
