-- ===== src/Runs/Cancel/Ends.antt =====
-- The cancellation of a run as a whole.
use relayvia.Prelude.{
  ℕ, ◌∙◌, ◌++◌, ◌∷◌, [], Bool, true, false, not, Option, none, some, ◌≡◌, refl, sym, arith, inl,
  inr, Option-cases, Bool-cases,
}
use relayvia.Errors.{Result, ok, err, is_ok}
use relayvia.Table.{get, put}
use relayvia.Table.Final.{Keeps, Avoids}
use relayvia.State.WorkflowRun.{
  WorkflowRunStatus, is_workflow_run_terminal, transition_workflow_run,
}
use relayvia.Db.{WorkflowRun, RunEventType, Db, ◌>>◌}
use relayvia.Db.Keeps.{Returns, Returns-imp, Returns-continue}
use relayvia.Runs.Cancel.{
  live_task, live_node, cancel_run, cancel_found, move_run, cancel_live_nodes, cancel_run_tasks,
  cancel_tasks, cancel_pending_nodes,
}
use relayvia.Runs.Cancel.Moves.{Moves, Moves-Moves, task_final, node_final}
use relayvia.Runs.Cancel.Loops.{
  cancel_live_nodes-Moves, cancel_tasks-Moves, cancel_pending_nodes-Moves, NodesDone, TasksDone,
}

abbrev pub is_live_run : Option WorkflowRun → Bool
is_live_run none = false
is_live_run (some row) = not (is_workflow_run_terminal row.status)

returned : {A : Type 0} (P : Db → Type 0) (r : Result (A × Db)) → Returns P r → is_ok r ≡ true
returned P (ok x) h = refl
returned P (err e) h = absurd h

module _ (run now : ℕ) where
  abbrev Done : Db → Db → Type 0
  Done a d = Moves run a d × NodesDone run now d × TasksDone run now d

  -- the two loops of `cancel_run_tasks`, after the node runs of the run are terminal
  cancel_run_tasks-Done :
      (a b : Db)
      → Moves run a b
      → NodesDone run now b
      → Returns (Done a) (cancel_run_tasks run now b)
  unfolding cancel_run_tasks
  cancel_run_tasks-Done a b m nodes =
      Returns-continue (λ d. Moves run b d × TasksDone run now d) (Done a) (cancel_tasks run now b)
        (λ _. cancel_pending_nodes run now) (cancel_tasks-Moves run now b)
        (λ _ c (n, tasks).
          Returns-imp (Moves run c) (Done a) (cancel_pending_nodes run now c)
            (λ d o. (
              Moves-Moves run a c d (Moves-Moves run a b c m n) o,
              λ j. o.clear_nodes j (n.clear_nodes j (nodes j)),
              λ j. o.clear_tasks j (tasks j),
            ))
            (cancel_pending_nodes-Moves run now c))

  cancel_work-Done :
      (a : Db) → Returns (Done a) ((cancel_live_nodes run now >> cancel_run_tasks run now) a)
  cancel_work-Done a =
      Returns-continue (λ d. Moves run a d × NodesDone run now d) (Done a)
        (cancel_live_nodes run now a) (λ _. cancel_run_tasks run now)
        (cancel_live_nodes-Moves run now a) (λ _ b (m, nodes). cancel_run_tasks-Done a b m nodes)

  abbrev pub cancelled_run : WorkflowRun → WorkflowRun
  cancelled_run row = record row {
    status = WorkflowRunStatus.cancelled;
    cancelled_at = some now;
    finished_at = some now;
  }

  move_run_cancelled :
      (row : WorkflowRun)
      → is_workflow_run_terminal row.status ≡ false
      → move_run WorkflowRunStatus.cancelled row
        ≡ ok (record row { status = WorkflowRunStatus.cancelled })
  unfolding move_run transition_workflow_run is_workflow_run_terminal
  move_run_cancelled row h = ground arith

  -- `cancel_run` on a run that exists and is not terminal never fails. It marks the run cancelled and
  -- writes no other run; afterwards every task and every node run of the run is terminal, and every
  -- task and node run that was terminal before is as it was.
  pub cancel_run_ends :
      (db : Db) (row : WorkflowRun)
      → get run db.runs ≡ some row
      → is_workflow_run_terminal row.status ≡ false
      → Returns
          (λ d.
            (d.runs ≡ put run (cancelled_run row) db.runs)
            × ((j : ℕ) → Avoids (live_task run) j d.tasks)
            × ((j : ℕ) → Avoids (live_node run) j d.node_runs)
            × Keeps task_final db.tasks d.tasks
            × Keeps node_final db.node_runs d.node_runs)
          (cancel_run run now db)
  unfolding cancel_run cancel_found
  cancel_run_ends db row at live =
      let marked : Db = record db {
        runs = put run (cancelled_run row) db.runs;
        events =
            db.events
            ++ record {
              workflow_run_id = run;
              node_run_id = none;
              event_type = RunEventType.workflow_cancelled;
            }
              ∷ [];
      } in
      rw (at, live, move_run_cancelled row live)
        (Returns-imp (Done marked) _
          ((cancel_live_nodes run now >> cancel_run_tasks run now) marked)
          (λ d (m, nodes, tasks). (m.runs, tasks, nodes, m.tasks, m.nodes))
          (cancel_work-Done marked))

  -- `cancel_run` commits exactly if the run exists and is not terminal.
  pub cancel_run_iff_live :
      (db : Db) → is_ok (cancel_run run now db) ≡ is_live_run (get run db.runs)
  unfolding cancel_run cancel_found
  cancel_run_iff_live db = elim (Option-cases (get run db.runs)) [
    | inl e ↦ rw e refl
    | inr (row, e) ↦ elim (Bool-cases (is_workflow_run_terminal row.status)) [
      | inl t ↦ rw e (rw t refl)
      | inr l ↦
          let live : is_live_run (get run db.runs) ≡ true = rw e (rw l refl) in
          returned _ (cancel_run run now db) (cancel_run_ends db row e l) ∙ sym live
    ]
  ]
