-- ===== src/Scheduler/Submit/Sound.antt =====
-- The submission of ready nodes keeps the rows sound.
use relayvia.Prelude.{
  ℕ, suc, true, false, Option, none, some, List, [], ◌∷◌, ◌++◌, ◌==◌, ◌≡◌, refl, sym, ap, ◌∙◌, inl,
  inr, arith, Bool-cases, Option-cases, String, length,
}
use relayvia.Errors.{ok, err, Result-cases, ErrorCode}
use relayvia.Table.{
  Table, get, put, get-put, get-put_self, keys_where, no_keys, no_keys-get, rows_where,
}
use relayvia.Json.{Json, get_field}
use relayvia.Graph.{WorkflowNode, WorkflowGraph}
use relayvia.Graph.Index.{node}
use relayvia.State.WorkflowRun
use relayvia.State.WorkflowRun.{WorkflowRunStatus}
use relayvia.State.NodeRun.{NodeRunStatus, transition_node_run}
use relayvia.State.ExecutionTask.{ExecutionTaskStatus}
use relayvia.Db.{ExecutionTask, WorkflowRun, NodeRun, RunEvent, Db, put_task, Workspace}
use relayvia.Db.Keeps.{Commits, Commits-continue, Commits-after, Commits-then, Commits-if}
use relayvia.Queue.Effects.{move_node}
use relayvia.Queue.Upkeep.{insert_task, may_insert}
use relayvia.Queue.Sound.{IsSound, lease_fits, couples, coupled, couples-some}
use relayvia.Queue.Sound.Claims.{insert_task-IsSound}
use relayvia.Scheduler.Ready.{find_ready_nodes}
use relayvia.Scheduler.Skip.{mark_unreachable_condition_nodes}
use relayvia.Scheduler.Dispatch.{
  Collaborators, Executor, executor_for, attach_workspace, create_workspace, may_create, if_truthy,
  new_workspace,
}
use relayvia.Scheduler.Retry.{field_in}
use relayvia.Scheduler.Submit.{
  in_run, row_of, skip_events, enqueue, on_runner, submit_node, submit_found, submit_all,
  write_marks, schedule_rows, schedule_ready_nodes,
}
use relayvia.Scheduler.Submit.Marks.{
  is_pending, Stays, put_all-Stays, rounds-IsMarkOf, rows_where-IsMarkOf,
}

module _ (db : Db) (sound : IsSound db) where
  -- the node runs change, and those that are not pending stay
  pub Stays-IsSound :
      (nodes : Table NodeRun) (events : List RunEvent)
      → Stays db.node_runs nodes
      → IsSound (record db { node_runs = nodes; events = events })
  Stays-IsSound nodes events stays = record {
    paired = λ i t h.
        let (n, at, fits) =
          couples-some t.status (get t.node_run_id db.node_runs) (sound.paired i t h) in
        ap (couples t.status) (stays t.node_run_id n at (live t.status n fits)) ∙ fits;
    leased = sound.leased;
    single = sound.single;
  }
    where
      live :
          (s : ExecutionTaskStatus) (n : NodeRun) → coupled s n.status ≡ true → is_pending n ≡ false
      live s n h = ground arith

  -- a node run without a task changes
  pub untasked-IsSound :
      (key : ℕ) (n : NodeRun) (events : List RunEvent)
      → no_keys (keys_where (λ t. t.node_run_id == key) db.tasks) ≡ true
      → IsSound (record db { node_runs = put key n db.node_runs; events = events })
  untasked-IsSound key n events free = record {
    paired = λ i t h.
        let other = no_keys-get (λ (t : ExecutionTask). t.node_run_id == key) i t db.tasks free h in
        ground (arith, get-put key t.node_run_id n db.node_runs, sound.paired i t);
    leased = sound.leased;
    single = sound.single;
  }

-- a new task of a queued node run
inserted-IsSound :
    (db : Db) (key : ℕ) (task : ExecutionTask)
    → IsSound db
    → task.status ≡ ExecutionTaskStatus.pending
    → lease_fits ExecutionTaskStatus.pending task ≡ true
    → couples ExecutionTaskStatus.pending (get task.node_run_id db.node_runs) ≡ true
    → Commits IsSound (insert_task key task db)
unfolding insert_task
inserted-IsSound db key task sound fresh clear queued =
    Commits-if IsSound (may_insert key task db) (put_task key task db)
      (err ErrorCode.integrity_error)
      (λ may. insert_task-IsSound db sound key task fresh clear queued may) (λ _. tt)

pub move_node_status : (t : NodeRunStatus) (n n' : NodeRun) → move_node t n ≡ ok n' → n'.status ≡ t
unfolding move_node
move_node_status t n n' h = elim (Result-cases (transition_node_run n.status t)) [
  | inl (u, e) ↦ sym (status_of (rw e at h))
  | inr (e, he) ↦ absurd (cc (rw he at h))
]
  where
    status_of : ok (record n { status = t }) ≡ ok n' → t ≡ n'.status
    status_of h = ap (λ r. elim r [ ok m ↦ m.status | err e ↦ t ]) h

-- the workspaces are not in question
create-IsSound :
    (key : ℕ) (w : Workspace) (db : Db)
    → IsSound db
    → Commits (λ d. IsSound d × (d.tasks ≡ db.tasks)) (create_workspace key w db)
unfolding create_workspace
create-IsSound key w db sound = elim (Bool-cases (may_create key w db)) [
  | inl e ↦
      rw e (record { paired = sound.paired; leased = sound.leased; single = sound.single }, refl)
  | inr e ↦ rw e tt
]

attached-IsSound :
    (c : Collaborators) (key run_id node_run : ℕ) (runner_id : Option ℕ) (n : WorkflowNode)
    (db : Db)
    → IsSound db
    → Commits
        (λ d. IsSound d × (d.tasks ≡ db.tasks))
        (attach_workspace c key run_id node_run runner_id n db)
unfolding attach_workspace
attached-IsSound c key run_id node_run runner_id n db sound =
    elim (Option-cases (if_truthy (field_in "repository" (get_field "workspace" n.config)))) [
      | inl e ↦ rw e (sound, refl)
      | inr (repository, e) ↦ rw e (
          create-IsSound key
            (new_workspace c.str_of run_id node_run runner_id (get_field "workspace" n.config)
              repository)
            db sound)
    ]

module _ (c : Collaborators) (task_key workspace_key : ℕ → ℕ) (now run_id : ℕ)
    (run : WorkflowRun) where
  enqueue-IsSound :
      (key : ℕ) (node_run : NodeRun) (n : WorkflowNode) (capability : Option String)
      (runner_id workspace : Option ℕ) (db : Db)
      → IsSound db
      → no_keys (keys_where (λ t. t.node_run_id == key) db.tasks) ≡ true
      → Commits IsSound (
          enqueue c task_key workspace_key now run_id run key node_run n capability runner_id
            workspace db)
  unfolding enqueue
  enqueue-IsSound key node_run n capability runner_id workspace db sound free =
      elim (Result-cases (move_node NodeRunStatus.queued node_run)) [
        | inr (e, h) ↦ rw h tt
        | inl (n', h) ↦ rw h (
            Commits-then IsSound _ (n.id ∷ []) (
              inserted-IsSound _ (task_key key) _ (untasked-IsSound db sound key n' _ free) refl
                refl
                (ap (couples ExecutionTaskStatus.pending) (get-put_self key n' db.node_runs)
                  ∙ ap (coupled ExecutionTaskStatus.pending)
                      (move_node_status NodeRunStatus.queued node_run n' h))))
      ]

  submit_node-IsSound :
      (rows : Table NodeRun) (key : ℕ) (node_run : NodeRun) (n : WorkflowNode) (db : Db)
      → IsSound db
      → no_keys (keys_where (λ t. t.node_run_id == key) db.tasks) ≡ true
      → Commits IsSound (submit_node c task_key workspace_key now run_id run rows key node_run n db)
  unfolding submit_node
  submit_node-IsSound rows key node_run n db sound free =
      by_executor (executor_for c run rows n) refl
    where
      sent :
          (capability : String) (runner_id : Option ℕ) (input : Option Json)
          → Commits IsSound (
              on_runner c task_key workspace_key now run_id run key node_run n capability runner_id
                input db)
      sent capability runner_id none = sound
      sent capability runner_id (some input) =
          Commits-after (λ d. IsSound d × (d.tasks ≡ db.tasks)) IsSound
            (attach_workspace c (workspace_key key) run_id key runner_id n db) _
            (attached-IsSound c (workspace_key key) run_id key runner_id n db sound)
            (λ workspace d (s, same).
              enqueue-IsSound key _ n (some capability) runner_id workspace d s (
                ap
                  (λ tasks.
                    no_keys (keys_where (λ (t : ExecutionTask). t.node_run_id == key) tasks))
                  same
                ∙ free))

      by_executor :
          (e : Executor)
          → executor_for c run rows n ≡ e
          → Commits IsSound
              (submit_node c task_key workspace_key now run_id run rows key node_run n db)
      by_executor Executor.later h = rw (h, submit_node) sound
      by_executor Executor.worker h =
          rw (h, submit_node) (enqueue-IsSound key node_run n none none none db sound free)
      by_executor (Executor.runner capability target) h =
          rw (h, submit_node) (sent capability target (c.resolve run rows n.input_mapping))

  submit_found-IsSound :
      (rows : Table NodeRun) (r : Option (ℕ × NodeRun)) (n : Option WorkflowNode) (db : Db)
      → IsSound db
      → Commits IsSound (submit_found c task_key workspace_key now run_id run rows r n db)
  submit_found-IsSound rows none n db sound = sound
  submit_found-IsSound rows (some r) none db sound = sound
  submit_found-IsSound rows (some (key, node_run)) (some n) db sound =
      Commits-if IsSound
        (no_keys (keys_where (λ (t : ExecutionTask). t.node_run_id == key) db.tasks)) _ _
        (submit_node-IsSound rows key node_run n db sound) (λ _. sound)

  submit_all-IsSound :
      (g : WorkflowGraph) (rows : Table NodeRun) (ids : List ℕ) (db : Db)
      → IsSound db
      → Commits IsSound (submit_all c task_key workspace_key now run_id run g rows ids db)
  unfolding submit_all
  submit_all-IsSound g rows [] db sound = sound
  submit_all-IsSound g rows (id ∷ ids) db sound =
      Commits-continue IsSound _ _ (submit_found-IsSound rows (row_of id rows) (node g id) db sound)
        (λ submitted d s.
          Commits-continue IsSound (submit_all c task_key workspace_key now run_id run g rows ids d)
            _ (submit_all-IsSound g rows ids d s) (λ more d' s'. s'))

  schedule_rows-IsSound :
      (db : Db)
      → IsSound db
      → Commits IsSound (
          schedule_rows c task_key workspace_key now run_id run
            (rows_where (in_run run_id) db.node_runs)
            db)
  unfolding schedule_rows write_marks mark_unreachable_condition_nodes
  schedule_rows-IsSound db sound =
      let rows = rows_where (in_run run_id) db.node_runs in
      let after = (mark_unreachable_condition_nodes run.graph_snapshot now rows).0 in
      submit_all-IsSound run.graph_snapshot after (find_ready_nodes run.graph_snapshot after) _ (
        Stays-IsSound db sound _ (db.events ++ skip_events run_id rows after) (
          put_all-Stays db.node_runs _ db.node_runs
            (rounds-IsMarkOf db.node_runs now run.graph_snapshot (suc (length rows)) rows
              (rows_where-IsMarkOf (in_run run_id) db.node_runs))
            (λ j n h l. h)))

-- The submission of ready nodes keeps the rows sound.
pub schedule_ready_nodes-IsSound :
    (c : Collaborators) (task_key workspace_key : ℕ → ℕ) (now run_id : ℕ) (db : Db)
    → IsSound db
    → Commits IsSound (schedule_ready_nodes c task_key workspace_key now run_id db)
unfolding schedule_ready_nodes
schedule_ready_nodes-IsSound c task_key workspace_key now run_id db sound =
    elim (Option-cases (get run_id db.runs)) [
      | inl e ↦ rw (e, schedule_ready_nodes) sound
      | inr (run, e) ↦
          rw (e, schedule_ready_nodes)
            (Commits-if IsSound (WorkflowRun.is run.status WorkflowRunStatus.running) _ _
              (λ _. schedule_rows-IsSound c task_key workspace_key now run_id run db sound)
              (λ _. sound))
    ]
