-- ===== src/Scheduler/Submit/Limits.antt =====
-- The limits in the task rows that the scheduler inserts.
use relayvia.Prelude.{
  ℕ, ◌≤◌, Option, none, some, List, [], ◌∷◌, ◌==◌, ◌≡◌, refl, subst, inl, inr, arith, Bool-cases,
  Option-cases, String,
}
use relayvia.Errors.{ErrorCode, err, Result-cases}
use relayvia.Table.{Table, get, put, get-put, keys_where, no_keys, rows_where}
use relayvia.Json.{Json, get_field}
use relayvia.Graph.{WorkflowNode, WorkflowGraph}
use relayvia.Graph.Index.{node}
use relayvia.State.WorkflowRun
use relayvia.State.WorkflowRun.{WorkflowRunStatus}
use relayvia.State.NodeRun.{NodeRunStatus}
use relayvia.Db.{ExecutionTask, WorkflowRun, NodeRun, Db, put_task}
use relayvia.Db.Keeps.{Commits, Commits-continue, Commits-then, Commits-if}
use relayvia.Queue.Effects.{move_node}
use relayvia.Queue.Upkeep.{insert_task, may_insert}
use relayvia.Scheduler.Ready.{find_ready_nodes}
use relayvia.Scheduler.Skip.{mark_unreachable_condition_nodes}
use relayvia.Scheduler.Dispatch.{
  Collaborators, Executor, executor_for, attach_workspace, create_workspace, may_create, if_truthy,
  new_workspace,
}
use relayvia.Scheduler.Retry.{field_in}
use relayvia.Scheduler.Retry.Bounds.{retry_settings_bounded}
use relayvia.Scheduler.Submit.{
  in_run, row_of, enqueue, on_runner, submit_node, submit_found, submit_all, write_marks,
  schedule_rows, schedule_ready_nodes,
}

-- The limit of attempts and the backoff that a task row carries.
pub record IsLimited (t : ExecutionTask) : Type 0 where
  pub one_attempt : 1 ≤ t.max_attempts
  pub few_attempts : t.max_attempts ≤ 11
  pub short_backoff : t.payload.retry_backoff_seconds ≤ 86400

abbrev pub AllLimitedIn : Table ExecutionTask → Type 0
AllLimitedIn tasks = (k : ℕ) (t : ExecutionTask) → get k tasks ≡ some t → IsLimited t

abbrev pub AllLimited : Db → Type 0
AllLimited db = AllLimitedIn db.tasks

inserted_limited :
    (key : ℕ) (task : ExecutionTask) (db : Db)
    → IsLimited task
    → AllLimited db
    → Commits AllLimited (insert_task key task db)
unfolding insert_task
inserted_limited key task db limited all =
    Commits-if AllLimited (may_insert key task db) (put_task key task db)
      (err ErrorCode.integrity_error) (λ _. written) (λ _. tt)
  where
    written : AllLimitedIn (put key task db.tasks)
    written k t h = elim (Bool-cases (key == k)) [
      | inl e ↦
          let same : task ≡ t = ground (arith, get-put key k task db.tasks) in
          subst IsLimited same limited
      | inr e ↦ all k t (ground (arith, get-put key k task db.tasks))
    ]

attached_limited :
    (c : Collaborators) (key run_id node_run : ℕ) (runner_id : Option ℕ) (n : WorkflowNode)
    (db : Db)
    → AllLimited db
    → Commits AllLimited (attach_workspace c key run_id node_run runner_id n db)
unfolding attach_workspace create_workspace
attached_limited c key run_id node_run runner_id n db all =
    elim (Option-cases (if_truthy (field_in "repository" (get_field "workspace" n.config)))) [
      | inl e ↦ rw e all
      | inr (repository, e) ↦
          let w =
            new_workspace c.str_of run_id node_run runner_id (get_field "workspace" n.config)
              repository in
          elim (Bool-cases (may_create key w db)) [ inl m ↦ rw (e, m) all | inr m ↦ rw (e, m) tt ]
    ]

module _ (c : Collaborators) (task_key workspace_key : ℕ → ℕ) (now run_id : ℕ)
    (day : c.default_backoff_seconds ≤ 86400) where
  module _ (run : WorkflowRun) where
    enqueue_limited :
        (key : ℕ) (node_run : NodeRun) (n : WorkflowNode) (capability : Option String)
        (runner_id workspace : Option ℕ) (db : Db)
        → AllLimited db
        → Commits AllLimited (
            enqueue c task_key workspace_key now run_id run key node_run n capability runner_id
              workspace db)
    unfolding enqueue
    enqueue_limited key node_run n capability runner_id workspace db all =
        let (least, most, pause) =
          retry_settings_bounded c.int_of_text run.execution_snapshot n c.default_backoff_seconds
            day in
        elim (Result-cases (move_node NodeRunStatus.queued node_run)) [
          | inr (e, h) ↦ rw h tt
          | inl (n', h) ↦ rw h (
              Commits-then AllLimited _ (n.id ∷ []) (
                inserted_limited (task_key key) _ _
                  (record { one_attempt = least; few_attempts = most; short_backoff = pause }) all))
        ]

    submit_node_limited :
        (rows : Table NodeRun) (key : ℕ) (node_run : NodeRun) (n : WorkflowNode) (db : Db)
        → AllLimited db
        → Commits AllLimited
            (submit_node c task_key workspace_key now run_id run rows key node_run n db)
    unfolding submit_node
    submit_node_limited rows key node_run n db all = by_executor (executor_for c run rows n) refl
      where
        sent :
            (capability : String) (runner_id : Option ℕ) (input : Option Json)
            → Commits AllLimited (
                on_runner c task_key workspace_key now run_id run key node_run n capability
                  runner_id input db)
        sent capability runner_id none = all
        sent capability runner_id (some input) =
            Commits-continue AllLimited
              (attach_workspace c (workspace_key key) run_id key runner_id n db) _
              (attached_limited c (workspace_key key) run_id key runner_id n db all)
              (λ workspace d a. enqueue_limited key _ n (some capability) runner_id workspace d a)

        by_executor :
            (e : Executor)
            → executor_for c run rows n ≡ e
            → Commits AllLimited
                (submit_node c task_key workspace_key now run_id run rows key node_run n db)
        by_executor Executor.later h = rw (h, submit_node) all
        by_executor Executor.worker h =
            rw (h, submit_node) (enqueue_limited key node_run n none none none db all)
        by_executor (Executor.runner capability target) h =
            rw (h, submit_node) (sent capability target (c.resolve run rows n.input_mapping))

    submit_found_limited :
        (rows : Table NodeRun) (r : Option (ℕ × NodeRun)) (n : Option WorkflowNode) (db : Db)
        → AllLimited db
        → Commits AllLimited (submit_found c task_key workspace_key now run_id run rows r n db)
    submit_found_limited rows none n db all = all
    submit_found_limited rows (some r) none db all = all
    submit_found_limited rows (some (key, node_run)) (some n) db all =
        Commits-if AllLimited
          (no_keys (keys_where (λ (t : ExecutionTask). t.node_run_id == key) db.tasks)) _ _
          (λ _. submit_node_limited rows key node_run n db all) (λ _. all)

    submit_all_limited :
        (g : WorkflowGraph) (rows : Table NodeRun) (ids : List ℕ) (db : Db)
        → AllLimited db
        → Commits AllLimited (submit_all c task_key workspace_key now run_id run g rows ids db)
    unfolding submit_all
    submit_all_limited g rows [] db all = all
    submit_all_limited g rows (id ∷ ids) db all =
        Commits-continue AllLimited _ _
          (submit_found_limited rows (row_of id rows) (node g id) db all)
          (λ submitted d s.
            Commits-continue AllLimited
              (submit_all c task_key workspace_key now run_id run g rows ids d) _
              (submit_all_limited g rows ids d s) (λ more d' s'. s'))

    schedule_rows_limited :
        (db : Db)
        → AllLimited db
        → Commits AllLimited (
            schedule_rows c task_key workspace_key now run_id run
              (rows_where (in_run run_id) db.node_runs)
              db)
    unfolding schedule_rows write_marks
    schedule_rows_limited db all =
        let after =
          (mark_unreachable_condition_nodes run.graph_snapshot now
            (rows_where (in_run run_id) db.node_runs)).0 in
        submit_all_limited run.graph_snapshot after (find_ready_nodes run.graph_snapshot after) _
          all

  -- If every task has a limit of one to eleven attempts and a backoff of at most a day, then so has
  -- every task after the ready nodes of a run were submitted, whatever the configurations of the nodes
  -- and the retry policies of service actions say, where the default backoff is at most a day.
  pub schedule_ready_nodes-AllLimited :
      (db : Db)
      → AllLimited db
      → Commits AllLimited (schedule_ready_nodes c task_key workspace_key now run_id db)
  unfolding schedule_ready_nodes
  schedule_ready_nodes-AllLimited db all = elim (Option-cases (get run_id db.runs)) [
    | inl e ↦ rw (e, schedule_ready_nodes) all
    | inr (run, e) ↦
        rw (e, schedule_ready_nodes)
          (Commits-if AllLimited (WorkflowRun.is run.status WorkflowRunStatus.running) _ _
            (λ _. schedule_rows_limited run db all) (λ _. all))
  ]
