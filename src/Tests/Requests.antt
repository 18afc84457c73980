-- ===== src/Tests/Requests.antt =====
-- A run that waits for an approval: its node run is decided, and the run goes on.
use relayvia.Prelude.{
  Memᴰ, List, ◌↔◌, not, ◌&&◌, ◌||◌, ◌+◌, true, false, some, none, [], ◌∷◌, ◌≡◌, refl, inl, arith,
  map,
}
use relayvia.Errors.{ErrorCode, ok, err, is_ok}
use relayvia.Table.{Table, get, put, keys_where, rows_at, rows_where, put_all}
use relayvia.Json.{Json, Fields, empty_object}
use relayvia.Graph.{NodeKind, WorkflowNode}
use relayvia.State.WorkflowRun.{WorkflowRunStatus}
use relayvia.State.WorkflowRun
use relayvia.State.NodeRun.{NodeRunStatus, transition_node_run, is_node_run_terminal}
use relayvia.State.ExecutionTask.{ExecutionTaskStatus}
use relayvia.Db.{WorkflowRun, NodeRun, WaitingReason, RunEventType, Db, for_each}
use relayvia.Queue.Effects.{move_node}
use relayvia.Queue.Upkeep.{may_insert, insert_task}
use relayvia.Queue.Sound.{IsSound}
use relayvia.Queue.Sound.Claims.{IsQueued}
use relayvia.Queue.Sound.Trace.{submit_call}
use relayvia.Runs.Human.{
  require_waiting, waiting_node, approved, rejected, submitted, decide, approve_node_run,
}
use relayvia.Runs.Human.Decisions.{decided_once}
use relayvia.Runs.Human.Approval.{AwaitsApproval, approve_iff_awaited}
use relayvia.Runs.Trace.{Draws, Call, serve, serve_all, serve_all-IsSound}
use relayvia.Scheduler.Dispatch.{Collaborators, Moment, coding_agent, executor_for}
use relayvia.Scheduler.Retry.{bounded_int, service_backoff_seconds, retry_settings_for_node}
use relayvia.Db.Keeps.{Commits}
use relayvia.Scheduler.Submit.Limits.{AllLimited, schedule_ready_nodes-AllLimited}
use relayvia.Scheduler.Ready.{
  selected_branch, handle_selected, edge_is_active, is_ready, find_ready_nodes,
}
use relayvia.Scheduler.Skip.{skip, unreachable, round, rounds, mark_unreachable_condition_nodes}
use relayvia.Scheduler.Derive.{derive_workflow_state}
use relayvia.Scheduler.Submit.{
  enqueue, submit_node, submit_all, write_marks, schedule_rows, schedule_ready_nodes,
}
use relayvia.Scheduler.Waits.{promote_due_waits, promote_wait, wait_due, wait_fails}
use relayvia.Runs.Cancel.{move_run}
use relayvia.Scheduler.Reconcile.Moves.{all_done, derived_move_allowed}
use relayvia.Scheduler.Reconcile.{
  waiting_reason, finish_reconcile, derive_state, reconcile_found, reconcile_run,
}
use relayvia.Tests.Rows.{input_node, agent_node, output_node, chain, run_row, node_row, task_row}

abbrev plain : Collaborators
plain = record {
  resolve = λ run rows value. some value;
  sanitize_output = λ value. value;
  int_of_text = λ text. none;
  is_blank = λ text. false;
  str_of = λ value. "text";
  fromisoformat = λ text. some (Moment.aware 5);
  id_of = λ text. 1;
  default_priority = 0;
  default_backoff_seconds = 5;
}

abbrev draws : Draws
draws = record { task_key = λ k. k + 100; workspace_key = λ k. k + 200; now = 50 }

-- the node 2 waits for an approval, and the output 3 comes after it
abbrev parked : Db
parked = record {
  runs =
      (
        1,
        record (run_row WorkflowRunStatus.running) {
          graph_snapshot = record chain {
            nodes =
                input_node
                ∷ (record agent_node { kind = NodeKind.human_approval })
                ∷ output_node
                ∷ [];
          };
        },
      )
      ∷ [];
  node_runs =
      (11, node_row 1 NodeKind.data_input NodeRunStatus.completed)
      ∷ (
        12,
        record (node_row 2 NodeKind.human_approval NodeRunStatus.waiting) {
          waiting_reason = some WaitingReason.human_approval;
        },
      )
      ∷ (13, node_row 3 NodeKind.data_output NodeRunStatus.pending)
      ∷ [];
  tasks = (101, task_row 12 1 ExecutionTaskStatus.completed) ∷ [];
  workspaces = [];
  events = [];
}

parked-IsSound : IsSound parked
unfolding get
parked-IsSound = record {
  paired = λ i t h. ground arith;
  leased = λ i t h. ground arith;
  single = λ i j t u hi hj e. ground arith;
}

approval :
    map
      (λ r. r.1.status)
      (serve plain (λ s. true) (λ s v. true) (Call.approve draws 12) parked).node_runs
    ≡ NodeRunStatus.completed ∷ NodeRunStatus.completed ∷ NodeRunStatus.queued ∷ []
unfolding serve approve_node_run decide approved require_waiting waiting_node move_node
    transition_node_run get put reconcile_run reconcile_found promote_due_waits promote_wait
    wait_due wait_fails keys_where for_each rows_at rows_where put_all schedule_ready_nodes
    schedule_rows write_marks submit_all submit_node enqueue insert_task may_insert executor_for
    coding_agent retry_settings_for_node bounded_int service_backoff_seconds derive_state
    finish_reconcile waiting_reason derive_workflow_state is_node_run_terminal find_ready_nodes
    is_ready edge_is_active handle_selected selected_branch mark_unreachable_condition_nodes rounds
    round unreachable skip
approval = refl

-- the node run of the output is queued already, and has no task yet
abbrev queued_output : Db
queued_output = record parked {
  node_runs =
      (11, node_row 1 NodeKind.data_input NodeRunStatus.completed)
      ∷ (
        12,
        record (node_row 2 NodeKind.human_approval NodeRunStatus.waiting) {
          waiting_reason = some WaitingReason.human_approval;
        },
      )
      ∷ (13, node_row 3 NodeKind.data_output NodeRunStatus.queued)
      ∷ [];
}

queued_output-IsSound : IsSound queued_output
unfolding get
queued_output-IsSound = record {
  paired = λ i t h. ground arith;
  leased = λ i t h. ground arith;
  single = λ i j t u hi hj e. ground arith;
}

output-IsQueued : IsQueued 13 queued_output
unfolding get
output-IsQueued n h = ground arith

abbrev calls : List Call
calls =
    Call.queue (
      submit_call 110 1 13 (record { node_id = 3; retry_backoff_seconds = 5; workspace = none }) 0 1
        40 40)
    ∷ Call.approve draws 12
    ∷ Call.reconcile draws 1
    ∷ Call.pause draws 1
    ∷ []

serve_all-IsSound_example : IsSound (serve_all plain (λ s. true) (λ s v. true) calls queued_output)
serve_all-IsSound_example =
    serve_all-IsSound plain (λ s. true) (λ s v. true) calls queued_output
      (output-IsQueued, (tt, (tt, (tt, tt)))) queued_output-IsSound

approval_awaited : AwaitsApproval 12 parked
unfolding get
approval_awaited = record {
  node_run = record (node_row 2 NodeKind.human_approval NodeRunStatus.waiting) {
    waiting_reason = some WaitingReason.human_approval;
  };
  node_run_row = refl;
  waits = refl;
  for_approval = refl;
  of_approval_node = refl;
  run = record (run_row WorkflowRunStatus.running) {
    graph_snapshot = record chain {
      nodes =
          input_node ∷ (record agent_node { kind = NodeKind.human_approval }) ∷ output_node ∷ [];
    };
  };
  run_row = refl;
  run_live = inl refl;
  graph_node = record agent_node { kind = NodeKind.human_approval };
  in_graph = Memᴰ.tail (Memᴰ.head refl);
  same_node = refl;
}

approve_iff_awaited_example :
    (is_ok (decide 12 (approved 50) RunEventType.node_completed parked) ≡ true)
    ↔ AwaitsApproval 12 parked
approve_iff_awaited_example = approve_iff_awaited 50 12 RunEventType.node_completed parked

abbrev after_approval : Db
after_approval = elim (decide 12 (approved 50) RunEventType.node_completed parked) [
  | ok (k, d) ↦ d
  | err e ↦ parked
]

approval_made : decide 12 (approved 50) RunEventType.node_completed parked ≡ ok (1, after_approval)
unfolding decide approved require_waiting waiting_node move_node transition_node_run get put
approval_made = refl

decided_once_example :
    (decide 12 (approved 60) RunEventType.node_completed after_approval
      ≡ err ErrorCode.node_run_not_waiting)
    × (decide 12 (rejected 60) RunEventType.node_completed after_approval
        ≡ err ErrorCode.node_run_not_waiting)
    × (decide 12
          (submitted (λ s. true) (λ s v. true) empty_object 60)
          RunEventType.node_completed
          after_approval
        ≡ err ErrorCode.node_run_not_waiting)
decided_once_example =
    decided_once (λ s. true) (λ s v. true) empty_object 50 60 (approved 50) (inl refl)
      RunEventType.node_completed 12 1 parked after_approval approval_made
      RunEventType.node_completed empty_object

abbrev retrying_node : WorkflowNode
retrying_node = record agent_node {
  config = Json.obj (
      Fields.field "retry" (Json.obj (Fields.field "max_retries" (Json.nat 99) Fields.end))
        Fields.end);
}

after_approval-AllLimited : AllLimited after_approval
unfolding decide approved require_waiting waiting_node move_node transition_node_run get put
after_approval-AllLimited k t h = record {
  one_attempt = ground arith;
  few_attempts = ground arith;
  short_backoff = ground arith;
}

schedule_ready_nodes-AllLimited_example :
    Commits AllLimited
      (schedule_ready_nodes plain (λ k. k + 100) (λ k. k + 200) 50 1 after_approval)
schedule_ready_nodes-AllLimited_example =
    schedule_ready_nodes-AllLimited plain (λ k. k + 100) (λ k. k + 200) 50 1 (ground arith)
      after_approval after_approval-AllLimited

clipped_to_ten : retry_settings_for_node (λ text. none) empty_object retrying_node 5 ≡ (11, 5)
unfolding retry_settings_for_node bounded_int service_backoff_seconds
clipped_to_ten = refl

-- a waiting run whose last wait has just been completed
abbrev waiting_run : WorkflowRun
waiting_run = run_row WorkflowRunStatus.waiting

abbrev done_rows : Table NodeRun
done_rows = (11, node_row 1 NodeKind.data_input NodeRunStatus.completed) ∷ []

derived_move_allowed_example :
    (WorkflowRun.is (derive_workflow_state waiting_run.graph_snapshot done_rows) waiting_run.status
      || is_ok (move_run (derive_workflow_state waiting_run.graph_snapshot done_rows) waiting_run))
    ≡ not (WorkflowRun.is waiting_run.status WorkflowRunStatus.waiting && all_done done_rows)
derived_move_allowed_example = derived_move_allowed waiting_run done_rows refl

move_refused :
    (WorkflowRun.is waiting_run.status WorkflowRunStatus.waiting && all_done done_rows) ≡ true
unfolding is_node_run_terminal
move_refused = refl
