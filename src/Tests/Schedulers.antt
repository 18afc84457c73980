-- ===== src/Tests/Schedulers.antt =====
-- The scheduler at a graph with a condition: 1 leads to the condition 2, which leads to 3 when true and
-- to 4 when false; 3 and 4 lead to 5.
use relayvia.Prelude.{
  ℕ, some, true, [], ◌∷◌, ◌≡◌, refl, arith, any, inl, inr, ◌||◌, ◌⊎◌, subst, sym,
}
use relayvia.Json.{Json, Fields}
use relayvia.Graph.{NodeKind, WorkflowGraph}
use relayvia.Table.{Table}
use relayvia.State.NodeRun.{NodeRunStatus, is_node_run_terminal}
use relayvia.State.NodeRun
use relayvia.State.WorkflowRun.{WorkflowRunStatus}
use relayvia.Db.{NodeRun}
use relayvia.Scheduler.Ready.{
  run_of, node_in, non_empty, selected_branch, handle_selected, edge_is_active, is_ready,
  find_ready_nodes,
}
use relayvia.Scheduler.Skip.{skip, unreachable, round, rounds, mark_unreachable_condition_nodes}
use relayvia.Scheduler.Skip.Rounds.{skipped_run}
use relayvia.Scheduler.Skip.Dead.{Dead, listed}
use relayvia.Graph.Index.{incoming_edges}
use relayvia.Scheduler.Skip.Exact.{mark-Dead}
use relayvia.Scheduler.Derive.{statuses, in_flight, derive_workflow_state}
use relayvia.Scheduler.Progress.{IsPlaced}
use relayvia.Scheduler.Progress.Running.{running_moves}
use relayvia.Tests.Rows.{input_node, agent_node, output_node, edge, node_row}

abbrev branching : WorkflowGraph
branching = record {
  nodes =
      input_node
      ∷ (record agent_node { kind = NodeKind.logic_condition })
      ∷ (record agent_node { id = 3 })
      ∷ (record agent_node { id = 4 })
      ∷ (record output_node { id = 5 })
      ∷ [];
  edges =
      edge 1 1 2
      ∷ (record (edge 2 2 3) { source_handle = some "true" })
      ∷ (record (edge 3 2 4) { source_handle = some "false" })
      ∷ edge 4 3 5
      ∷ edge 5 4 5
      ∷ [];
}

-- the condition has chosen the true branch
abbrev chosen : Table NodeRun
chosen =
    (11, node_row 1 NodeKind.data_input NodeRunStatus.completed)
    ∷ (
      12,
      record (node_row 2 NodeKind.logic_condition NodeRunStatus.completed) {
        output = some (Json.obj (Fields.field "selected_branch" (Json.str "true") Fields.end));
      },
    )
    ∷ (13, node_row 3 NodeKind.agent NodeRunStatus.pending)
    ∷ (14, node_row 4 NodeKind.agent NodeRunStatus.pending)
    ∷ (15, node_row 5 NodeKind.data_output NodeRunStatus.pending)
    ∷ []

marked : (mark_unreachable_condition_nodes branching 99 chosen).1 ≡ 4 ∷ []
unfolding mark_unreachable_condition_nodes rounds round unreachable skip edge_is_active
    handle_selected selected_branch
marked = refl

ready : find_ready_nodes branching (mark_unreachable_condition_nodes branching 99 chosen).0 ≡ 3 ∷ []
unfolding mark_unreachable_condition_nodes rounds round unreachable skip edge_is_active
    handle_selected selected_branch find_ready_nodes is_ready
ready = refl

derived :
    derive_workflow_state branching (mark_unreachable_condition_nodes branching 99 chosen).0
    ≡ WorkflowRunStatus.running
unfolding mark_unreachable_condition_nodes rounds round unreachable skip edge_is_active
    handle_selected selected_branch find_ready_nodes is_ready derive_workflow_state
    is_node_run_terminal
derived = refl

mark-Dead_example :
    (Dead branching chosen 4
      × (run_of 4 (mark_unreachable_condition_nodes branching 99 chosen).0
          ≡ skipped_run 99 (run_of 4 chosen)))
    ⊎ ((Dead branching chosen 4 → ⊥)
        × (run_of 4 (mark_unreachable_condition_nodes branching 99 chosen).0 ≡ run_of 4 chosen))
mark-Dead_example = mark-Dead branching 99 chosen 4

abbrev Rooted : ℕ → Type 0
Rooted id = (non_empty (incoming_edges branching id) ≡ true) × (listed branching id ≡ true)

pending_chosen :
    (id : ℕ) → node_in NodeRunStatus.pending id chosen ≡ true → (id ≡ 3) ⊎ ((id ≡ 4) ⊎ (id ≡ 5))
pending_chosen id p = ground arith

chosen-IsPlaced : IsPlaced branching (λ id. id) chosen
chosen-IsPlaced = record {
  up = refl;
  single = refl;
  rooted = λ id p. elim (pending_chosen id p) [
    | inl e ↦ subst Rooted (sym e) (refl, refl)
    | inr (inl e) ↦ subst Rooted (sym e) (refl, refl)
    | inr (inr e) ↦ subst Rooted (sym e) (refl, refl)
  ];
}

running_moves_example :
    (non_empty (find_ready_nodes branching (mark_unreachable_condition_nodes branching 99 chosen).0)
      || (any in_flight (statuses (mark_unreachable_condition_nodes branching 99 chosen).0)
          || any
              (λ s. NodeRun.is s NodeRunStatus.cancelled)
              (statuses (mark_unreachable_condition_nodes branching 99 chosen).0)))
    ≡ true
running_moves_example = running_moves branching (λ id. id) 99 chosen chosen-IsPlaced refl derived
