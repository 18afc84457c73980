-- ===== src/Tests/Validations.antt =====
-- The validation of the chain of the small database, and a run of it.
use relayvia.Prelude.{
  ℕ, ◌+◌, ◌≡◌, ◌↔◌, ap, refl, true, false, ◌||◌, any, all, map, mem, distinct, no_items, [], ◌∷◌,
  ◌==◌, filter, if◌then◌else◌, some, none,
}
use relayvia.Graph.{WorkflowGraph}
use relayvia.Graph.Cycle.{lower, relax, take_off, cycle_nodes}
use relayvia.Graph.Reach.{push, visit, reach, reachable_from}
use relayvia.Graph.Search.{push_new, expand, search_from, ancestors, descendants}
use relayvia.Graph.Search.Paths.{LeadsTo, neighbours_exact}
use relayvia.Table.{Table, get, put, keys_where}
use relayvia.Json.{empty_object}
use relayvia.State.NodeRun
use relayvia.State.NodeRun.{NodeRunStatus, is_node_run_terminal}
use relayvia.State.WorkflowRun.{WorkflowRunStatus}
use relayvia.Db.{NodeRun}
use relayvia.Scheduler.Ready.{
  run_of, non_empty, selected_branch, handle_selected, edge_is_active, is_ready, find_ready_nodes,
}
use relayvia.Scheduler.Skip.{skip, unreachable, round, rounds, mark_unreachable_condition_nodes}
use relayvia.Scheduler.Derive.{statuses, in_flight, derive_workflow_state}
use relayvia.Validation.Issue.{ValidationCode}
use relayvia.Validation.Identity.{
  counter_keys, duplicated, same_connection, edge_issues, validate_identity,
}
use relayvia.Validation.Identity.Exact.{joins, distinct_connections, validate_identity_none}
use relayvia.Validation.Topology.{
  has_cycle, entry_issues, output_issues, unreachable_issues, dead_end_issues, parallel_issues,
  merge_issues, structure_issues, merge_free, bypasses, pairing_issues, validate_parallel_merge,
  validate_topology,
}
use relayvia.Validation.Topology.WellFormed.{IsWellFormed}
use relayvia.Validation.Topology.Exact.{validate_topology_none}
use relayvia.Runs.Create.{node_runs_of, create_node_runs}
use relayvia.Runs.Create.Start.{follows_inputs, is_input_node, run_output, new_run_starts}
use relayvia.Graph.Index.{node}
use relayvia.Runs.Create.Valid.{create_node_runs-IsRunOf, valid_run_moves}
use relayvia.Tests.Rows.{chain, edge}

identity_clean : validate_identity chain ≡ []
unfolding validate_identity duplicated counter_keys edge_issues same_connection
identity_clean = refl

topology_clean : validate_topology chain ≡ []
unfolding validate_topology has_cycle entry_issues output_issues unreachable_issues dead_end_issues
    parallel_issues merge_issues structure_issues merge_free bypasses pairing_issues
    validate_parallel_merge ancestors descendants search_from expand push_new reachable_from reach
    visit push cycle_nodes take_off relax lower get put keys_where
topology_clean = refl

-- an edge that comes back, and one that loops
abbrev knotted : WorkflowGraph
knotted = record chain { edges = edge 1 1 2 ∷ edge 2 2 3 ∷ edge 3 2 2 ∷ edge 3 1 2 ∷ [] }

knotted_issues :
    map (λ i. i.code) (validate_identity knotted)
    ≡ ValidationCode.duplicate_edge_id ∷ ValidationCode.self_connection
      ∷ ValidationCode.duplicate_connection ∷ []
unfolding validate_identity duplicated counter_keys edge_issues same_connection
knotted_issues = refl

abbrev fresh : Table NodeRun
fresh = create_node_runs (λ id. id + 10) 1 chain empty_object

neighbours_exact_example :
    ((mem 1 (ancestors chain 3) ≡ true) ↔ (LeadsTo chain 1 3 × ((1 == 3) ≡ false)))
    × ((mem 1 (descendants chain 3) ≡ true) ↔ (LeadsTo chain 3 1 × ((1 == 3) ≡ false)))
neighbours_exact_example = neighbours_exact chain 3 1

validate_identity_none_example : (no_items (validate_identity knotted) ≡ true) ↔ (
    (distinct (map (λ n. n.id) knotted.nodes) ≡ true)
    × (distinct (map (λ e. e.id) knotted.edges) ≡ true)
    × (all (joins (map (λ n. n.id) knotted.nodes)) knotted.edges ≡ true)
    × (distinct_connections knotted.edges ≡ true))
validate_identity_none_example = validate_identity_none knotted

fresh_derived :
    derive_workflow_state chain (mark_unreachable_condition_nodes chain 99 fresh).0
    ≡ WorkflowRunStatus.running
unfolding create_node_runs node_runs_of mark_unreachable_condition_nodes rounds round unreachable
    skip edge_is_active handle_selected selected_branch find_ready_nodes is_ready
    derive_workflow_state is_node_run_terminal
fresh_derived = refl

valid_run_moves_example :
    (non_empty (find_ready_nodes chain (mark_unreachable_condition_nodes chain 99 fresh).0)
      || (any in_flight (statuses (mark_unreachable_condition_nodes chain 99 fresh).0)
          || any
              (λ s. NodeRun.is s NodeRunStatus.cancelled)
              (statuses (mark_unreachable_condition_nodes chain 99 fresh).0)))
    ≡ true
valid_run_moves_example =
    valid_run_moves chain 99 fresh (ap no_items identity_clean) (ap no_items topology_clean)
      (create_node_runs-IsRunOf (λ id. id + 10) 1 chain empty_object (ap no_items identity_clean))
      fresh_derived

validate_topology_none_example :
    (no_items (validate_topology chain) ≡ true) ↔ ((entry : ℕ) × IsWellFormed chain entry)
validate_topology_none_example = validate_topology_none chain refl

new_run_starts_example :
    (find_ready_nodes chain fresh ≡ map (λ n. n.id) (filter (follows_inputs chain) chain.nodes))
    × ((id : ℕ)
        → run_output (run_of id fresh)
          ≡ (if is_input_node (node chain id) then some empty_object else none))
new_run_starts_example = new_run_starts (λ id. id + 10) 1 chain empty_object

started_behind_input : map (λ n. n.id) (filter (follows_inputs chain) chain.nodes) ≡ 2 ∷ []
started_behind_input = refl
