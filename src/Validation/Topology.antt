-- ===== src/Validation/Topology.antt =====
-- `validate_topology` of backend/app/runtime/validation/rules/topology.py.
pub mod Pairing
pub mod WellFormed
pub mod Parts
pub mod Exact
use relayvia.Prelude.{
  ℕ, suc, ◌+◌, String, Bool, true, false, not, ◌&&◌, ◌||◌, Option, none, some, List, [], ◌∷◌, ◌++◌,
  ◌==◌, map, any, filter, length, mem, no_items, ltb, if◌then◌else◌,
}
use relayvia.Table.{no_keys}
use relayvia.Json.{Json, get_field}
use relayvia.Graph.{
  NodeKind, WorkflowNode, WorkflowEdge, WorkflowGraph, is_condition, is_data_input, is_data_output,
  is_parallel, is_merge,
}
use relayvia.Graph.Index.{node, incoming_edges, outgoing_edges}
use relayvia.Graph.Reach.{reachable_from, stacked}
use relayvia.Graph.Cycle.{cycle_nodes}
use relayvia.Graph.Search.{Steps, search_from, targets, ancestors, descendants}
use relayvia.Validation.Issue.{ValidationCode, ValidationIssue, issue, when}
use text.Mathlib.Text.{◌==◌ as str_eq}

-- `GraphIndex.entry_node_ids`
abbrev pub entry_node_ids : WorkflowGraph → List ℕ
entry_node_ids g = map (λ n. n.id) (filter (λ n. is_data_input n.kind) g.nodes)

-- `GraphIndex.output_node_ids`
abbrev pub output_node_ids : WorkflowGraph → List ℕ
output_node_ids g = map (λ n. n.id) (filter (λ n. is_data_output n.kind) g.nodes)

-- `GraphIndex.has_cycle`
unfoldable pub has_cycle : WorkflowGraph → Bool
has_cycle g = not (no_keys (cycle_nodes g))

abbrev edge_issue : ValidationCode → ℕ → WorkflowEdge → ValidationIssue
edge_issue code id e = issue code (some id) (some e.id)

unfoldable pub entry_issues : WorkflowGraph → List ℕ → List ValidationIssue
entry_issues g [] = issue ValidationCode.missing_input_node none none ∷ []
entry_issues g (entry ∷ []) =
    map (edge_issue ValidationCode.invalid_input_node_edge entry) (incoming_edges g entry)
entry_issues g (_ ∷ _ ∷ _) = issue ValidationCode.multiple_input_nodes none none ∷ []

abbrev pub outgoing_issues : WorkflowGraph → List ℕ → List ValidationIssue
outgoing_issues g [] = []
outgoing_issues g (output ∷ outputs) =
    map (edge_issue ValidationCode.invalid_output_node_edge output) (outgoing_edges g output)
    ++ outgoing_issues g outputs

unfoldable pub output_issues : WorkflowGraph → List ℕ → List ValidationIssue
output_issues g [] = issue ValidationCode.missing_output_node none none ∷ []
output_issues g (output ∷ outputs) = outgoing_issues g (output ∷ outputs)

abbrev pub node_issues :
    ValidationCode → (WorkflowNode → Bool) → List WorkflowNode → List ValidationIssue
node_issues code test nodes = map (λ n. issue code (some n.id) none) (filter test nodes)

abbrev pub is_single {ℓ} : {A : Type ℓ} → List A → Bool
is_single (x ∷ []) = true
is_single _ = false

unfoldable pub unreachable_issues : WorkflowGraph → List ℕ → List ValidationIssue
unfolding has_cycle
unreachable_issues g entry =
    if is_single entry && not (has_cycle g)
    then (let reachable = reachable_from g entry in
        node_issues ValidationCode.unreachable_node (λ n. not (mem n.id reachable)) g.nodes)
    else []

-- `reverse_reachable` after its loop over the outputs
abbrev pub reverse_reachable : WorkflowGraph → List ℕ → List ℕ
reverse_reachable g [] = []
reverse_reachable g (output ∷ outputs) =
    (output ∷ ancestors g output) ++ reverse_reachable g outputs

-- `_is_data`, and the logic nodes that other checks look after
abbrev pub is_exempt : NodeKind → Bool
is_exempt kind =
    (is_data_input kind || is_data_output kind)
    || (is_condition kind || (is_parallel kind || is_merge kind))

unfoldable pub dead_end_issues : WorkflowGraph → List ℕ → List ℕ → List ValidationIssue
unfolding has_cycle
dead_end_issues g entry outputs =
    if not (no_items outputs) && (not (has_cycle g) && is_single entry)
    then (let reverse = reverse_reachable g outputs in
        let reachable = reachable_from g entry in
        node_issues ValidationCode.dead_end_branch
          (λ n. mem n.id reachable && (not (mem n.id reverse) && not (is_exempt n.kind))) g.nodes)
    else []

abbrev pub is_text : String → Option Json → Bool
is_text s (some (Json.str t)) = str_eq t s
is_text s _ = false

unfoldable pub parallel_issues : WorkflowGraph → WorkflowNode → List ValidationIssue
parallel_issues g n =
    when (ltb (length (outgoing_edges g n.id)) 2)
      (issue ValidationCode.invalid_parallel (some n.id) none)
    ++ when (not (length (incoming_edges g n.id) == 1))
        (issue ValidationCode.invalid_parallel (some n.id) none)

unfoldable pub merge_issues : WorkflowGraph → WorkflowNode → List ValidationIssue
merge_issues g n =
    when (not (is_text "all" (get_field "strategy" n.config)))
      (issue ValidationCode.invalid_merge (some n.id) none)
    ++ (when (ltb (length (incoming_edges g n.id)) 2)
          (issue ValidationCode.invalid_merge (some n.id) none)
        ++ when (not (length (outgoing_edges g n.id) == 1))
            (issue ValidationCode.invalid_merge (some n.id) none))

unfoldable pub structure_issues : WorkflowGraph → List WorkflowNode → List ValidationIssue
unfolding parallel_issues merge_issues
structure_issues g [] = []
structure_issues g (n ∷ nodes) =
    (if is_parallel n.kind
      then parallel_issues g n
      else if is_merge n.kind
      then merge_issues g n
      else [])
    ++ structure_issues g nodes

abbrev pub is_merge_node : Option WorkflowNode → Bool
is_merge_node none = false
is_merge_node (some n) = is_merge n.kind

-- The search that does not expand beyond merge nodes.
abbrev pub merge_free_steps : WorkflowGraph → Steps
merge_free_steps g = record {
  next = λ x. if is_merge_node (node g x) then [] else targets g x;
  passed = λ x. false;
}

unfoldable pub merge_free : WorkflowGraph → ℕ → List ℕ
merge_free g id =
    search_from (suc (length (targets g id) + length g.edges)) (merge_free_steps g)
      (stacked (targets g id) []) []

-- a parallel with a merge below it and an output that is reached without one
unfoldable pub bypasses : WorkflowGraph → WorkflowNode → Bool
unfolding merge_free
bypasses g n =
    is_parallel n.kind
    && (any (λ x. is_merge_node (node g x)) (descendants g n.id)
        && any (λ x. mem x (output_node_ids g)) (merge_free g n.id))

unfoldable pub pairing_issues : WorkflowGraph → List ValidationIssue
unfolding bypasses
pairing_issues g = node_issues ValidationCode.invalid_parallel_merge_structure (bypasses g) g.nodes

unfoldable pub validate_parallel_merge : WorkflowGraph → List ValidationIssue
unfolding structure_issues pairing_issues has_cycle
validate_parallel_merge g =
    structure_issues g g.nodes ++ (if has_cycle g then [] else pairing_issues g)

unfoldable pub validate_topology : WorkflowGraph → List ValidationIssue
unfolding entry_issues output_issues has_cycle unreachable_issues dead_end_issues
    validate_parallel_merge
validate_topology g =
    let entry = entry_node_ids g in
    let outputs = output_node_ids g in
    entry_issues g entry
    ++ (output_issues g outputs
        ++ (when (has_cycle g) (issue ValidationCode.unsupported_cycle none none)
            ++ (unreachable_issues g entry
                ++ (dead_end_issues g entry outputs ++ validate_parallel_merge g))))
