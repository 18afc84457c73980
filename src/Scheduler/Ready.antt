-- ===== src/Scheduler/Ready.antt =====
-- `find_ready_nodes` and `_edge_is_active`. The node runs of a workflow run are its rows under their
-- keys; at most one has a given `node_id` (the constraint `uq_node_runs_workflow_node`).
use relayvia.Prelude.{
  ℕ, String, Bool, true, false, not, ◌&&◌, ◌||◌, Option, none, some, List, [], ◌∷◌, ◌==◌, filter,
  all, map, if◌then◌else◌,
}
use relayvia.Table.{Table}
use relayvia.Json.{Json, get_field}
use relayvia.Graph.{WorkflowNode, WorkflowEdge, WorkflowGraph, is_condition}
use relayvia.Graph.Index.{node, incoming_edges}
use relayvia.State.NodeRun.{NodeRunStatus}
use relayvia.State.NodeRun
use relayvia.Db.{NodeRun}
use text.Mathlib.Text.{◌==◌ as str_eq}

abbrev pub run_of : ℕ → Table NodeRun → Option NodeRun
run_of id [] = none
run_of id ((k, r) ∷ rows) = if r.node_id == id then some r else run_of id rows

-- The node with this identifier has a run, in the given status.
abbrev pub has_status : NodeRunStatus → Option NodeRun → Bool
has_status s none = false
has_status s (some r) = NodeRun.is r.status s

abbrev pub node_in : NodeRunStatus → ℕ → Table NodeRun → Bool
node_in s id rows = has_status s (run_of id rows)

abbrev pub is_condition_node : Option WorkflowNode → Bool
is_condition_node none = false
is_condition_node (some n) = is_condition n.kind

-- `output.get("selected_branch") if isinstance(output, dict) else None`, if it is a text (a
-- list or an object, which no condition node returns, could not be looked up in the set of branches)
abbrev text_of : Option Json → Option String
text_of (some (Json.str s)) = some s
text_of _ = none

abbrev output_of : Option NodeRun → Option Json
output_of none = none
output_of (some r) = r.output

abbrev selected_field : Option Json → Option Json
selected_field none = none
selected_field (some output) = get_field "selected_branch" output

unfoldable pub selected_branch : Option NodeRun → Option String
selected_branch run = text_of (selected_field (output_of run))

abbrev same_handle : Option String → String → Bool
same_handle none s = false
same_handle (some handle) s = str_eq handle s

-- `selected not in {"true", "false"} or edge.source_handle == selected`
unfoldable pub handle_selected : Option String → Option String → Bool
handle_selected handle none = true
handle_selected handle (some s) = not (str_eq s "true" || str_eq s "false") || same_handle handle s

unfoldable pub edge_is_active : WorkflowGraph → Table NodeRun → WorkflowEdge → Bool
edge_is_active g rows e =
    let run = run_of e.source rows in
    if has_status NodeRunStatus.skipped run
    then false
    else if not (is_condition_node (node g e.source))
    then true
    else if not (has_status NodeRunStatus.completed run)
    then true
    else handle_selected e.source_handle (selected_branch run)

abbrev pub active_edges : WorkflowGraph → Table NodeRun → ℕ → List WorkflowEdge
active_edges g rows id = filter (edge_is_active g rows) (incoming_edges g id)

abbrev pub non_empty {ℓ} : {A : Type ℓ} → List A → Bool
non_empty [] = false
non_empty (x ∷ xs) = true

unfoldable pub is_ready : WorkflowGraph → Table NodeRun → WorkflowNode → Bool
unfolding edge_is_active
is_ready g rows n =
    let active = active_edges g rows n.id in
    node_in NodeRunStatus.pending n.id rows
    && (non_empty active && all (λ e. node_in NodeRunStatus.completed e.source rows) active)

unfoldable pub find_ready_nodes : WorkflowGraph → Table NodeRun → List ℕ
unfolding is_ready
find_ready_nodes g rows = map (λ n. n.id) (filter (is_ready g rows) g.nodes)
