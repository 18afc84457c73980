-- ===== src/Graph/Index.antt =====
-- `GraphIndex` of backend/app/runtime/validation/graph_index.py: the edges at a node. Node identifiers
-- are unique (`validate_graph_contract`), so the last entry of the source's dictionary is the only one.
use relayvia.Prelude.{ℕ, Option, none, some, List, [], ◌∷◌, ◌==◌, filter, if◌then◌else◌}
use relayvia.Graph.{WorkflowNode, WorkflowEdge, WorkflowGraph}

abbrev pub find_node : ℕ → List WorkflowNode → Option WorkflowNode
find_node id [] = none
find_node id (n ∷ nodes) = if n.id == id then some n else find_node id nodes

abbrev pub node : WorkflowGraph → ℕ → Option WorkflowNode
node g id = find_node id g.nodes

abbrev pub incoming_edges : WorkflowGraph → ℕ → List WorkflowEdge
incoming_edges g id = filter (λ e. e.target == id) g.edges

abbrev pub outgoing_edges : WorkflowGraph → ℕ → List WorkflowEdge
outgoing_edges g id = filter (λ e. e.source == id) g.edges
