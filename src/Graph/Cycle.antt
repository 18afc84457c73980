-- ===== src/Graph/Cycle.antt =====
-- `GraphIndex.cycle_nodes` of backend/app/runtime/validation/graph_index.py: what is left over when
-- nodes without a remaining incoming edge are taken off.
pub mod Relax
pub mod Order
pub mod Acyclic
pub mod Exact
use relayvia.Prelude.{
  ℕ, zero, suc, ◌-◌, Bool, Option, none, some, List, [], ◌∷◌, ◌++◌, ◌==◌, length, if◌then◌else◌,
  ltb,
}
use relayvia.Table.{Table, get, put, keys_where}
use relayvia.Graph.{WorkflowNode, WorkflowEdge, WorkflowGraph}
use relayvia.Graph.Index.{incoming_edges, outgoing_edges}

-- `indegree`: a row for each node
abbrev pub in_degrees : WorkflowGraph → List WorkflowNode → Table ℕ
in_degrees g [] = []
in_degrees g (n ∷ nodes) = (n.id, length (incoming_edges g n.id)) ∷ in_degrees g nodes

-- The body of `for edge in self.outgoing_edges(current)`, by the degree of the edge's target. A degree
-- becomes zero from one; below zero it is zero here, and counts as not positive as in the source.
unfoldable pub lower : ℕ → Option ℕ → Table ℕ → List ℕ → Table ℕ × List ℕ
lower t none degrees queue = (degrees, queue)
lower t (some d) degrees queue =
    (put t (d - 1) degrees, if d == 1 then queue ++ (t ∷ []) else queue)

unfoldable pub relax : List WorkflowEdge → Table ℕ → List ℕ → Table ℕ × List ℕ
unfolding lower
relax [] degrees queue = (degrees, queue)
relax (e ∷ es) degrees queue =
    let (degrees', queue') = lower e.target (get e.target degrees) degrees queue in
    relax es degrees' queue'

-- `while queue`, at most `fuel` times
unfoldable pub take_off : ℕ → WorkflowGraph → Table ℕ → List ℕ → Table ℕ
unfolding relax
take_off zero g degrees queue = degrees
take_off (suc fuel) g degrees [] = degrees
take_off (suc fuel) g degrees (current ∷ queue) =
    let (degrees', queue') = relax (outgoing_edges g current) degrees queue in
    take_off fuel g degrees' queue'

-- Every node is put in the queue at most once.
unfoldable pub cycle_nodes : WorkflowGraph → List ℕ
unfolding take_off
cycle_nodes g =
    let degrees = in_degrees g g.nodes in
    keys_where (ltb 0)
      (take_off (suc (length g.nodes)) g degrees (keys_where (λ d. d == 0) degrees))
