-- ===== src/Graph/Reach.antt =====
-- `GraphIndex.reachable_from` of backend/app/runtime/validation/graph_index.py. A set is a list, and the
-- stack is a list with its top first.
pub mod Ends
pub mod Exact
pub use relayvia.Prelude.{mem}
use relayvia.Prelude.{
  ℕ, zero, suc, ◌+◌, Bool, true, false, not, List, [], ◌∷◌, ◌==◌, any, length, if◌then◌else◌,
}
use relayvia.Graph.{WorkflowEdge, WorkflowGraph}
use relayvia.Graph.Index.{outgoing_edges}

-- `for edge in self.outgoing_edges(current)`: the targets that are not seen go on the stack.
unfoldable pub push : List ℕ → List WorkflowEdge → List ℕ → List ℕ
push seen [] stack = stack
push seen (e ∷ es) stack = push seen es (if mem e.target seen then stack else e.target ∷ stack)

-- The stack and the set after `current` was taken off the stack.
unfoldable pub visit : WorkflowGraph → ℕ → List ℕ → List ℕ → List ℕ × List ℕ
unfolding push
visit g current stack seen =
    if mem current seen
    then (stack, seen)
    else (push (current ∷ seen) (outgoing_edges g current) stack, current ∷ seen)

-- `while stack`, at most `fuel` times
unfoldable pub reach : ℕ → WorkflowGraph → List ℕ → List ℕ → List ℕ
unfolding visit
reach zero g stack seen = seen
reach (suc fuel) g [] seen = seen
reach (suc fuel) g (current ∷ stack) seen =
    let (stack', seen') = visit g current stack seen in reach fuel g stack' seen'

abbrev pub stacked : List ℕ → List ℕ → List ℕ
stacked [] stack = stack
stacked (x ∷ xs) stack = stacked xs (x ∷ stack)

-- What goes on the stack is a start or the target of an edge from a node that is seen once, so the
-- loop runs at most once for each start and each edge.
unfoldable pub reachable_from : WorkflowGraph → List ℕ → List ℕ
unfolding reach
reachable_from g start_ids =
    reach (suc (length start_ids + length g.edges)) g (stacked start_ids []) []
