-- ===== src/Graph/Search.antt =====
-- The searches that expand a stack of nodes: `ancestors` and `descendants` of
-- backend/app/runtime/validation/graph_index.py, each with the node itself left out.
pub mod Exact
pub mod Paths
use relayvia.Prelude.{
  ℕ, zero, suc, ◌+◌, Bool, true, false, not, ◌||◌, List, [], ◌∷◌, ◌==◌, map, length, if◌then◌else◌,
}
use relayvia.Graph.{WorkflowEdge, WorkflowGraph}
use relayvia.Graph.Index.{incoming_edges, outgoing_edges}
use relayvia.Graph.Reach.{mem, stacked}

-- Where the expansion of a node goes on, and the nodes that the search passes over.
pub record Steps : Type 0 where
  pub next : ℕ → List ℕ
  pub passed : ℕ → Bool

-- The nodes that are neither seen nor passed over go on the stack.
unfoldable pub push_new : Steps → List ℕ → List ℕ → List ℕ → List ℕ
push_new s seen [] stack = stack
push_new s seen (x ∷ xs) stack =
    push_new s seen xs (if mem x seen || s.passed x then stack else x ∷ stack)

unfoldable pub expand : Steps → ℕ → List ℕ → List ℕ → List ℕ × List ℕ
unfolding push_new
expand s current stack seen =
    if s.passed current || mem current seen
    then (stack, seen)
    else (push_new s (current ∷ seen) (s.next current) stack, current ∷ seen)

-- `while stack`, at most `fuel` times
unfoldable pub search_from : ℕ → Steps → List ℕ → List ℕ → List ℕ
unfolding expand
search_from zero s stack seen = seen
search_from (suc fuel) s [] seen = seen
search_from (suc fuel) s (current ∷ stack) seen =
    let (stack', seen') = expand s current stack seen in search_from fuel s stack' seen'

abbrev pub sources : WorkflowGraph → ℕ → List ℕ
sources g id = map (λ e. e.source) (incoming_edges g id)

abbrev pub targets : WorkflowGraph → ℕ → List ℕ
targets g id = map (λ e. e.target) (outgoing_edges g id)

-- The stack begins with the neighbours of the node, and each edge puts a node on it at most once.
unfoldable pub ancestors : WorkflowGraph → ℕ → List ℕ
unfolding search_from
ancestors g id =
    search_from (suc (length (sources g id) + length g.edges))
      (record { next = sources g; passed = λ x. x == id }) (stacked (sources g id) []) []

unfoldable pub descendants : WorkflowGraph → ℕ → List ℕ
unfolding search_from
descendants g id =
    search_from (suc (length (targets g id) + length g.edges))
      (record { next = targets g; passed = λ x. x == id }) (stacked (targets g id) []) []
