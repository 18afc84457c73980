-- ===== src/Tests/Graphs.antt =====
-- Searches in the branching graph of the scheduler's tests, and in a small cyclic one.
use relayvia.Prelude.{◌≡◌, ◌↔◌, refl, true, [], ◌∷◌}
use relayvia.Graph.{WorkflowGraph}
use relayvia.Graph.Reach.{mem, push, visit, reach, reachable_from}
use relayvia.Graph.Reach.Exact.{Reaches, reachable_from-Reaches}
use relayvia.Table.{get, put, keys_where, no_keys}
use relayvia.Graph.Cycle.{lower, relax, take_off, cycle_nodes}
use relayvia.Graph.Cycle.Exact.{Acyclic, cycle_nodes-Acyclic}
use relayvia.Tests.Rows.{chain, edge}

reached : reachable_from chain (2 ∷ []) ≡ 3 ∷ 2 ∷ []
unfolding reachable_from reach visit push
reached = refl

abbrev ring : WorkflowGraph
ring = record chain { edges = edge 1 1 2 ∷ edge 2 2 3 ∷ edge 3 3 1 ∷ [] }

reachable_from-Reaches_example :
    (mem 1 (reachable_from ring (2 ∷ [])) ≡ true) ↔ Reaches ring (2 ∷ []) 1
reachable_from-Reaches_example = reachable_from-Reaches ring (2 ∷ []) 1

cycle_nodes-Acyclic_example : (no_keys (cycle_nodes chain) ≡ true) ↔ Acyclic chain
cycle_nodes-Acyclic_example = cycle_nodes-Acyclic chain refl

whole_ring : cycle_nodes ring ≡ 1 ∷ 2 ∷ 3 ∷ []
unfolding cycle_nodes take_off relax lower get put keys_where
whole_ring = refl

-- The node 3 lies behind the cycle of 1 and 2, and is left over with them.
behind :
    cycle_nodes (record chain { edges = edge 1 1 2 ∷ edge 2 2 1 ∷ edge 3 2 3 ∷ [] })
    ≡ 1 ∷ 2 ∷ 3 ∷ []
unfolding cycle_nodes take_off relax lower get put keys_where
behind = refl
