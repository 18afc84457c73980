-- ===== src/Scheduler/Skip/Dead.antt =====
-- The nodes of a graph that no active path reaches.
use relayvia.Prelude.{
  ℕ, Bool, true, false, Option, none, some, List, [], ◌∷◌, ◌==◌, ◌≡◌, refl, any, arith,
}
use relayvia.Table.{Table}
use relayvia.Graph.{WorkflowEdge, WorkflowGraph}
use relayvia.Graph.Index.{incoming_edges}
use relayvia.State.NodeRun.{NodeRunStatus}
use relayvia.Db.{NodeRun}
use relayvia.Scheduler.Ready.{run_of, node_in, has_status, edge_is_active, non_empty}

abbrev pub listed : WorkflowGraph → ℕ → Bool
listed g id = any (λ n. n.id == id) g.nodes

-- A pending node of the graph that has inputs, and whose every input is inactive or comes from another
-- such node.
mutual
  pub data Dead (g : WorkflowGraph) (rows : Table NodeRun) : ℕ → Type 0 where
    dead :
        (id : ℕ)
        → listed g id ≡ true
        → node_in NodeRunStatus.pending id rows ≡ true
        → non_empty (incoming_edges g id) ≡ true
        → DeadEdges g rows (incoming_edges g id)
        → Dead g rows id

  pub data DeadEdges (g : WorkflowGraph) (rows : Table NodeRun) : List WorkflowEdge → Type 0 where
    no_edges : DeadEdges g rows []
    inactive :
        {e : WorkflowEdge} {es : List WorkflowEdge}
        → edge_is_active g rows e ≡ false
        → DeadEdges g rows es
        → DeadEdges g rows (e ∷ es)
    above :
        {e : WorkflowEdge} {es : List WorkflowEdge}
        → Dead g rows e.source
        → DeadEdges g rows es
        → DeadEdges g rows (e ∷ es)

pub edge_same :
    (g : WorkflowGraph) (a b : Table NodeRun) (e : WorkflowEdge)
    → run_of e.source a ≡ run_of e.source b
    → edge_is_active g a e ≡ edge_is_active g b e
unfolding edge_is_active
edge_same g a b e h = rw h refl

pub edge_skipped :
    (g : WorkflowGraph) (rows : Table NodeRun) (e : WorkflowEdge)
    → node_in NodeRunStatus.skipped e.source rows ≡ true
    → edge_is_active g rows e ≡ false
unfolding edge_is_active
edge_skipped g rows e h = rw h refl

pub pending_row :
    (o : Option NodeRun)
    → has_status NodeRunStatus.pending o ≡ true
    → (r : NodeRun) × (o ≡ some r) × (r.status ≡ NodeRunStatus.pending)
pending_row none h = cc
pending_row (some r) h = (r, refl, ground arith)

pub pending_not_skipped :
    (o : Option NodeRun)
    → has_status NodeRunStatus.pending o ≡ true
    → has_status NodeRunStatus.skipped o ≡ true
    → ⊥
pending_not_skipped none p h = ground arith
pending_not_skipped (some r) p h = ground arith
