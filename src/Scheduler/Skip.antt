-- ===== src/Scheduler/Skip.antt =====
-- `mark_unreachable_condition_nodes`: the rounds of the fixed-point loop.
pub mod Rounds
pub mod Dead
pub mod Exact
use relayvia.Prelude.{
  ℕ, zero, suc, Bool, true, false, not, ◌&&◌, ◌||◌, Option, none, some, List, [], ◌∷◌, ◌++◌, ◌==◌,
  any, length, if◌then◌else◌,
}
use relayvia.Table.{Table}
use relayvia.Graph.{WorkflowNode, WorkflowGraph}
use relayvia.Graph.Index.{incoming_edges}
use relayvia.State.NodeRun.{NodeRunStatus}
use relayvia.Db.{NodeRun}
use relayvia.Scheduler.Ready.{run_of, node_in, edge_is_active, non_empty}

-- A write to the node run of a node. The transition from pending to skipped is in the table, so it is
-- never refused.
abbrev pub skip_row : ℕ → NodeRun → NodeRun
skip_row now r = record r { status = NodeRunStatus.skipped; finished_at = some now }

unfoldable pub skip : ℕ → ℕ → Table NodeRun → Table NodeRun
skip now id [] = []
skip now id ((k, r) ∷ rows) =
    if r.node_id == id then (k, skip_row now r) ∷ rows else (k, r) ∷ skip now id rows

-- The tests of one round for a node: its own status is read as it is now, those of the sources of its
-- edges as they were when the round began (`before`).
unfoldable pub unreachable : WorkflowGraph → Table NodeRun → Table NodeRun → WorkflowNode → Bool
unreachable g before rows n =
    let incoming = incoming_edges g n.id in
    node_in NodeRunStatus.pending n.id rows
    && (non_empty incoming && not (any (edge_is_active g before) incoming))

-- `for node in graph.nodes`: the rows after the round, and the nodes that it marked.
unfoldable pub round :
    WorkflowGraph → ℕ → Table NodeRun → List WorkflowNode → Table NodeRun → Table NodeRun × List ℕ
unfolding unreachable skip
round g now before [] rows = (rows, [])
round g now before (n ∷ nodes) rows =
    let marked = unreachable g before rows n in
    let (rows', ids) = round g now before nodes (if marked then skip now n.id rows else rows) in
    (rows', if marked then n.id ∷ ids else ids)

-- `while changed`, at most `fuel` rounds.
unfoldable pub rounds : ℕ → WorkflowGraph → ℕ → Table NodeRun → Table NodeRun × List ℕ
rounds zero g now rows = (rows, [])
rounds (suc fuel) g now rows =
    let (rows', ids) = round g now rows g.nodes rows in
    elim ids [
      | [] ↦ (rows', [])
      | i ∷ more ↦ (let (last, later) = rounds fuel g now rows' in (last, (i ∷ more) ++ later))
    ]

-- Each round but the last marks a pending node run, so one round more than there are rows is enough.
unfoldable pub mark_unreachable_condition_nodes :
    WorkflowGraph → ℕ → Table NodeRun → Table NodeRun × List ℕ
unfolding rounds round
mark_unreachable_condition_nodes g now rows = rounds (suc (length rows)) g now rows
