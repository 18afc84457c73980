-- ===== src/Scheduler/Progress/Running.antt =====
-- What a derived status of the run says of its nodes.
use relayvia.Prelude.{
  ℕ, suc, Bool, true, false, ◌||◌, List, [], ◌∷◌, ◌==◌, ◌≡◌, refl, any, all, length, arith, inl,
  inr, Bool-cases,
}
use relayvia.Table.{Table}
use relayvia.Graph.{WorkflowGraph}
use relayvia.State.NodeRun.{NodeRunStatus}
use relayvia.State.NodeRun
use relayvia.Db.{NodeRun}
use relayvia.Scheduler.Ready.{node_in, non_empty, find_ready_nodes}
use relayvia.Scheduler.Skip.{mark_unreachable_condition_nodes}
use relayvia.Scheduler.Skip.Rounds.{Stable, rounds-Stable, fuel_suffices}
use relayvia.Scheduler.Derive.{statuses, in_flight}
use relayvia.State.WorkflowRun.{WorkflowRunStatus}
use relayvia.State.NodeRun.{is_node_run_terminal}
use relayvia.Scheduler.Derive.{derive_workflow_state}
use relayvia.Scheduler.Progress.{
  node_ids, mem, unsettled, distinct, IsPlaced, mark-IsPlaced, pending_moves, node_ids-mark,
}

-- a pending status in the list is the status of the run of some node
pending_node :
    (rows : Table NodeRun)
    → distinct (node_ids rows) ≡ true
    → any (λ s. NodeRun.is s NodeRunStatus.pending) (statuses rows) ≡ true
    → (id : ℕ) × (mem id (node_ids rows) ≡ true) × (node_in NodeRunStatus.pending id rows ≡ true)
pending_node [] d h = cc
pending_node ((k, r) ∷ rows) d h = elim (Bool-cases (NodeRun.is r.status NodeRunStatus.pending)) [
  | inl p ↦ (r.node_id, ground arith, ground arith)
  | inr n ↦
      let (id, m, p) = pending_node rows (ground arith) (rw n at h) in
      elim (Bool-cases (r.node_id == id)) [
        | inl e ↦
            let at : r.node_id ≡ id = ground arith in
            let apart : mem r.node_id (node_ids rows) ≡ false = ground arith in
            absurd (cc (at, m, apart))
        | inr e ↦ (id, ground arith, ground arith)
      ]
]

any-unsettled :
    (ss : List NodeRunStatus)
    → any unsettled ss ≡ true
    → any (λ s. NodeRun.is s NodeRunStatus.failed) ss ≡ false
    → any (λ s. NodeRun.is s NodeRunStatus.waiting) ss ≡ false
    → (any in_flight ss || any (λ s. NodeRun.is s NodeRunStatus.cancelled) ss) ≡ true
any-unsettled [] u f w = cc
any-unsettled (s ∷ ss) u f w = elim (Bool-cases (unsettled s)) [
  | inl e ↦ ground arith
  | inr e ↦ ground (arith, any-unsettled ss (rw e at u) (ground arith) (ground arith))
]

all_terminal :
    (ss : List NodeRunStatus)
    → any (λ s. NodeRun.is s NodeRunStatus.pending) ss ≡ false
    → any unsettled ss ≡ false
    → all is_node_run_terminal ss ≡ true
unfolding is_node_run_terminal
all_terminal [] p u = refl
all_terminal (s ∷ ss) p u = ground (arith, all_terminal ss)

-- what is left running, when nothing is ready, in flight or cancelled, is not derived as running
module _ (g : WorkflowGraph) (rank : ℕ → ℕ) (rows : Table NodeRun) (placed : IsPlaced g rank rows)
    (stable : Stable g rows) where
  abbrev ready_now : Bool
  ready_now = non_empty (find_ready_nodes g rows)

  abbrev in_status : NodeRunStatus → Bool
  in_status t = any (λ s. NodeRun.is s t) (statuses rows)

  moves_if_pending :
      in_status NodeRunStatus.pending ≡ true → (ready_now || any unsettled (statuses rows)) ≡ true
  moves_if_pending h =
      let (id, m, p) = pending_node rows placed.single h in
      pending_moves g rows rank placed.up stable placed.rooted (suc (rank id)) id (omega arith) p

  not_waiting :
      derive_workflow_state g rows ≡ WorkflowRunStatus.running
      → ready_now ≡ false
      → any in_flight (statuses rows) ≡ false
      → in_status NodeRunStatus.waiting ≡ false
  unfolding derive_workflow_state
  not_waiting d r f = ground arith

  not_failed :
      derive_workflow_state g rows ≡ WorkflowRunStatus.running
      → in_status NodeRunStatus.failed ≡ false
  unfolding derive_workflow_state
  not_failed d = ground arith

  not_finished :
      derive_workflow_state g rows ≡ WorkflowRunStatus.running
      → non_empty (statuses rows) ≡ true
      → all is_node_run_terminal (statuses rows) ≡ false
  unfolding derive_workflow_state
  not_finished d n = ground arith

  stable_moves :
      derive_workflow_state g rows ≡ WorkflowRunStatus.running
      → non_empty (statuses rows) ≡ true
      → (ready_now || (any in_flight (statuses rows) || in_status NodeRunStatus.cancelled)) ≡ true
  stable_moves d n = elim (Bool-cases ready_now) [
    | inl r ↦ rw r refl
    | inr r ↦ elim (Bool-cases (any in_flight (statuses rows))) [
      | inl f ↦ rw (r, f) refl
      | inr f ↦ elim (Bool-cases (any unsettled (statuses rows))) [
        | inl u ↦ rw r (any-unsettled (statuses rows) u (not_failed d) (not_waiting d r f))
        | inr u ↦ elim (Bool-cases (in_status NodeRunStatus.pending)) [
          | inl p ↦ absurd (cc (rw (r, u) at moves_if_pending p))
          | inr p ↦ absurd (cc (not_finished d n, all_terminal (statuses rows) p u))
        ]
      ]
    ]
  ]

some_status :
    (before after : Table NodeRun)
    → node_ids after ≡ node_ids before
    → non_empty before ≡ true
    → non_empty (statuses after) ≡ true
some_status [] after e h = cc
some_status ((k, r) ∷ before) [] e h = cc
some_status ((k, r) ∷ before) ((j, s) ∷ after) e h = refl

-- If the edges of the graph go up in some order, each starts at a node with a run, no node has two runs
-- and every pending node is a node of the graph with inputs, then after
-- `mark_unreachable_condition_nodes` a run with node runs whose derived status is running has a ready
-- node, or a node run that is queued, running or retrying, or one that is cancelled.
pub running_moves :
    (g : WorkflowGraph) (rank : ℕ → ℕ) (now : ℕ) (rows : Table NodeRun)
    → IsPlaced g rank rows
    → let after = (mark_unreachable_condition_nodes g now rows).0 in
      non_empty rows ≡ true
      → derive_workflow_state g after ≡ WorkflowRunStatus.running
      → (non_empty (find_ready_nodes g after)
          || (any in_flight (statuses after)
              || any (λ s. NodeRun.is s NodeRunStatus.cancelled) (statuses after)))
        ≡ true
unfolding mark_unreachable_condition_nodes
running_moves g rank now rows placed n d =
    stable_moves g rank (mark_unreachable_condition_nodes g now rows).0
      (mark-IsPlaced g rank now rows placed)
      (rounds-Stable g now (suc (length rows)) rows (fuel_suffices rows)) d
      (some_status rows (mark_unreachable_condition_nodes g now rows).0 (node_ids-mark g now rows)
        n)
