-- ===== src/Scheduler/Progress.antt =====
-- The scheduler never stalls: a run that `derive_workflow_state` leaves running has something to do.
pub mod Running
pub use relayvia.Prelude.{mem, distinct}
use relayvia.Prelude.{
  ℕ, zero, suc, ◌<◌, Bool, true, false, not, ◌&&◌, ◌||◌, Option, none, some, List, [], ◌∷◌, ◌==◌,
  ◌≡◌, refl, sym, ap, ◌∙◌, subst, any, all, map, length, filter, ltb, if◌then◌else◌, arith, ◌⊎◌,
  inl, inr, Bool-cases,
}
use relayvia.Table.{Table}
use relayvia.Graph.{WorkflowNode, WorkflowEdge, WorkflowGraph}
use relayvia.Graph.Index.{incoming_edges}
use relayvia.State.NodeRun.{NodeRunStatus}
use relayvia.State.NodeRun
use relayvia.Db.{NodeRun}
use relayvia.Scheduler.Ready.{
  run_of, node_in, has_status, edge_is_active, active_edges, non_empty, is_ready, find_ready_nodes,
}
use relayvia.Scheduler.Skip.{skip, unreachable, round, rounds, mark_unreachable_condition_nodes}
use relayvia.Scheduler.Skip.Rounds.{
  Stable, rounds_induction, rounds-Stable, fuel_suffices, stable_at,
}
use relayvia.Scheduler.Skip.Dead.{listed, edge_skipped}
use relayvia.Scheduler.Skip.Exact.{pending_before}
use relayvia.Scheduler.Derive.{statuses, in_flight}

abbrev pub node_ids : Table NodeRun → List ℕ
node_ids [] = []
node_ids ((k, r) ∷ rows) = r.node_id ∷ node_ids rows

-- The status is neither pending nor a result that lets the run go on.
abbrev pub unsettled : NodeRunStatus → Bool
unsettled s =
    in_flight s
    || (NodeRun.is s NodeRunStatus.waiting
        || (NodeRun.is s NodeRunStatus.failed || NodeRun.is s NodeRunStatus.cancelled))

-- An edge that goes up in the order and starts at a node with a run.
abbrev pub goes_up : (ℕ → ℕ) → List ℕ → WorkflowEdge → Bool
goes_up rank ids e = ltb (rank e.source) (rank e.target) && mem e.source ids

found_run :
    (id : ℕ) (rows : Table NodeRun)
    → mem id (node_ids rows) ≡ true
    → (r : NodeRun) × (run_of id rows ≡ some r)
found_run id [] h = cc
found_run id ((k, r) ∷ rows) h = elim (Bool-cases (r.node_id == id)) [
  | inl e ↦ (r, rw e refl)
  | inr e ↦ let (s, at) = found_run id rows (ground arith) in (s, rw e at)
]

status_seen :
    (p : NodeRunStatus → Bool) (id : ℕ) (rows : Table NodeRun) (r : NodeRun)
    → run_of id rows ≡ some r
    → p r.status ≡ true
    → any p (statuses rows) ≡ true
status_seen p id [] r h y = cc
status_seen p id ((k, s) ∷ rows) r h y = elim (Bool-cases (s.node_id == id)) [
  | inl e ↦ let same : some s ≡ some r = rw e at h in ground arith
  | inr e ↦ ground (arith, status_seen p id rows r (rw e at h) y)
]

-- an edge that is active and whose source is not completed
blocking :
    (g : WorkflowGraph) (rows : Table NodeRun) (ok : WorkflowEdge → Bool) (es : List WorkflowEdge)
    → all ok es ≡ true
    → all (λ e. node_in NodeRunStatus.completed e.source rows) (filter (edge_is_active g rows) es)
      ≡ false
    → (e : WorkflowEdge) × (ok e ≡ true)
      × (edge_is_active g rows e ≡ true)
      × (node_in NodeRunStatus.completed e.source rows ≡ false)
blocking g rows ok [] o h = cc
blocking g rows ok (e ∷ es) o h = elim (Bool-cases (edge_is_active g rows e)) [
  | inr i ↦ blocking g rows ok es (ground arith) (rw i at h)
  | inl a ↦ elim (Bool-cases (node_in NodeRunStatus.completed e.source rows)) [
    | inr c ↦ (e, ground arith, a, c)
    | inl c ↦ blocking g rows ok es (ground arith) (rw (a, c) at h)
  ]
]

incoming_up :
    (rank : ℕ → ℕ) (ids : List ℕ) (id : ℕ) (es : List WorkflowEdge)
    → all (goes_up rank ids) es ≡ true
    → all (λ e. ltb (rank e.source) (rank id) && mem e.source ids) (filter (λ e. e.target == id) es)
      ≡ true
incoming_up rank ids id [] h = refl
incoming_up rank ids id (e ∷ es) h = elim (Bool-cases (e.target == id)) [
  | inr o ↦ rw o (incoming_up rank ids id es (ground arith))
  | inl o ↦
      let at : e.target ≡ id = ground arith in
      let up : (ltb (rank e.source) (rank id) && mem e.source ids) ≡ true =
        rw (← at) (ground arith) in
      let rest = incoming_up rank ids id es (ground arith) in rw o (rw up rest)
]

ready_found :
    (g : WorkflowGraph) (rows : Table NodeRun) (id : ℕ) (nodes : List WorkflowNode)
    → any (λ n. n.id == id) nodes ≡ true
    → node_in NodeRunStatus.pending id rows ≡ true
    → non_empty (active_edges g rows id) ≡ true
    → all (λ e. node_in NodeRunStatus.completed e.source rows) (active_edges g rows id) ≡ true
    → non_empty (map (λ n. n.id) (filter (is_ready g rows) nodes)) ≡ true
unfolding is_ready
ready_found g rows id [] m p a c = cc
ready_found g rows id (n ∷ nodes) m p a c = elim (Bool-cases (is_ready g rows n)) [
  | inl e ↦ rw e refl
  | inr e ↦ elim (Bool-cases (n.id == id)) [
    | inl o ↦ let at : n.id ≡ id = ground arith in absurd (cc (rw at at e, p, a, c))
    | inr o ↦ rw e (ready_found g rows id nodes (ground arith) p a c)
  ]
]

status_split :
    (s : NodeRunStatus)
    → (NodeRun.is s NodeRunStatus.pending ≡ true)
      ⊎ (NodeRun.is s NodeRunStatus.completed ≡ true)
      ⊎ (NodeRun.is s NodeRunStatus.skipped ≡ true)
      ⊎ (unsettled s ≡ true)
status_split s = ground arith

-- From a pending node the active inputs lead up to a ready node, or to one that is not settled.
module _ (g : WorkflowGraph) (rows : Table NodeRun) (rank : ℕ → ℕ)
    (up : all (goes_up rank (node_ids rows)) g.edges ≡ true) (stable : Stable g rows)
    (rooted : (id : ℕ)
      → node_in NodeRunStatus.pending id rows ≡ true
      → (non_empty (incoming_edges g id) ≡ true) × (listed g id ≡ true)) where
  some_active :
      (id : ℕ)
      → node_in NodeRunStatus.pending id rows ≡ true
      → non_empty (active_edges g rows id) ≡ true
  some_active id p =
      let (ne, l) = rooted id p in
      some_kept (incoming_edges g id) (cc (stable_at g rows id g.nodes stable l, p, ne))
    where
      some_kept :
          (es : List WorkflowEdge)
          → not (any (edge_is_active g rows) es) ≡ false
          → non_empty (filter (edge_is_active g rows) es) ≡ true
      some_kept [] h = cc
      some_kept (e ∷ es) h = elim (Bool-cases (edge_is_active g rows e)) [
        | inl a ↦ rw a refl
        | inr a ↦ rw a (some_kept es (rw a at h))
      ]

  pub pending_moves :
      (fuel id : ℕ)
      → rank id < fuel
      → node_in NodeRunStatus.pending id rows ≡ true
      → (non_empty (find_ready_nodes g rows) || any unsettled (statuses rows)) ≡ true
  unfolding find_ready_nodes
  pending_moves zero id b p = absurd (omega arith)
  pending_moves (suc fuel) id b p =
      elim (Bool-cases
        (all (λ e. node_in NodeRunStatus.completed e.source rows) (active_edges g rows id))) [
          | inl c ↦ rw (ready_found g rows id g.nodes (rooted id p).1 p (some_active id p) c) refl
          | inr c ↦
              let (e, o, a, n) =
                blocking g rows (λ e. ltb (rank e.source) (rank id) && mem e.source (node_ids rows))
                  (incoming_edges g id) (incoming_up rank (node_ids rows) id g.edges up) c in
              let (r, at) = found_run e.source rows (ground arith) in
              let lower : rank e.source < fuel = ground arith in
              elim (status_split r.status) [
                | inl p' ↦ pending_moves fuel e.source lower (rw at p')
                | inr (inl c') ↦ absurd (cc (rw at at n, c'))
                | inr (inr (inl s)) ↦ absurd (cc (a, edge_skipped g rows e (rw at s)))
                | inr (inr (inr u)) ↦
                    let seen = status_seen unsettled e.source rows r at u in ground arith
              ]
        ]

-- What the scheduler relies on: along every edge the rank goes up (no cycle) and the source has a run,
-- no node has two runs, and a pending node is a node of the graph that has inputs.
pub record IsPlaced (g : WorkflowGraph) (rank : ℕ → ℕ) (rows : Table NodeRun) : Type 0 where
  pub up : all (goes_up rank (node_ids rows)) g.edges ≡ true
  pub single : distinct (node_ids rows) ≡ true
  pub rooted :
      (id : ℕ)
      → node_in NodeRunStatus.pending id rows ≡ true
      → (non_empty (incoming_edges g id) ≡ true) × (listed g id ≡ true)

node_ids-skip : (now id : ℕ) (rows : Table NodeRun) → node_ids (skip now id rows) ≡ node_ids rows
unfolding skip
node_ids-skip now id [] = refl
node_ids-skip now id ((k, r) ∷ rows) = ground (arith, node_ids-skip now id rows)

node_ids-round :
    (g : WorkflowGraph) (now : ℕ) (before : Table NodeRun) (nodes : List WorkflowNode)
    (rows : Table NodeRun)
    → node_ids (round g now before nodes rows).0 ≡ node_ids rows
unfolding round
node_ids-round g now before [] rows = refl
node_ids-round g now before (n ∷ nodes) rows = elim (Bool-cases (unreachable g before rows n)) [
  | inl e ↦
      rw e (node_ids-round g now before nodes (skip now n.id rows) ∙ node_ids-skip now n.id rows)
  | inr e ↦ rw e (node_ids-round g now before nodes rows)
]

pub node_ids-mark :
    (g : WorkflowGraph) (now : ℕ) (rows : Table NodeRun)
    → node_ids (mark_unreachable_condition_nodes g now rows).0 ≡ node_ids rows
unfolding mark_unreachable_condition_nodes
node_ids-mark g now rows =
    rounds_induction (λ x. node_ids x ≡ node_ids rows) g now
      (λ x e. node_ids-round g now x g.nodes x ∙ e) (suc (length rows)) rows refl

pub mark-IsPlaced :
    (g : WorkflowGraph) (rank : ℕ → ℕ) (now : ℕ) (rows : Table NodeRun)
    → IsPlaced g rank rows
    → IsPlaced g rank (mark_unreachable_condition_nodes g now rows).0
mark-IsPlaced g rank now rows w = record {
  up = rw (node_ids-mark g now rows) w.up;
  single = rw (node_ids-mark g now rows) w.single;
  rooted = λ id p. w.rooted id (pending_before g now rows id p);
}
