-- ===== src/Scheduler/Skip/Rounds.antt =====
-- The loop ends, and where it ends no node is left to mark.
use relayvia.Prelude.{
  ℕ, zero, suc, ◌+◌, ◌≤◌, ◌<◌, true, false, not, ◌&&◌, Option, none, some, List, [], ◌∷◌, ◌==◌, ◌≡◌,
  refl, sym, ap, subst, any, all, length, if◌then◌else◌, arith, inl, inr, Bool-cases, List-cases,
}
use relayvia.Table.{Table}
use relayvia.Graph.{WorkflowNode, WorkflowGraph}
use relayvia.State.NodeRun.{NodeRunStatus}
use relayvia.State.NodeRun
use relayvia.Db.{NodeRun}
use relayvia.Graph.Index.{incoming_edges}
use relayvia.Scheduler.Ready.{run_of, node_in, edge_is_active, non_empty}
use relayvia.Scheduler.Skip.{skip, skip_row, unreachable, round, rounds}

abbrev pub skipped_run : ℕ → Option NodeRun → Option NodeRun
skipped_run now none = none
skipped_run now (some r) = some (skip_row now r)

pub run_of-skip :
    (now i j : ℕ) (rows : Table NodeRun)
    → run_of j (skip now i rows)
      ≡ (if i == j then skipped_run now (run_of j rows) else run_of j rows)
unfolding skip
run_of-skip now i j [] = ground arith
run_of-skip now i j ((k, r) ∷ rows) = ground (arith, run_of-skip now i j rows)

abbrev pub pending_count : Table NodeRun → ℕ
pending_count [] = 0
pending_count ((k, r) ∷ rows) =
    let rest = pending_count rows in
    if NodeRun.is r.status NodeRunStatus.pending then suc rest else rest

pending_count-le-length : (rows : Table NodeRun) → pending_count rows ≤ length rows
pending_count-le-length [] = omega arith
pending_count-le-length ((k, r) ∷ rows) = ground (arith, pending_count-le-length rows)

pending_count-skip :
    (now i : ℕ) (rows : Table NodeRun)
    → node_in NodeRunStatus.pending i rows ≡ true
    → suc (pending_count (skip now i rows)) ≡ pending_count rows
unfolding skip
pending_count-skip now i [] h = cc
pending_count-skip now i ((k, r) ∷ rows) h = ground (arith, pending_count-skip now i rows)

pub unreachable_pending :
    (g : WorkflowGraph) (before rows : Table NodeRun) (n : WorkflowNode)
    → unreachable g before rows n ≡ true
    → node_in NodeRunStatus.pending n.id rows ≡ true
unfolding unreachable
unreachable_pending g before rows n h = ground arith

module _ (g : WorkflowGraph) (now : ℕ) (before : Table NodeRun) where
  -- every mark uses a pending node run up
  round_count :
      (nodes : List WorkflowNode) (rows : Table NodeRun)
      → pending_count (round g now before nodes rows).0 + length (round g now before nodes rows).1
        ≡ pending_count rows
  unfolding round
  round_count [] rows = omega arith
  round_count (n ∷ nodes) rows = elim (Bool-cases (unreachable g before rows n)) [
    | inl e ↦ rw e (
        omega (
          arith,
          round_count nodes (skip now n.id rows),
          pending_count-skip now n.id rows (unreachable_pending g before rows n e),
        ))
    | inr e ↦ rw e (round_count nodes rows)
  ]

  -- a round that marks nothing changes nothing, and has found nothing to mark
  round_quiet :
      (nodes : List WorkflowNode) (rows : Table NodeRun)
      → (round g now before nodes rows).1 ≡ []
      → ((round g now before nodes rows).0 ≡ rows)
        × (all (λ n. not (unreachable g before rows n)) nodes ≡ true)
  unfolding round
  round_quiet [] rows h = (refl, refl)
  round_quiet (n ∷ nodes) rows h = elim (Bool-cases (unreachable g before rows n)) [
    | inl e ↦ absurd (cc (rw e at h))
    | inr e ↦ rw e (round_quiet nodes rows (rw e at h))
  ]

-- Nothing is left to mark.
abbrev pub Stable : WorkflowGraph → Table NodeRun → Type 0
Stable g rows = all (λ n. not (unreachable g rows rows n)) g.nodes ≡ true

module _ (g : WorkflowGraph) (now fuel : ℕ) (rows : Table NodeRun) where
  abbrev after : Table NodeRun × List ℕ
  after = round g now rows g.nodes rows

  rounds_quiet : after.1 ≡ [] → (rounds (suc fuel) g now rows).0 ≡ after.0
  unfolding rounds
  rounds_quiet e = rw (e, rounds) refl

  rounds_more :
      (i : ℕ) (more : List ℕ)
      → after.1 ≡ i ∷ more
      → (rounds (suc fuel) g now rows).0 ≡ (rounds fuel g now after.0).0
  unfolding rounds
  rounds_more i more e = rw (e, rounds) refl

-- A property that every round keeps holds at the end.
pub rounds_induction :
    (P : Table NodeRun → Type 0) (g : WorkflowGraph) (now : ℕ)
    → ((rows : Table NodeRun) → P rows → P (round g now rows g.nodes rows).0)
    → (fuel : ℕ) (rows : Table NodeRun) → P rows
    → P (rounds fuel g now rows).0
rounds_induction P g now keep zero rows h = unfold rounds in h
rounds_induction P g now keep (suc fuel) rows h =
    elim (List-cases (round g now rows g.nodes rows).1) [
      | inl e ↦ rw (rounds_quiet g now fuel rows e) (keep rows h)
      | inr (i, more, e) ↦
          rw (rounds_more g now fuel rows i more e)
            (rounds_induction P g now keep fuel (round g now rows g.nodes rows).0 (keep rows h))
    ]

-- With more rounds than there are pending node runs, the loop ends where nothing is left to mark.
pub rounds-Stable :
    (g : WorkflowGraph) (now fuel : ℕ) (rows : Table NodeRun)
    → pending_count rows < fuel
    → Stable g (rounds fuel g now rows).0
rounds-Stable g now zero rows h = absurd (omega arith)
rounds-Stable g now (suc fuel) rows h = elim (List-cases (round g now rows g.nodes rows).1) [
  | inl e ↦
      let (same, quiet) = round_quiet g now rows g.nodes rows e in
      rw (rounds_quiet g now fuel rows e)
        (subst (λ x. all (λ n. not (unreachable g x x n)) g.nodes ≡ true) (sym same) quiet)
  | inr (i, more, e) ↦ rw (rounds_more g now fuel rows i more e) (
      rounds-Stable g now fuel (round g now rows g.nodes rows).0
        (omega (arith, round_count g now rows g.nodes rows, ap length e)))
]

pub fuel_suffices : (rows : Table NodeRun) → pending_count rows < suc (length rows)
fuel_suffices rows = omega (arith, pending_count-le-length rows)

-- At a stable point a pending node with inputs has an active one.
module _ (g : WorkflowGraph) (rows : Table NodeRun) where
  pub stable_at :
      (id : ℕ) (nodes : List WorkflowNode)
      → all (λ n. not (unreachable g rows rows n)) nodes ≡ true
      → any (λ n. n.id == id) nodes ≡ true
      → (node_in NodeRunStatus.pending id rows
          && (non_empty (incoming_edges g id)
              && not (any (edge_is_active g rows) (incoming_edges g id))))
        ≡ false
  unfolding unreachable
  stable_at id [] s m = cc
  stable_at id (n ∷ nodes) s m = elim (Bool-cases (n.id == id)) [
    | inl e ↦ let at : n.id ≡ id = ground arith in rw (← at) (ground arith)
    | inr e ↦ stable_at id nodes (ground arith) (ground arith)
  ]
