-- ===== src/Scheduler/Skip/Exact.antt =====
-- The loop marks exactly the nodes that no active path reaches.
use relayvia.Prelude.{
  ℕ, suc, true, false, some, List, [], ◌∷◌, ◌==◌, ◌≡◌, refl, sym, ◌∙◌, subst, any, all, length,
  arith, ◌⊎◌, inl, inr, Bool-cases,
}
use relayvia.Table.{Table}
use relayvia.Graph.{WorkflowNode, WorkflowEdge, WorkflowGraph}
use relayvia.Graph.Index.{incoming_edges}
use relayvia.State.NodeRun.{NodeRunStatus}
use relayvia.Db.{NodeRun}
use relayvia.Scheduler.Ready.{run_of, node_in, edge_is_active, non_empty}
use relayvia.Scheduler.Skip.{
  skip, skip_row, unreachable, round, rounds, mark_unreachable_condition_nodes,
}
use relayvia.Scheduler.Skip.Rounds.{
  run_of-skip, skipped_run, Stable, rounds_induction, rounds-Stable, fuel_suffices, stable_at,
}
use relayvia.Scheduler.Skip.Dead.{
  Dead, DeadEdges, dead, no_edges, inactive, above, listed, edge_same, edge_skipped, pending_row,
  pending_not_skipped,
}

module _ (g : WorkflowGraph) (now : ℕ) (rows₀ : Table NodeRun) where
  -- What has become of the run of a node: nothing, or it was dead and is skipped.
  abbrev Trace : Table NodeRun → ℕ → Type 0
  Trace rows j =
      (run_of j rows ≡ run_of j rows₀)
      ⊎ ((r : NodeRun) × (run_of j rows₀ ≡ some r)
          × (run_of j rows ≡ some (skip_row now r))
          × Dead g rows₀ j)

  abbrev Traced : Table NodeRun → Type 0
  Traced rows = (j : ℕ) → Trace rows j

  dead_edges :
      (before : Table NodeRun) (traced : Traced before) (es : List WorkflowEdge)
      → any (edge_is_active g before) es ≡ false
      → DeadEdges g rows₀ es
  dead_edges before traced [] h = no_edges
  dead_edges before traced (e ∷ es) h = elim (traced e.source) [
    | inl same ↦
        inactive (edge_same g rows₀ before e (sym same) ∙ ground arith)
          (dead_edges before traced es (ground arith))
    | inr (r, _, _, d) ↦ above d (dead_edges before traced es (ground arith))
  ]

  module _ (before : Table NodeRun) (traced : Traced before) where
    skip-Traced :
        (rows : Table NodeRun) (n : WorkflowNode)
        → Traced rows
        → listed g n.id ≡ true
        → unreachable g before rows n ≡ true
        → Traced (skip now n.id rows)
    unfolding unreachable
    skip-Traced rows n so_far l u j = elim (Bool-cases (n.id == j)) [
      | inr other ↦
          let e : run_of j (skip now n.id rows) ≡ run_of j rows =
            ground (arith, run_of-skip now n.id j rows) in
          elim (so_far j) [
            | inl same ↦ inl (e ∙ same)
            | inr (r, was, is_skipped, d) ↦ inr (r, was, e ∙ is_skipped, d)
          ]
      | inl self ↦
          let at : n.id ≡ j = ground arith in
          subst (Trace (skip now n.id rows)) at
            (self_marked (pending_row (run_of n.id rows) (ground arith)) (so_far n.id))
    ]
      where
        marked_dead : node_in NodeRunStatus.pending n.id rows₀ ≡ true → Dead g rows₀ n.id
        marked_dead p =
            dead n.id l p (ground arith)
              (dead_edges before traced (incoming_edges g n.id) (ground arith))

        self_marked :
            ((r : NodeRun) × (run_of n.id rows ≡ some r) × (r.status ≡ NodeRunStatus.pending))
            → Trace rows n.id
            → Trace (skip now n.id rows) n.id
        self_marked (r, at, p) (inl same) = inr (
          r,
          sym same ∙ at,
          ground (arith, run_of-skip now n.id n.id rows),
          marked_dead (rw (sym same ∙ at) (ground arith)),
        )
        self_marked (r, at, p) (inr (s, was, is_skipped, d)) = absurd (ground arith)

    round-Traced :
        (nodes : List WorkflowNode) (rows : Table NodeRun)
        → all (λ n. listed g n.id) nodes ≡ true
        → Traced rows
        → Traced (round g now before nodes rows).0
    unfolding round
    round-Traced [] rows l t = t
    round-Traced (n ∷ nodes) rows l t = elim (Bool-cases (unreachable g before rows n)) [
      | inl e ↦ rw e (
          round-Traced nodes (skip now n.id rows) (ground arith)
            (skip-Traced rows n t (ground arith) e))
      | inr e ↦ rw e (round-Traced nodes rows (ground arith) t)
    ]

  module _ (rows : Table NodeRun) (traced : Traced rows) (stable : Stable g rows) where
    settled :
        (id : ℕ)
        → listed g id ≡ true
        → node_in NodeRunStatus.pending id rows₀ ≡ true
        → non_empty (incoming_edges g id) ≡ true
        → any (edge_is_active g rows) (incoming_edges g id) ≡ false
        → Trace rows id
        → node_in NodeRunStatus.skipped id rows ≡ true
    settled id l p ne quiet (inr (r, was, is_skipped, d)) = ground arith
    settled id l p ne quiet (inl same) =
        let pending : node_in NodeRunStatus.pending id rows ≡ true = rw same p in
        absurd (cc (stable_at g rows id g.nodes stable l, pending, ne, quiet))

    inactive_still :
        (e : WorkflowEdge)
        → edge_is_active g rows₀ e ≡ false
        → Trace rows e.source
        → edge_is_active g rows e ≡ false
    inactive_still e h (inl same) = edge_same g rows rows₀ e same ∙ h
    inactive_still e h (inr (r, was, is_skipped, d)) = edge_skipped g rows e (ground arith)

    mutual
      Dead-skipped : (id : ℕ) → Dead g rows₀ id → node_in NodeRunStatus.skipped id rows ≡ true
      Dead-skipped _ (dead id l p ne es) =
          settled id l p ne (dead_inactive (incoming_edges g id) es) (traced id)

      dead_inactive :
          (es : List WorkflowEdge) → DeadEdges g rows₀ es → any (edge_is_active g rows) es ≡ false
      dead_inactive _ no_edges = refl
      dead_inactive _ (inactive {e} {es} h rest) =
          rw (inactive_still e h (traced e.source)) (dead_inactive es rest)
      dead_inactive _ (above {e} {es} d rest) =
          rw (edge_skipped g rows e (Dead-skipped e.source d)) (dead_inactive es rest)

listed_all :
    (xs ys : List WorkflowNode) (y : WorkflowNode)
    → all (λ n. any (λ m. m.id == n.id) ys) xs ≡ true
    → all (λ n. any (λ m. m.id == n.id) (y ∷ ys)) xs ≡ true
listed_all [] ys y h = refl
listed_all (x ∷ xs) ys y h = ground (arith, listed_all xs ys y)

all_listed : (xs : List WorkflowNode) → all (λ n. any (λ m. m.id == n.id) xs) xs ≡ true
all_listed [] = refl
all_listed (x ∷ xs) = ground (arith, listed_all xs xs x, all_listed xs)

-- After `mark_unreachable_condition_nodes` the run of a node is skipped, and finished at that time,
-- exactly if the node was pending and had inputs, each of which was inactive or came from another such
-- node; every other run is as it was.
pub mark-Dead :
    (g : WorkflowGraph) (now : ℕ) (rows : Table NodeRun) (id : ℕ)
    → let after = (mark_unreachable_condition_nodes g now rows).0 in
      (Dead g rows id × (run_of id after ≡ skipped_run now (run_of id rows)))
      ⊎ ((Dead g rows id → ⊥) × (run_of id after ≡ run_of id rows))
unfolding mark_unreachable_condition_nodes
mark-Dead g now rows id = decided (traced id)
  where
    after : Table NodeRun
    after = (rounds (suc (length rows)) g now rows).0

    traced : Traced g now rows after
    traced =
        rounds_induction (Traced g now rows) g now
          (λ x t. round-Traced g now rows x t g.nodes x (all_listed g.nodes) t) (suc (length rows))
          rows (λ j. inl refl)

    stable : Stable g after
    stable = rounds-Stable g now (suc (length rows)) rows (fuel_suffices rows)

    decided :
        Trace g now rows after id
        → (Dead g rows id × (run_of id after ≡ skipped_run now (run_of id rows)))
          ⊎ ((Dead g rows id → ⊥) × (run_of id after ≡ run_of id rows))
    decided (inr (r, was, is_skipped, d)) = inl (d, ground arith)
    decided (inl same) = inr (λ d. alive d (Dead-skipped g now rows after traced stable id d), same)
      where
        alive : Dead g rows id → node_in NodeRunStatus.skipped id after ≡ true → ⊥
        alive (dead _ l p ne es) h = pending_not_skipped (run_of id rows) p (rw (← same) h)

-- What is pending after the loop was pending before it.
pub pending_before :
    (g : WorkflowGraph) (now : ℕ) (rows : Table NodeRun) (id : ℕ)
    → node_in NodeRunStatus.pending id (mark_unreachable_condition_nodes g now rows).0 ≡ true
    → node_in NodeRunStatus.pending id rows ≡ true
pending_before g now rows id h = elim (mark-Dead g now rows id) [
  | inl (dead _ l p ne es, e) ↦ p
  | inr (alive, e) ↦ rw (← e) h
]
