-- ===== src/Scheduler/Submit/Marks.antt =====
-- What the skip loop writes: node runs that are not pending stay as they are.
use relayvia.Prelude.{
  ℕ, suc, zero, Bool, true, false, some, List, [], ◌∷◌, ◌==◌, ◌≡◌, refl, sym, ◌∙◌, ◌⊎◌, inl, inr,
  arith, Bool-cases, Option-cases, List-cases, subst,
}
use relayvia.Table.{Table, get, put, get-put, keys_where, rows_at, rows_where, put_all}
use relayvia.Graph.{WorkflowNode, WorkflowGraph}
use relayvia.State.NodeRun.{NodeRunStatus, transition_node_run}
use relayvia.State.NodeRun
use relayvia.Db.{NodeRun}
use relayvia.Scheduler.Ready.{node_in}
use relayvia.Scheduler.Skip.{skip, unreachable, round, rounds}
use relayvia.Scheduler.Skip.Rounds.{unreachable_pending}

abbrev pub is_pending : NodeRun → Bool
is_pending n = NodeRun.is n.status NodeRunStatus.pending

-- Each of these rows stands in the table, or is one that was pending there and is skipped.
abbrev pub IsMarkOf : Table NodeRun → Table NodeRun → Type 0
IsMarkOf table [] = Unit
IsMarkOf table ((k, r) ∷ rows) =
    ((get k table ≡ some r)
      ⊎ ((old : NodeRun) × (get k table ≡ some old)
          × (is_pending old ≡ true)
          × (r.status ≡ NodeRunStatus.skipped)))
    × IsMarkOf table rows

module _ (table : Table NodeRun) (now : ℕ) where
  skip-IsMarkOf :
      (id : ℕ) (rows : Table NodeRun)
      → node_in NodeRunStatus.pending id rows ≡ true
      → IsMarkOf table rows
      → IsMarkOf table (skip now id rows)
  unfolding skip
  skip-IsMarkOf id [] p h = h
  skip-IsMarkOf id ((k, r) ∷ rows) p (here, rest) = elim (Bool-cases (r.node_id == id)) [
    | inr e ↦ rw e (here, skip-IsMarkOf id rows (rw e at p) rest)
    | inl e ↦ rw e (elim here [
      | inl at ↦ (inr (r, at, rw e at p, refl), rest)
      | inr (old, at, o, s) ↦ absurd (clash r s (rw e at p))
    ])
  ]
    where
      clash : (r : NodeRun) → r.status ≡ NodeRunStatus.skipped → is_pending r ≡ true → ⊥
      clash r s h = absurd (ground arith)

  module _ (g : WorkflowGraph) where
    round-IsMarkOf :
        (before : Table NodeRun) (nodes : List WorkflowNode) (rows : Table NodeRun)
        → IsMarkOf table rows
        → IsMarkOf table (round g now before nodes rows).0
    unfolding round
    round-IsMarkOf before [] rows h = h
    round-IsMarkOf before (n ∷ nodes) rows h = elim (Bool-cases (unreachable g before rows n)) [
      | inr e ↦ rw e (round-IsMarkOf before nodes rows h)
      | inl e ↦ rw e (
          round-IsMarkOf before nodes (skip now n.id rows)
            (skip-IsMarkOf n.id rows (unreachable_pending g before rows n e) h))
    ]

    pub rounds-IsMarkOf :
        (fuel : ℕ) (rows : Table NodeRun)
        → IsMarkOf table rows
        → IsMarkOf table (rounds fuel g now rows).0
    unfolding rounds
    rounds-IsMarkOf zero rows h = h
    rounds-IsMarkOf (suc fuel) rows h =
        let after = round-IsMarkOf rows g.nodes rows h in
        elim (List-cases (round g now rows g.nodes rows).1) [
          | inl e ↦ rw (e, rounds) after
          | inr (i, more, e) ↦
              rw (e, rounds) (rounds-IsMarkOf fuel (round g now rows g.nodes rows).0 after)
        ]

-- rows that are not pending stay
abbrev pub Stays : Table NodeRun → Table NodeRun → Type 0
Stays table after =
    (j : ℕ) (n : NodeRun) → get j table ≡ some n → is_pending n ≡ false → get j after ≡ some n

pub put_all-Stays :
    (table : Table NodeRun) (marked after : Table NodeRun)
    → IsMarkOf table marked
    → Stays table after
    → Stays table (put_all marked after)
unfolding put_all
put_all-Stays table [] after m h = h
put_all-Stays table ((k, r) ∷ marked) after (here, rest) h =
    put_all-Stays table marked (put k r after) rest (λ j n at live. elim (Bool-cases (k == j)) [
      | inr e ↦ get-put k j r after ∙ rw e (h j n at live)
      | inl e ↦
          let same : k ≡ j = ground arith in
          elim here [
            | inl at' ↦
                get-put k j r after ∙ rw e (sym (subst (λ i. get i table ≡ some r) same at') ∙ at)
            | inr (old, at', o, s) ↦ absurd (
                pending_stays old n (sym (subst (λ i. get i table ≡ some old) same at') ∙ at) o
                  live)
          ]
    ])
  where
    pending_stays :
        (old n : NodeRun) → some old ≡ some n → is_pending old ≡ true → is_pending n ≡ false → ⊥
    pending_stays old n e o l = absurd (cc (e, o, l))

-- the rows that a query reads stand in the table
pub rows_where-IsMarkOf :
    (p : NodeRun → Bool) (table : Table NodeRun) → IsMarkOf table (rows_where p table)
unfolding rows_where rows_at
rows_where-IsMarkOf p table = each (keys_where p table)
  where
    each : (keys : List ℕ) → IsMarkOf table (rows_at p keys table)
    each [] = tt
    each (k ∷ keys) = elim (Option-cases (get k table)) [
      | inl e ↦ rw e (each keys)
      | inr (n, e) ↦ elim (Bool-cases (p n)) [
        | inl h ↦ rw (e, h) (inl e, each keys)
        | inr h ↦ rw (e, h) (each keys)
      ]
    ]
