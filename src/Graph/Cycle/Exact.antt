-- ===== src/Graph/Cycle/Exact.antt =====
-- `cycle_nodes` finds nothing exactly in the graphs whose edges all raise some rank.
use relayvia.Prelude.{
  ℕ, zero, suc, ◌-◌, ◌<◌, Bool, true, false, not, ◌&&◌, Option, none, some, List, [], ◌∷◌, ◌==◌,
  ◌≡◌, ◌↔◌, refl, ap, ◌∙◌, map, any, all, length, filter, ltb, arith, inl, inr, Bool-cases,
  Option-cases,
}
use relayvia.Table.{Table, get, keys_where, no_keys}
use relayvia.Graph.{WorkflowNode, WorkflowEdge, WorkflowGraph}
use relayvia.Graph.Reach.{mem}
use relayvia.Graph.Cycle.{in_degrees, take_off, cycle_nodes, lower, relax}
use relayvia.Table.Keys.{keys, keys-put, no_keys-keys_where}
use relayvia.Graph.Cycle.Relax.{edges_to, distinct}
use relayvia.Graph.Cycle.Order.{from_done, IsOrder}
use relayvia.Graph.Cycle.Acyclic.{take_off-IsOrder, first-IsOrder, work_at_first, cycle_nodes_none}

abbrev pub is_node : WorkflowGraph → ℕ → Bool
is_node g id = any (λ n. n.id == id) g.nodes

-- The identifiers of the nodes are distinct, and every edge joins two of them.
abbrev pub closed : WorkflowGraph → Bool
closed g =
    distinct (map (λ n. n.id) g.nodes)
    && all (λ e. is_node g e.source && is_node g e.target) g.edges

-- Some rank of the nodes goes up along every edge, so there is no cycle.
abbrev pub Acyclic : WorkflowGraph → Type 0
Acyclic g = (rank : ℕ → ℕ) × (all (λ e. ltb (rank e.source) (rank e.target)) g.edges ≡ true)

-- an edge whose source was not taken off
missing_source :
    (ok : WorkflowEdge → Bool) (done : List ℕ) (t : ℕ) (es : List WorkflowEdge)
    → all ok es ≡ true
    → from_done done t es < edges_to t es
    → (e : WorkflowEdge) × (ok e ≡ true) × (e.target ≡ t) × (mem e.source done ≡ false)
missing_source ok done t [] h b = absurd (omega arith)
missing_source ok done t (e ∷ es) h b =
    elim (Bool-cases (e.target == t && not (mem e.source done))) [
      | inl y ↦ (e, ground arith, ground arith, ground arith)
      | inr n ↦ missing_source ok done t es (ground arith) (ground arith)
    ]

module _ (g : WorkflowGraph) (rank : ℕ → ℕ) (degrees : Table ℕ) (last : List ℕ)
    (up : all (λ e. ltb (rank e.source) (rank e.target) && is_node g e.source) g.edges ≡ true)
    (inv : IsOrder g degrees [] last) where
  -- below a node that is left over there is another
  none_left : (fuel x v : ℕ) → rank x < fuel → get x degrees ≡ some v → ltb 0 v ≡ true → ⊥
  none_left zero x v b h p = omega arith
  none_left (suc fuel) x v b h p =
      let (e, o, at, out) =
        missing_source (λ e. ltb (rank e.source) (rank e.target) && is_node g e.source) last x
          g.edges up (let c = inv.counted x v h in ground arith) in
      let lower : rank e.source < rank e.target = ground arith in
      let same : rank e.target ≡ rank x = ap rank at in
      let row = inv.rows e.source (ground arith) in
      elim (Option-cases (get e.source degrees)) [
        | inl n ↦ absurd (ground arith)
        | inr (d, r) ↦ elim (Bool-cases (ltb 0 d)) [
          | inl q ↦ none_left fuel e.source d (omega arith) r q
          | inr q ↦
              let z : d ≡ 0 = ground arith in
              let taken = inv.placed e.source (r ∙ ap some z) in absurd (cc (taken, out))
        ]
      ]

keys-lower :
    (t : ℕ) (o : Option ℕ) (degrees : Table ℕ) (queue : List ℕ)
    → get t degrees ≡ o
    → keys (lower t o degrees queue).0 ≡ keys degrees
unfolding lower
keys-lower t none degrees queue h = refl
keys-lower t (some d) degrees queue h = keys-put t d (d - 1) degrees h

keys-relax :
    (es : List WorkflowEdge) (degrees : Table ℕ) (queue : List ℕ)
    → keys (relax es degrees queue).0 ≡ keys degrees
unfolding relax
keys-relax [] degrees queue = refl
keys-relax (e ∷ es) degrees queue =
    keys-relax es _ _ ∙ keys-lower e.target (get e.target degrees) degrees queue refl

keys-take_off :
    (g : WorkflowGraph) (fuel : ℕ) (degrees : Table ℕ) (queue : List ℕ)
    → keys (take_off fuel g degrees queue) ≡ keys degrees
unfolding take_off
keys-take_off g zero degrees queue = refl
keys-take_off g (suc fuel) degrees [] = refl
keys-take_off g (suc fuel) degrees (c ∷ queue) =
    keys-take_off g fuel _ _ ∙ keys-relax (filter (λ e. e.source == c) g.edges) degrees queue

keys-in_degrees :
    (g : WorkflowGraph) (ns : List WorkflowNode) → keys (in_degrees g ns) ≡ map (λ n. n.id) ns
keys-in_degrees g [] = refl
keys-in_degrees g (n ∷ ns) = ap (λ r. n.id ∷ r) (keys-in_degrees g ns)

none_found : (g : WorkflowGraph) → closed g ≡ true → Acyclic g → no_keys (cycle_nodes g) ≡ true
unfolding cycle_nodes
none_found g c (rank, up) =
    let queue = keys_where (λ d. d == 0) (in_degrees g g.nodes) in
    let (last, inv) =
      take_off-IsOrder g (suc (length g.nodes)) (in_degrees g g.nodes) queue []
        (omega (arith, work_at_first g g.nodes)) (first-IsOrder g (ground arith)) in
    let left = take_off (suc (length g.nodes)) g (in_degrees g g.nodes) queue in
    let same : keys left ≡ map (λ n. n.id) g.nodes =
      keys-take_off g (suc (length g.nodes)) (in_degrees g g.nodes) queue
      ∙ keys-in_degrees g g.nodes in
    no_keys-keys_where distinct (ltb 0) left (λ x xs d. (ground arith, ground arith))
      (rw same (ground arith))
      (λ k v h. elim (Bool-cases (ltb 0 v)) [
        | inr z ↦ z
        | inl p ↦ absurd (
            none_left g rank left last (both_hold g.edges up (ground arith)) inv (suc (rank k)) k v
              (omega arith) h p)
      ])
  where
    both_hold :
        (es : List WorkflowEdge)
        → all (λ e. ltb (rank e.source) (rank e.target)) es ≡ true
        → all (λ e. is_node g e.source && is_node g e.target) es ≡ true
        → all (λ e. ltb (rank e.source) (rank e.target) && is_node g e.source) es ≡ true
    both_hold [] u i = refl
    both_hold (e ∷ es) u i = let rest = both_hold es (ground arith) (ground arith) in ground arith

-- In a graph whose nodes have distinct identifiers and whose edges join nodes, `cycle_nodes` finds
-- nothing exactly if some rank of the nodes goes up along every edge.
pub cycle_nodes-Acyclic :
    (g : WorkflowGraph) → closed g ≡ true → (no_keys (cycle_nodes g) ≡ true) ↔ Acyclic g
cycle_nodes-Acyclic g c =
    (λ h. cycle_nodes_none g (ground arith) (targets g.edges (ground arith)) h, none_found g c)
  where
    targets :
        (es : List WorkflowEdge)
        → all (λ e. is_node g e.source && is_node g e.target) es ≡ true
        → all (λ e. is_node g e.target) es ≡ true
    targets [] i = refl
    targets (e ∷ es) i = let rest = targets es (ground arith) in ground arith
