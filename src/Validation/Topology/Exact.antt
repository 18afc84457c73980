-- ===== src/Validation/Topology/Exact.antt =====
-- `validate_topology` finds nothing exactly in the well-formed graphs.
use relayvia.Prelude.{
  ℕ, Bool, true, false, not, ◌&&◌, List, [], ◌∷◌, ◌≡◌, ◌↔◌, inl, inr, refl, sym, ◌∙◌, mem, no_items,
  arith, Bool-cases,
}
use relayvia.Graph.{WorkflowNode, WorkflowGraph}
use relayvia.Graph.Reach.{reachable_from}
use relayvia.Graph.Reach.Exact.{Reaches, reachable_from-Reaches}
use relayvia.Graph.Cycle.Exact.{closed}
use relayvia.Validation.Issue.{ValidationCode}
use relayvia.Validation.Identity.Exact.{no_items-append, no_items-when}
use relayvia.Validation.Topology.{
  entry_node_ids, output_node_ids, has_cycle, entry_issues, output_issues, unreachable_issues,
  dead_end_issues, is_exempt, reverse_reachable, structure_issues, bypasses, pairing_issues,
  validate_parallel_merge, validate_topology,
}
use relayvia.Validation.Topology.WellFormed.{
  All, All-imp, any_none, Ends, IsBranching, IsJoining, IsPaired, IsWellFormed,
  reverse_reachable-Ends,
}
use relayvia.Validation.Topology.Parts.{
  entry_none, output_none, has_cycle-Acyclic, node_issues_none, structure_none, bypasses_none,
}

parts_none :
    (g : WorkflowGraph)
    → no_items (validate_topology g) ≡ (
        no_items (entry_issues g (entry_node_ids g))
        && (no_items (output_issues g (output_node_ids g))
            && (not (has_cycle g)
                && (no_items (unreachable_issues g (entry_node_ids g))
                    && (no_items (dead_end_issues g (entry_node_ids g) (output_node_ids g))
                        && no_items (validate_parallel_merge g))))))
unfolding validate_topology
parts_none g = simp (no_items-append, no_items-when)

-- with one entry, an output and no cycle
module _ (g : WorkflowGraph) (entry : ℕ) (single : entry_node_ids g ≡ entry ∷ [])
    (flat : has_cycle g ≡ false) where
  unreachable_none :
      (no_items (unreachable_issues g (entry_node_ids g)) ≡ true)
      ↔ All (λ n. Reaches g (entry ∷ []) n.id) g.nodes
  unfolding unreachable_issues
  unreachable_none =
      let test : WorkflowNode → Bool = λ n. not (mem n.id (reachable_from g (entry ∷ []))) in
      let (f, b) = any_none test g.nodes in
      let here = node_issues_none ValidationCode.unreachable_node test g.nodes in
      rw (single, flat)
        (
          λ h.
              All-imp (λ n. test n ≡ false) _ g.nodes
                (λ n u. (reachable_from-Reaches g (entry ∷ []) n.id).0 (ground arith))
                (f (ground arith)),
          λ r.
              let none = b (
                All-imp _ (λ n. test n ≡ false) g.nodes
                  (λ n u. let m = (reachable_from-Reaches g (entry ∷ []) n.id).1 u in ground arith)
                  r) in
              here ∙ ground arith,
        )

  abbrev dead : WorkflowNode → Bool
  dead n =
      mem n.id (reachable_from g (entry ∷ []))
      && (not (mem n.id (reverse_reachable g (output_node_ids g))) && not (is_exempt n.kind))

  alive_of :
      (n : WorkflowNode)
      → Reaches g (entry ∷ []) n.id
      → dead n ≡ false
      → is_exempt n.kind ≡ false
      → Ends g n.id
  alive_of n r d x =
      let m = (reachable_from-Reaches g (entry ∷ []) n.id).1 r in
      (reverse_reachable-Ends g n.id).0 (ground arith)

  of_alive : (n : WorkflowNode) → (is_exempt n.kind ≡ false → Ends g n.id) → dead n ≡ false
  of_alive n h = elim (Bool-cases (is_exempt n.kind)) [
    | inl x ↦ ground arith
    | inr x ↦ let m = (reverse_reachable-Ends g n.id).1 (h x) in ground arith
  ]

  All-both :
      (P Q R : WorkflowNode → Type 0) (nodes : List WorkflowNode)
      → ((n : WorkflowNode) → P n → Q n → R n)
      → All P nodes
      → All Q nodes
      → All R nodes
  All-both P Q R [] f p q = tt
  All-both P Q R (n ∷ nodes) f (p, ps) (q, qs) = (f n p q, All-both P Q R nodes f ps qs)

  dead_end_none :
      no_items (output_node_ids g) ≡ false
      → All (λ n. Reaches g (entry ∷ []) n.id) g.nodes
      → (no_items (dead_end_issues g (entry_node_ids g) (output_node_ids g)) ≡ true)
        ↔ All (λ n. is_exempt n.kind ≡ false → Ends g n.id) g.nodes
  unfolding dead_end_issues
  dead_end_none some_output reached =
      let (f, b) = any_none dead g.nodes in
      let here = node_issues_none ValidationCode.dead_end_branch dead g.nodes in
      rw (single, flat, some_output)
        (
          λ h.
              All-both (λ n. Reaches g (entry ∷ []) n.id) (λ n. dead n ≡ false)
                (λ n. is_exempt n.kind ≡ false → Ends g n.id) g.nodes alive_of reached
                (f (ground arith)),
          λ a.
              let none = b (
                All-imp (λ n. is_exempt n.kind ≡ false → Ends g n.id) (λ n. dead n ≡ false) g.nodes
                  of_alive a) in
              here ∙ ground arith,
        )

parallel_merge_none :
    (g : WorkflowGraph)
    → has_cycle g ≡ false
    → (no_items (validate_parallel_merge g) ≡ true)
      ↔ (All (IsBranching g) g.nodes × All (IsJoining g) g.nodes × All (IsPaired g) g.nodes)
unfolding validate_parallel_merge pairing_issues
parallel_merge_none g flat =
    let split = no_items-append (structure_issues g g.nodes) (pairing_issues g) in
    let (f, b) = structure_none g g.nodes in
    let (pf, pb) = any_none (bypasses g) g.nodes in
    let here =
      node_issues_none ValidationCode.invalid_parallel_merge_structure (bypasses g) g.nodes in
    rw flat (
      λ h.
          let both = sym split ∙ h in
          let (x, y) = f (ground arith) in
          (
            x,
            y,
            All-imp (λ n. bypasses g n ≡ false) (IsPaired g) g.nodes (λ n. (bypasses_none g n).0)
                (pf (ground arith)),
          ),
      λ (x, y, z).
          let first = b (x, y) in
          let none = pb (
            All-imp (IsPaired g) (λ n. bypasses g n ≡ false) g.nodes (λ n. (bypasses_none g n).1)
              z) in
          split ∙ ground arith,
    )

-- In a graph whose nodes have distinct identifiers and whose edges join nodes, `validate_topology`
-- finds nothing exactly if the graph is well formed for some entry: one data input, that no edge enters,
-- and some outputs, that no edge leaves; no cycle; every node on a path from the entry, and on one to an
-- output unless it is exempt; and parallel and merge nodes with the edges, the strategy and the pairing
-- that they need.
pub validate_topology_none :
    (g : WorkflowGraph)
    → closed g ≡ true
    → (no_items (validate_topology g) ≡ true) ↔ ((entry : ℕ) × IsWellFormed g entry)
validate_topology_none g c = (
  λ h.
      let all_parts = sym (parts_none g) ∙ h in
      let (entry, single, first) = (entry_none g (entry_node_ids g)).0 (ground arith) in
      let (some_output, last) = (output_none g (output_node_ids g)).0 (ground arith) in
      let flat : has_cycle g ≡ false = ground arith in
      let reached = (unreachable_none g entry single flat).0 (ground arith) in
      let (branching, joining, paired) = (parallel_merge_none g flat).0 (ground arith) in
      (
        entry,
        record {
          single_entry = single;
          entry_first = first;
          some_output = some_output;
          outputs_last = last;
          acyclic = (has_cycle-Acyclic g c).0 flat;
          reached = reached;
          alive = (dead_end_none g entry single flat some_output reached).0 (ground arith);
          branching = branching;
          joining = joining;
          paired = paired;
        },
      ),
  λ (entry, w).
      let flat = (has_cycle-Acyclic g c).1 w.acyclic in
      let e = (entry_none g (entry_node_ids g)).1 (entry, w.single_entry, w.entry_first) in
      let o = (output_none g (output_node_ids g)).1 (w.some_output, w.outputs_last) in
      let u = (unreachable_none g entry w.single_entry flat).1 w.reached in
      let d = (dead_end_none g entry w.single_entry flat w.some_output w.reached).1 w.alive in
      let p = (parallel_merge_none g flat).1 (w.branching, w.joining, w.paired) in
      parts_none g ∙ rw (e, o, flat, u, d, p) refl,
)
