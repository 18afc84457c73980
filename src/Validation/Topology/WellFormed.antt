-- ===== src/Validation/Topology/WellFormed.antt =====
-- What the topology rules ask of a graph, in terms of paths.
use relayvia.Prelude.{
  ℕ, ◌≤◌, Bool, true, false, ◌||◌, List, [], ◌∷◌, ◌++◌, ◌==◌, ◌≡◌, ◌↔◌, ◌⊎◌, inl, inr, refl, any,
  mem, length, no_items, arith, Bool-cases, subst,
}
use relayvia.Json.{get_field}
use relayvia.Graph.{WorkflowNode, WorkflowGraph, is_parallel, is_merge}
use relayvia.Graph.Index.{node, incoming_edges, outgoing_edges}
use relayvia.Graph.Reach.Exact.{Reaches}
use relayvia.Graph.Cycle.Exact.{Acyclic}
use relayvia.Graph.Search.{ancestors}
use relayvia.Graph.Search.Paths.{LeadsTo, neighbours_exact}
use relayvia.Validation.Topology.{
  entry_node_ids, output_node_ids, is_exempt, is_text, is_merge_node, reverse_reachable,
}
use relayvia.Validation.Topology.Pairing.{MergeFree}

abbrev pub All : (WorkflowNode → Type 0) → List WorkflowNode → Type 0
All P [] = Unit
All P (n ∷ nodes) = P n × All P nodes

pub All-imp :
    (P Q : WorkflowNode → Type 0) (nodes : List WorkflowNode)
    → ((n : WorkflowNode) → P n → Q n)
    → All P nodes
    → All Q nodes
All-imp P Q [] f h = tt
All-imp P Q (n ∷ nodes) f (h, rest) = (f n h, All-imp P Q nodes f rest)

pub any_none :
    (p : WorkflowNode → Bool) (nodes : List WorkflowNode)
    → (any p nodes ≡ false) ↔ All (λ n. p n ≡ false) nodes
any_none p [] = (λ h. tt, λ h. refl)
any_none p (n ∷ nodes) =
    let (f, b) = any_none p nodes in
    (λ h. (ground arith, f (ground arith)), λ (h, rest). let r = b rest in ground arith)

-- The node is an output, or a path leads from it to one.
abbrev pub Ends : WorkflowGraph → ℕ → Type 0
Ends g x = (o : ℕ) × (mem o (output_node_ids g) ≡ true) × ((x ≡ o) ⊎ LeadsTo g x o)

abbrev pub IsBranching : WorkflowGraph → WorkflowNode → Type 0
IsBranching g n =
    is_parallel n.kind ≡ true
    → (2 ≤ length (outgoing_edges g n.id)) × (length (incoming_edges g n.id) ≡ 1)

abbrev pub IsJoining : WorkflowGraph → WorkflowNode → Type 0
IsJoining g n =
    is_merge n.kind ≡ true
    → (is_text "all" (get_field "strategy" n.config) ≡ true)
      × (2 ≤ length (incoming_edges g n.id))
      × (length (outgoing_edges g n.id) ≡ 1)

-- A parallel with a merge node below it reaches no output but through a merge node.
abbrev pub IsPaired : WorkflowGraph → WorkflowNode → Type 0
IsPaired g n =
    is_parallel n.kind ≡ true
    → (m : ℕ) → LeadsTo g n.id m
    → (m == n.id) ≡ false
    → is_merge_node (node g m) ≡ true
    → (o : ℕ) → mem o (output_node_ids g) ≡ true
    → MergeFree g n.id o
    → ⊥

pub record IsWellFormed (g : WorkflowGraph) (entry : ℕ) : Type 0 where
  pub single_entry : entry_node_ids g ≡ entry ∷ []
  pub entry_first : no_items (incoming_edges g entry) ≡ true
  pub some_output : no_items (output_node_ids g) ≡ false
  pub outputs_last :
      (x : ℕ) → mem x (output_node_ids g) ≡ true → no_items (outgoing_edges g x) ≡ true
  pub acyclic : Acyclic g
  pub reached : All (λ n. Reaches g (entry ∷ []) n.id) g.nodes
  pub alive : All (λ n. is_exempt n.kind ≡ false → Ends g n.id) g.nodes
  pub branching : All (IsBranching g) g.nodes
  pub joining : All (IsJoining g) g.nodes
  pub paired : All (IsPaired g) g.nodes

mem-append : (x : ℕ) (xs ys : List ℕ) → mem x (xs ++ ys) ≡ (mem x xs || mem x ys)
mem-append x [] ys = refl
mem-append x (y ∷ xs) ys = ground (arith, mem-append x xs ys)

-- membership in `reverse_reachable`
reverse_found :
    (g : WorkflowGraph) (x : ℕ) (outputs : List ℕ)
    → mem x (reverse_reachable g outputs) ≡ true
    → (o : ℕ) × (mem o outputs ≡ true) × ((x ≡ o) ⊎ LeadsTo g x o)
reverse_found g x [] m = absurd (cc m)
reverse_found g x (o ∷ outputs) m = elim (Bool-cases (o == x)) [
  | inl e ↦ (o, ground arith, inl (ground arith))
  | inr e ↦ elim (Bool-cases (mem x (ancestors g o))) [
    | inl a ↦ (o, ground arith, inr ((neighbours_exact g o x).0.0 a).0)
    | inr a ↦
        let (o', m', w) =
          reverse_found g x outputs
            (ground (arith, mem-append x (ancestors g o) (reverse_reachable g outputs))) in
        (o', ground arith, w)
  ]
]

found_reverse :
    (g : WorkflowGraph) (x o : ℕ) (outputs : List ℕ)
    → mem o outputs ≡ true
    → (x ≡ o) ⊎ LeadsTo g x o
    → mem x (reverse_reachable g outputs) ≡ true
found_reverse g x o [] m w = absurd (cc m)
found_reverse g x o (p ∷ outputs) m w = elim (Bool-cases (p == x)) [
  | inl e ↦ ground arith
  | inr e ↦ elim (Bool-cases (p == o)) [
    | inr d ↦
        let rest = found_reverse g x o outputs (ground arith) w in
        ground (arith, mem-append x (ancestors g p) (reverse_reachable g outputs))
    | inl s ↦
        let at : o ≡ p = ground arith in
        let up : mem x (ancestors g p) ≡ true = elim w [
          | inl same ↦ absurd (ground arith)
          | inr path ↦
              (neighbours_exact g p x).0.1 (subst (λ i. LeadsTo g x i) at path, ground arith)
        ] in
        ground (arith, mem-append x (ancestors g p) (reverse_reachable g outputs))
  ]
]

pub reverse_reachable-Ends :
    (g : WorkflowGraph) (x : ℕ)
    → (mem x (reverse_reachable g (output_node_ids g)) ≡ true) ↔ Ends g x
reverse_reachable-Ends g x = (
  reverse_found g x (output_node_ids g),
  λ (o, m, w). found_reverse g x o (output_node_ids g) m w,
)
