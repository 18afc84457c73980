-- ===== src/Validation/Topology/Parts.antt =====
-- What each part of `validate_topology` finds nothing in.
use relayvia.Prelude.{
  ℕ, Bool, true, false, not, ◌&&◌, some, List, [], ◌∷◌, ◌==◌, ◌≡◌, ◌↔◌, inl, inr, refl, sym, ◌∙◌,
  subst, any, mem, length, map, no_items, ltb, if◌then◌else◌, arith, Bool-cases,
}
use relayvia.Json.{get_field}
use relayvia.Graph.{WorkflowNode, WorkflowGraph, is_parallel, is_merge}
use relayvia.Graph.Index.{node, incoming_edges, outgoing_edges}
use relayvia.Graph.Cycle.Exact.{Acyclic, closed, cycle_nodes-Acyclic}
use relayvia.Graph.Search.{descendants}
use relayvia.Graph.Search.Paths.{neighbours_exact}
use relayvia.Validation.Issue.{ValidationCode, ValidationIssue, issue}
use relayvia.Validation.Identity.Exact.{no_items-append, no_items-map}
use relayvia.Validation.Topology.{
  output_node_ids, has_cycle, entry_issues, output_issues, outgoing_issues, is_text, is_merge_node,
  structure_issues, parallel_issues, merge_issues, bypasses, merge_free, node_issues,
}
use relayvia.Validation.Topology.Pairing.{merge_free-MergeFree}
use relayvia.Validation.Topology.WellFormed.{All, IsBranching, IsJoining, IsPaired}

pub entry_none :
    (g : WorkflowGraph) (entry : List ℕ)
    → (no_items (entry_issues g entry) ≡ true)
      ↔ ((id : ℕ) × (entry ≡ id ∷ []) × (no_items (incoming_edges g id) ≡ true))
unfolding entry_issues
entry_none g [] = (λ h. absurd (cc h), λ (id, e, h). absurd (cc e))
entry_none g (x ∷ []) = (
  λ h. (x, refl, sym (no_items-map _ (incoming_edges g x)) ∙ h),
  λ (id, e, h).
      let at : id ≡ x = cc in
      no_items-map _ (incoming_edges g x) ∙ subst (λ i. no_items (incoming_edges g i) ≡ true) at h,
)
entry_none g (x ∷ y ∷ rest) = (λ h. absurd (cc h), λ (id, e, h). absurd (cc e))

outgoing_none :
    (g : WorkflowGraph) (outputs : List ℕ)
    → (no_items (outgoing_issues g outputs) ≡ true)
      ↔ ((x : ℕ) → mem x outputs ≡ true → no_items (outgoing_edges g x) ≡ true)
outgoing_none g [] = (λ h x m. absurd (cc m), λ h. refl)
outgoing_none g (o ∷ outputs) =
    let (f, b) = outgoing_none g outputs in
    let here =
      no_items-map (λ e. issue ValidationCode.invalid_output_node_edge (some o) (some e.id))
        (outgoing_edges g o) in
    let split =
      no_items-append
        (map (λ e. issue ValidationCode.invalid_output_node_edge (some o) (some e.id))
          (outgoing_edges g o))
        (outgoing_issues g outputs) in
    (
      λ h x m. elim (Bool-cases (o == x)) [
        | inl s ↦
            let at : o ≡ x = ground arith in
            subst (λ i. no_items (outgoing_edges g i) ≡ true) at (ground arith)
        | inr s ↦ f (ground arith) x (ground arith)
      ],
      λ h.
          let rest = b (λ x m. h x (ground arith)) in
          let first = h o (ground arith) in ground arith,
    )

pub output_none :
    (g : WorkflowGraph) (outputs : List ℕ)
    → (no_items (output_issues g outputs) ≡ true) ↔ (
        (no_items outputs ≡ false)
        × ((x : ℕ) → mem x outputs ≡ true → no_items (outgoing_edges g x) ≡ true))
unfolding output_issues
output_none g [] = (λ h. absurd (cc h), λ (h, _). absurd (cc h))
output_none g (o ∷ outputs) =
    let (f, b) = outgoing_none g (o ∷ outputs) in (λ h. (refl, f h), λ (_, h). b h)

pub has_cycle-Acyclic : (g : WorkflowGraph) → closed g ≡ true → (has_cycle g ≡ false) ↔ Acyclic g
unfolding has_cycle
has_cycle-Acyclic g c =
    let (f, b) = cycle_nodes-Acyclic g c in
    (λ h. f (ground arith), λ a. let h = b a in ground arith)

pub node_issues_none :
    (code : ValidationCode) (test : WorkflowNode → Bool) (nodes : List WorkflowNode)
    → no_items (node_issues code test nodes) ≡ not (any test nodes)
node_issues_none code test [] = refl
node_issues_none code test (n ∷ nodes) = ground (arith, node_issues_none code test nodes)

parallel_none :
    (g : WorkflowGraph) (n : WorkflowNode)
    → no_items (parallel_issues g n)
      ≡ (not (ltb (length (outgoing_edges g n.id)) 2) && (length (incoming_edges g n.id) == 1))
unfolding parallel_issues
parallel_none g n = ground arith

merge_none :
    (g : WorkflowGraph) (n : WorkflowNode)
    → no_items (merge_issues g n) ≡ (
        is_text "all" (get_field "strategy" n.config)
        && (not (ltb (length (incoming_edges g n.id)) 2) && (length (outgoing_edges g n.id) == 1)))
unfolding merge_issues
merge_none g n = ground arith

not_both : (n : WorkflowNode) → is_parallel n.kind ≡ true → is_merge n.kind ≡ false
not_both n h = ground arith

abbrev node_part : WorkflowGraph → WorkflowNode → List ValidationIssue
node_part g n =
    if is_parallel n.kind
    then parallel_issues g n
    else if is_merge n.kind
    then merge_issues g n
    else []

node_none :
    (g : WorkflowGraph) (n : WorkflowNode)
    → (no_items (node_part g n) ≡ true) ↔ (IsBranching g n × IsJoining g n)
node_none g n = elim (Bool-cases (is_parallel n.kind)) [
  | inl p ↦
      let m = not_both n p in
      (
        λ h.
            let h' : no_items (parallel_issues g n) ≡ true = rw p at h in
            let both = sym (parallel_none g n) ∙ h' in
            (λ _. (ground arith, ground arith), λ k. absurd (cc (m, k))),
        λ (b, _). let (two, one) = b p in rw p (parallel_none g n ∙ ground arith),
      )
  | inr p ↦ elim (Bool-cases (is_merge n.kind)) [
    | inl m ↦ (
      λ h.
          let h' : no_items (merge_issues g n) ≡ true = rw (p, m) at h in
          let all_three = sym (merge_none g n) ∙ h' in
          (λ k. absurd (cc (p, k)), λ _. (ground arith, ground arith, ground arith)),
      λ (_, j). let (s, two, one) = j m in rw (p, m) (merge_none g n ∙ ground arith),
    )
    | inr m ↦ (λ h. (λ k. absurd (cc (p, k)), λ k. absurd (cc (m, k))), λ _. rw (p, m) refl)
  ]
]

pub structure_none :
    (g : WorkflowGraph) (nodes : List WorkflowNode)
    → (no_items (structure_issues g nodes) ≡ true)
      ↔ (All (IsBranching g) nodes × All (IsJoining g) nodes)
unfolding structure_issues
structure_none g [] = (λ h. (tt, tt), λ h. refl)
structure_none g (n ∷ nodes) =
    let (f, b) = structure_none g nodes in
    let (nf, nb) = node_none g n in
    let split = no_items-append (node_part g n) (structure_issues g nodes) in
    (
      λ h.
          let both : (no_items (node_part g n) && no_items (structure_issues g nodes)) ≡ true =
            sym split ∙ h in
          let (x, y) = nf (ground arith) in let (xs, ys) = f (ground arith) in ((x, xs), (y, ys)),
      λ ((x, xs), (y, ys)).
          let first = nb (x, y) in let rest = b (xs, ys) in split ∙ rw (first, rest) refl,
    )

any_found :
    (p : ℕ → Bool) (xs : List ℕ) → any p xs ≡ true → (x : ℕ) × (mem x xs ≡ true) × (p x ≡ true)
any_found p [] h = absurd (cc h)
any_found p (x ∷ xs) h = elim (Bool-cases (p x)) [
  | inl e ↦ (x, ground arith, e)
  | inr e ↦ let (y, m, q) = any_found p xs (ground arith) in (y, ground arith, q)
]

found_any : (p : ℕ → Bool) (xs : List ℕ) (x : ℕ) → mem x xs ≡ true → p x ≡ true → any p xs ≡ true
found_any p [] x m q = absurd (cc m)
found_any p (y ∷ xs) x m q = elim (Bool-cases (y == x)) [
  | inl s ↦
      let at : x ≡ y = ground arith in
      let q' : p y ≡ true = subst (λ i. p i ≡ true) at q in ground arith
  | inr s ↦ let rest = found_any p xs x (ground arith) q in ground arith
]

pub bypasses_none : (g : WorkflowGraph) (n : WorkflowNode) → (bypasses g n ≡ false) ↔ IsPaired g n
unfolding bypasses
bypasses_none g n = (
  λ h p m path apart k o out free.
      let below =
        found_any (λ x. is_merge_node (node g x)) (descendants g n.id) m
          ((neighbours_exact g n.id m).1.1 (path, apart)) k in
      let reached =
        found_any (λ x. mem x (output_node_ids g)) (merge_free g n.id) o
          ((merge_free-MergeFree g n.id o).1 free) out in
      absurd (ground arith),
  λ h. elim (Bool-cases (bypasses g n)) [
    | inr e ↦ e
    | inl e ↦
        let (m, d, k) =
          any_found (λ x. is_merge_node (node g x)) (descendants g n.id) (ground arith) in
        let (o, f, out) =
          any_found (λ x. mem x (output_node_ids g)) (merge_free g n.id) (ground arith) in
        let (path, apart) = (neighbours_exact g n.id m).1.0 d in
        absurd (h (ground arith) m path apart k o out ((merge_free-MergeFree g n.id o).0 f))
  ],
)
