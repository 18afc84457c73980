-- ===== src/Graph/Reach/Ends.antt =====
-- Each time round the loop of `reachable_from` lessens the stack and the edges whose source is not seen.
use relayvia.Prelude.{
  subst, ℕ, suc, ◌+◌, ◌≤◌, ◌<◌, false, not, List, [], ◌∷◌, ◌==◌, ◌≡◌, refl, length, filter, arith,
  inl, inr, Bool-cases,
}
use relayvia.Graph.{WorkflowEdge, WorkflowGraph}
use relayvia.Graph.Index.{outgoing_edges}
use relayvia.Graph.Reach.{mem, push, visit, stacked}

-- the edges whose end by `key` is not seen
abbrev pub unseen_by : (WorkflowEdge → ℕ) → List ℕ → List WorkflowEdge → ℕ
unseen_by key seen es = length (filter (λ e. not (mem (key e) seen)) es)

abbrev pub unseen_edges : List ℕ → List WorkflowEdge → ℕ
unseen_edges seen es = unseen_by (λ e. e.source) seen es

length-push :
    (seen : List ℕ) (es : List WorkflowEdge) (stack : List ℕ)
    → length (push seen es stack) ≤ length es + length stack
unfolding push
length-push seen [] stack = omega arith
length-push seen (e ∷ es) stack = elim (Bool-cases (mem e.target seen)) [
  | inl m ↦ rw m (omega (arith, length-push seen es stack))
  | inr m ↦ rw m (omega (arith, length-push seen es (e.target ∷ stack)))
]

pub unseen_split :
    (key : WorkflowEdge → ℕ) (c : ℕ) (seen : List ℕ) (es : List WorkflowEdge)
    → mem c seen ≡ false
    → unseen_by key (c ∷ seen) es + length (filter (λ e. key e == c) es) ≡ unseen_by key seen es
unseen_split key c seen [] h = omega arith
unseen_split key c seen (e ∷ es) h = elim (Bool-cases (key e == c)) [
  | inl s ↦
      let at : c ≡ key e = ground arith in
      let fresh : mem (key e) seen ≡ false = subst (λ i. mem i seen ≡ false) at h in
      ground (arith, unseen_split key c seen es h)
  | inr s ↦ ground (arith, unseen_split key c seen es h)
]

abbrev pub work : WorkflowGraph → List ℕ → List ℕ → ℕ
work g stack seen = length stack + unseen_edges seen g.edges

pub visit_lessens :
    (g : WorkflowGraph) (c : ℕ) (stack seen : List ℕ)
    → work g (visit g c stack seen).0 (visit g c stack seen).1 < work g (c ∷ stack) seen
unfolding visit
visit_lessens g c stack seen = elim (Bool-cases (mem c seen)) [
  | inl m ↦ rw m (omega arith)
  | inr m ↦ rw m (
      omega (
        arith,
        unseen_split (λ e. e.source) c seen g.edges m,
        length-push (c ∷ seen) (outgoing_edges g c) stack,
      ))
]

pub length-stacked : (xs stack : List ℕ) → length (stacked xs stack) ≡ length xs + length stack
length-stacked [] stack = omega arith
length-stacked (x ∷ xs) stack = omega (arith, length-stacked xs (x ∷ stack))

pub unseen_at_first :
    (key : WorkflowEdge → ℕ) (es : List WorkflowEdge) → unseen_by key [] es ≡ length es
unseen_at_first key [] = refl
unseen_at_first key (e ∷ es) = omega (arith, unseen_at_first key es)

pub work_at_first :
    (g : WorkflowGraph) (starts : List ℕ)
    → work g (stacked starts []) [] < suc (length starts + length g.edges)
work_at_first g starts =
    omega (arith, length-stacked starts [], unseen_at_first (λ e. e.source) g.edges)
