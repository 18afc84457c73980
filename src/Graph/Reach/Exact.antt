-- ===== src/Graph/Reach/Exact.antt =====
-- `reachable_from` finds exactly the nodes at the end of a path.
use relayvia.Prelude.{
  ℕ, zero, suc, ◌+◌, ◌<◌, Bool, true, false, not, ◌&&◌, ◌||◌, List, [], ◌∷◌, ◌==◌, ◌≡◌, ◌↔◌, refl,
  ◌∙◌, subst, any, length, filter, arith, inl, inr, Bool-cases,
}
use relayvia.Graph.{WorkflowEdge, WorkflowGraph}
use relayvia.Graph.Index.{outgoing_edges}
use relayvia.Graph.Reach.{mem, push, visit, reach, stacked, reachable_from}
use relayvia.Graph.Reach.Ends.{work, visit_lessens, work_at_first}

-- an edge leads from `s` to `t`
abbrev pub leads : WorkflowGraph → ℕ → ℕ → Bool
leads g s t = any (λ e. e.source == s && e.target == t) g.edges

-- A path along edges from one of the starts.
pub data Reaches (g : WorkflowGraph) (starts : List ℕ) : ℕ → Type 0 where
  start : (id : ℕ) → mem id starts ≡ true → Reaches g starts id
  along : (s t : ℕ) → Reaches g starts s → leads g s t ≡ true → Reaches g starts t

mem-push :
    (x : ℕ) (seen : List ℕ) (es : List WorkflowEdge) (stack : List ℕ)
    → mem x (push seen es stack)
      ≡ (mem x stack || (any (λ e. e.target == x) es && not (mem x seen)))
unfolding push
mem-push x seen [] stack = ground arith
mem-push x seen (e ∷ es) stack = elim (Bool-cases (e.target == x)) [
  | inl same ↦
      let at : e.target ≡ x = ground arith in
      elim (Bool-cases (mem x seen)) [
        | inl m ↦
            let m' : mem e.target seen ≡ true = rw at m in
            rw m' (ground (arith, mem-push x seen es stack))
        | inr m ↦
            let m' : mem e.target seen ≡ false = rw at m in
            rw m' (ground (arith, mem-push x seen es (e.target ∷ stack)))
      ]
  | inr other ↦ elim (Bool-cases (mem e.target seen)) [
    | inl m ↦ rw m (ground (arith, mem-push x seen es stack))
    | inr m ↦ rw m (ground (arith, mem-push x seen es (e.target ∷ stack)))
  ]
]

out_leads :
    (s t : ℕ) (es : List WorkflowEdge)
    → any (λ e. e.target == t) (filter (λ e. e.source == s) es)
      ≡ any (λ e. e.source == s && e.target == t) es
out_leads s t [] = refl
out_leads s t (e ∷ es) = ground (arith, out_leads s t es)

pub mem-stacked : (x : ℕ) (xs stack : List ℕ) → mem x (stacked xs stack) ≡ (mem x xs || mem x stack)
mem-stacked x [] stack = refl
mem-stacked x (y ∷ xs) stack = ground (arith, mem-stacked x xs (y ∷ stack))

module _ (g : WorkflowGraph) (starts : List ℕ) where
  -- what holds each time round the loop
  record IsSearch (stack seen : List ℕ) : Type 0 where
    stack_reached : (x : ℕ) → mem x stack ≡ true → Reaches g starts x
    seen_reached : (x : ℕ) → mem x seen ≡ true → Reaches g starts x
    begun : (x : ℕ) → mem x starts ≡ true → (mem x seen || mem x stack) ≡ true
    closed : (s t : ℕ) → mem s seen ≡ true → leads g s t ≡ true → (mem t seen || mem t stack) ≡ true

  module _ (c : ℕ) (stack seen : List ℕ) (inv : IsSearch (c ∷ stack) seen) where
    c_reached : Reaches g starts c
    c_reached = inv.stack_reached c (ground arith)

    pushed :
        (x : ℕ)
        → mem x (push (c ∷ seen) (outgoing_edges g c) stack)
          ≡ (mem x stack || (leads g c x && not (mem x (c ∷ seen))))
    pushed x = mem-push x (c ∷ seen) (outgoing_edges g c) stack ∙ rw (out_leads c x g.edges) refl

    push-IsSearch :
        mem c seen ≡ false → IsSearch (push (c ∷ seen) (outgoing_edges g c) stack) (c ∷ seen)
    push-IsSearch fresh = record {
      stack_reached = λ x m. elim (Bool-cases (mem x stack)) [
        | inl s ↦ inv.stack_reached x (ground arith)
        | inr s ↦ along c x c_reached (ground (arith, pushed x))
      ];
      seen_reached = λ x m. elim (Bool-cases (c == x)) [
        | inl e ↦ subst (Reaches g starts) (ground arith) c_reached
        | inr e ↦ inv.seen_reached x (ground arith)
      ];
      begun = λ x m. ground (arith, inv.begun x, pushed x);
      closed = λ s t m l. elim (Bool-cases (c == s)) [
        | inl e ↦
            let at : c ≡ s = ground arith in
            let l' : leads g c t ≡ true = rw at l in ground (arith, pushed t)
        | inr e ↦ ground (arith, inv.closed s t, pushed t)
      ];
    }

    drop-IsSearch : mem c seen ≡ true → IsSearch stack seen
    drop-IsSearch old = record {
      stack_reached = λ x m. inv.stack_reached x (ground arith);
      seen_reached = inv.seen_reached;
      begun = λ x m. ground (arith, inv.begun x);
      closed = λ s t m l. ground (arith, inv.closed s t);
    }

    visit-IsSearch : IsSearch (visit g c stack seen).0 (visit g c stack seen).1
    unfolding visit
    visit-IsSearch = elim (Bool-cases (mem c seen)) [
      | inl old ↦ rw old (drop-IsSearch old)
      | inr fresh ↦ rw fresh (push-IsSearch fresh)
    ]

  all_seen : (seen : List ℕ) → IsSearch [] seen → (x : ℕ) → Reaches g starts x → mem x seen ≡ true
  all_seen seen inv _ (start x m) = ground (arith, inv.begun x)
  all_seen seen inv _ (along s t r l) =
      let before = all_seen seen inv s r in ground (arith, inv.closed s t)

  reach-Reaches :
      (fuel : ℕ) (stack seen : List ℕ)
      → work g stack seen < fuel
      → IsSearch stack seen
      → (x : ℕ) → (mem x (reach fuel g stack seen) ≡ true) ↔ Reaches g starts x
  unfolding reach
  reach-Reaches zero stack seen b inv x = absurd (omega arith)
  reach-Reaches (suc fuel) [] seen b inv x = (inv.seen_reached x, all_seen seen inv x)
  reach-Reaches (suc fuel) (c ∷ stack) seen b inv x =
      reach-Reaches fuel (visit g c stack seen).0 (visit g c stack seen).1
        (omega (arith, visit_lessens g c stack seen)) (visit-IsSearch c stack seen inv) x

-- `reachable_from` returns exactly the nodes that are starts or at the end of a path of edges from one.
pub reachable_from-Reaches :
    (g : WorkflowGraph) (starts : List ℕ) (id : ℕ)
    → (mem id (reachable_from g starts) ≡ true) ↔ Reaches g starts id
unfolding reachable_from
reachable_from-Reaches g starts id =
    reach-Reaches g starts (suc (length starts + length g.edges)) (stacked starts []) []
      (work_at_first g starts)
      (record {
        stack_reached = λ x m. start x (ground (arith, mem-stacked x starts []));
        seen_reached = λ x m. cc;
        begun = λ x m. ground (arith, mem-stacked x starts []);
        closed = λ s t m l. cc;
      })
      id
