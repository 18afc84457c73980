-- ===== src/Graph/Cycle/Order.antt =====
-- The nodes that are taken off come in an order in which every edge goes up.
use relayvia.Prelude.{
  ℕ, ◌+◌, ◌-◌, ◌≤◌, Bool, true, false, not, ◌&&◌, ◌||◌, none, some, List, [], ◌∷◌, ◌==◌, ◌≡◌, refl,
  sym, ap, ◌∙◌, any, all, length, filter, is_some, ltb, leb, arith, inl, inr, Bool-cases,
  Option-cases,
}
use relayvia.Table.{Table, get}
use relayvia.Graph.{WorkflowEdge, WorkflowGraph}
use relayvia.Graph.Index.{outgoing_edges}
use relayvia.Graph.Reach.{mem}
use relayvia.Graph.Cycle.{relax}
use relayvia.Graph.Cycle.Relax.{edges_to, get-relax, mem-relax, IsFresh, relax-IsFresh}

-- the edges to `t` from a node that was taken off
abbrev pub from_done : List ℕ → ℕ → List WorkflowEdge → ℕ
from_done done t es = length (filter (λ e. e.target == t && mem e.source done) es)

abbrev pub sources_in : List ℕ → ℕ → List WorkflowEdge → Bool
sources_in done t es = all (λ e. not (e.target == t) || mem e.source done) es

-- Each node comes once and after the sources of its edges; the last comes first.
abbrev pub ordered : List WorkflowEdge → List ℕ → Bool
ordered es [] = true
ordered es (c ∷ done) = not (mem c done) && (sources_in done c es && ordered es done)

from_done_le :
    (done : List ℕ) (t : ℕ) (es : List WorkflowEdge) → from_done done t es ≤ edges_to t es
from_done_le done t [] = omega arith
from_done_le done t (e ∷ es) = ground (arith, from_done_le done t es)

from_done_split :
    (c t : ℕ) (done : List ℕ) (es : List WorkflowEdge)
    → mem c done ≡ false
    → from_done (c ∷ done) t es ≡ from_done done t es + edges_to t (filter (λ e. e.source == c) es)
from_done_split c t done [] h = omega arith
from_done_split c t done (e ∷ es) h = elim (Bool-cases (e.source == c)) [
  | inl s ↦
      let at : e.source ≡ c = ground arith in
      let fresh : mem e.source done ≡ false = rw at h in
      ground (arith, from_done_split c t done es h)
  | inr s ↦ ground (arith, from_done_split c t done es h)
]

all_sources :
    (done : List ℕ) (t : ℕ) (es : List WorkflowEdge)
    → from_done done t es ≡ edges_to t es
    → sources_in done t es ≡ true
all_sources done t [] h = refl
all_sources done t (e ∷ es) h = ground (arith, all_sources done t es, from_done_le done t es)

pub record IsOrder (g : WorkflowGraph) (degrees : Table ℕ) (queue done : List ℕ) : Type 0 where
  pub fresh : IsFresh degrees queue
  pub rows : (x : ℕ) → any (λ n. n.id == x) g.nodes ≡ true → is_some (get x degrees) ≡ true
  pub counted :
      (t d : ℕ) → get t degrees ≡ some d → d + from_done done t g.edges ≡ edges_to t g.edges
  pub done_zero : (x : ℕ) → mem x done ≡ true → get x degrees ≡ some 0
  pub apart : (x : ℕ) → mem x queue ≡ true → mem x done ≡ false
  pub placed : (x : ℕ) → get x degrees ≡ some 0 → (mem x queue || mem x done) ≡ true
  pub in_order : ordered g.edges done ≡ true

module _ (g : WorkflowGraph) (c : ℕ) (degrees : Table ℕ) (queue done : List ℕ)
    (inv : IsOrder g degrees (c ∷ queue) done) where
  abbrev out : List WorkflowEdge
  out = outgoing_edges g c

  c_apart : mem c done ≡ false
  c_apart = inv.apart c (ground arith)

  c_zero : get c degrees ≡ some 0
  c_zero = inv.fresh.zero_degree c (ground arith)

  queue-IsFresh : IsFresh degrees queue
  queue-IsFresh = record {
    once = let h = inv.fresh.once in ground arith;
    zero_degree = λ x m. inv.fresh.zero_degree x (ground arith);
  }

  kept_zero : (x : ℕ) → get x degrees ≡ some 0 → get x (relax out degrees queue).0 ≡ some 0
  kept_zero x h = get-relax x out degrees queue ∙ (rw h (ground arith))

  abbrev after : Table ℕ × List ℕ
  after = relax out degrees queue

  row_before : (x v : ℕ) → get x after.0 ≡ some v → (d : ℕ) × (get x degrees ≡ some d)
  row_before x v h = elim (Option-cases (get x degrees)) [
    | inr (d, e) ↦ (d, e)
    | inl e ↦
        let gone : get x after.0 ≡ none = get-relax x out degrees queue ∙ rw e refl in
        absurd (cc (gone, h))
  ]

  row_after : (x d : ℕ) → get x degrees ≡ some d → get x after.0 ≡ some (d - edges_to x out)
  row_after x d e = get-relax x out degrees queue ∙ rw e refl

  queued_after :
      (x d : ℕ)
      → get x degrees ≡ some d
      → mem x after.1 ≡ (mem x queue || (ltb 0 d && leb d (edges_to x out)))
  queued_after x d e = mem-relax x out degrees queue ∙ rw e refl

  queued_new : (x : ℕ) → get x degrees ≡ none → mem x after.1 ≡ mem x queue
  queued_new x e = mem-relax x out degrees queue ∙ (rw e (ground arith))

  counted_after :
      (t v : ℕ) → get t after.0 ≡ some v → v + from_done (c ∷ done) t g.edges ≡ edges_to t g.edges
  counted_after t v h =
      let (d, e) = row_before t v h in
      let now : some v ≡ some (d - edges_to t out) = sym h ∙ row_after t d e in
      let split = from_done_split c t done g.edges c_apart in
      let le = from_done_le (c ∷ done) t g.edges in let before = inv.counted t d e in ground arith

  apart_after : (x : ℕ) → mem x after.1 ≡ true → mem x (c ∷ done) ≡ false
  apart_after x m = elim (Bool-cases (mem x (c ∷ done))) [
    | inr out_of ↦ out_of
    | inl inside ↦
        let zero_row : get x degrees ≡ some 0 = taken_zero x inside in
        let q : mem x queue ≡ true = let h = queued_after x 0 zero_row in ground arith in
        let once = inv.fresh.once in
        let free = inv.apart x (ground arith) in
        elim (Bool-cases (c == x)) [
          | inl s ↦
              let at : c ≡ x = ground arith in
              let alone : mem c queue ≡ false = ground arith in absurd (cc (at, alone, q))
          | inr s ↦ ground arith
        ]
  ]
    where
      taken_zero : (x : ℕ) → mem x (c ∷ done) ≡ true → get x degrees ≡ some 0
      taken_zero x inside = elim (Bool-cases (c == x)) [
        | inl s ↦ let at : c ≡ x = ground arith in rw (← at) c_zero
        | inr s ↦ inv.done_zero x (ground arith)
      ]

  placed_after : (x : ℕ) → get x after.0 ≡ some 0 → (mem x after.1 || mem x (c ∷ done)) ≡ true
  placed_after x h =
      let (d, e) = row_before x 0 h in
      let now : some 0 ≡ some (d - edges_to x out) = sym h ∙ row_after x d e in
      let q = queued_after x d e in
      elim (Bool-cases (d == 0)) [
        | inl z ↦
            let at : d ≡ 0 = ground arith in let old = inv.placed x (e ∙ ap some at) in ground arith
        | inr p ↦ ground arith
      ]

  pub take_one : IsOrder g after.0 after.1 (c ∷ done)
  take_one = record {
    fresh = relax-IsFresh out degrees queue queue-IsFresh;
    rows = λ x m. elim (Option-cases (get x degrees)) [
      | inl e ↦ let row = inv.rows x m in absurd (ground arith)
      | inr (d, e) ↦ rw (row_after x d e) refl
    ];
    counted = counted_after;
    done_zero = λ x m. elim (Bool-cases (c == x)) [
      | inl s ↦ let at : c ≡ x = ground arith in kept_zero x (rw (← at) c_zero)
      | inr s ↦ kept_zero x (inv.done_zero x (ground arith))
    ];
    apart = apart_after;
    placed = placed_after;
    in_order =
        let start = inv.counted c 0 c_zero in
        let full = all_sources done c g.edges (ground arith) in
        let before = inv.in_order in let new = c_apart in ground arith;
  }
