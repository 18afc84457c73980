-- ===== src/Graph/Search/Exact.antt =====
-- A search finds exactly the nodes at the end of a path that passes over none of the excluded nodes.
use relayvia.Prelude.{
  ℕ, zero, suc, ◌+◌, ◌≤◌, ◌<◌, true, false, not, ◌&&◌, ◌||◌, List, [], ◌∷◌, ◌==◌, ◌≡◌, ◌↔◌, sym,
  subst, length, arith, inl, inr, Bool-cases,
}
use relayvia.Graph.Reach.{mem, stacked}
use relayvia.Graph.Reach.Ends.{length-stacked}
use relayvia.Graph.Reach.Exact.{mem-stacked}
use relayvia.Graph.Search.{Steps, push_new, expand, search_from}

-- A path along steps from one of the starts, none of whose nodes is passed over.
pub data Finds (s : Steps) (starts : List ℕ) : ℕ → Type 0 where
  begin : (x : ℕ) → mem x starts ≡ true → s.passed x ≡ false → Finds s starts x
  step :
      (x y : ℕ) → Finds s starts x → mem y (s.next x) ≡ true → s.passed y ≡ false → Finds s starts y

length-push_new :
    (s : Steps) (seen xs stack : List ℕ)
    → length (push_new s seen xs stack) ≤ length xs + length stack
unfolding push_new
length-push_new s seen [] stack = omega arith
length-push_new s seen (x ∷ xs) stack = elim (Bool-cases (mem x seen || s.passed x)) [
  | inl m ↦ rw m (omega (arith, length-push_new s seen xs stack))
  | inr m ↦ rw m (omega (arith, length-push_new s seen xs (x ∷ stack)))
]

mem-push_new :
    (x : ℕ) (s : Steps) (seen xs stack : List ℕ)
    → mem x (push_new s seen xs stack)
      ≡ (mem x stack || (mem x xs && not (mem x seen || s.passed x)))
unfolding push_new
mem-push_new x s seen [] stack = ground arith
mem-push_new x s seen (y ∷ xs) stack = elim (Bool-cases (y == x)) [
  | inr other ↦ elim (Bool-cases (mem y seen || s.passed y)) [
    | inl m ↦ rw m (ground (arith, mem-push_new x s seen xs stack))
    | inr m ↦ rw m (ground (arith, mem-push_new x s seen xs (y ∷ stack)))
  ]
  | inl same ↦
      let at : y ≡ x = ground arith in
      elim (Bool-cases (mem x seen || s.passed x)) [
        | inl m ↦
            let m' : (mem y seen || s.passed y) ≡ true =
              subst (λ i. (mem i seen || s.passed i) ≡ true) (sym at) m in
            rw m' (ground (arith, mem-push_new x s seen xs stack))
        | inr m ↦
            let m' : (mem y seen || s.passed y) ≡ false =
              subst (λ i. (mem i seen || s.passed i) ≡ false) (sym at) m in
            rw m' (ground (arith, mem-push_new x s seen xs (y ∷ stack)))
      ]
]

-- `cost seen` bounds the steps that nodes outside of `seen` still have.
abbrev pub Pays : Steps → (List ℕ → ℕ) → Type 0
Pays s cost =
    (c : ℕ) (seen : List ℕ) → mem c seen ≡ false → cost (c ∷ seen) + length (s.next c) ≤ cost seen

module _ (s : Steps) (starts : List ℕ) (cost : List ℕ → ℕ) (pays : Pays s cost) where
  record IsSearch (stack seen : List ℕ) : Type 0 where
    stack_found : (x : ℕ) → mem x stack ≡ true → s.passed x ≡ false → Finds s starts x
    seen_found : (x : ℕ) → mem x seen ≡ true → Finds s starts x
    begun : (x : ℕ) → mem x starts ≡ true → s.passed x ≡ false → (mem x seen || mem x stack) ≡ true
    closed :
        (x y : ℕ)
        → mem x seen ≡ true
        → mem y (s.next x) ≡ true
        → s.passed y ≡ false
        → (mem y seen || mem y stack) ≡ true

  module _ (c : ℕ) (stack seen : List ℕ) (inv : IsSearch (c ∷ stack) seen) where
    push-IsSearch :
        mem c seen ≡ false
        → s.passed c ≡ false
        → IsSearch (push_new s (c ∷ seen) (s.next c) stack) (c ∷ seen)
    push-IsSearch fresh open_node =
        let found = inv.stack_found c (ground arith) open_node in
        record {
          stack_found = λ x m p. elim (Bool-cases (mem x stack)) [
            | inl h ↦ inv.stack_found x (ground arith) p
            | inr h ↦
                step c x found (ground (arith, mem-push_new x s (c ∷ seen) (s.next c) stack)) p
          ];
          seen_found = λ x m. elim (Bool-cases (c == x)) [
            | inl e ↦ subst (Finds s starts) (ground arith) found
            | inr e ↦ inv.seen_found x (ground arith)
          ];
          begun =
              λ x m p. ground (arith, inv.begun x, mem-push_new x s (c ∷ seen) (s.next c) stack);
          closed = λ x y m n p. elim (Bool-cases (c == x)) [
            | inl e ↦
                let at : x ≡ c = ground arith in
                let n' : mem y (s.next c) ≡ true = subst (λ i. mem y (s.next i) ≡ true) at n in
                ground (arith, mem-push_new y s (c ∷ seen) (s.next c) stack)
            | inr e ↦ ground (arith, inv.closed x y, mem-push_new y s (c ∷ seen) (s.next c) stack)
          ];
        }

    drop-IsSearch : (s.passed c || mem c seen) ≡ true → IsSearch stack seen
    drop-IsSearch old = record {
      stack_found = λ x m p. inv.stack_found x (ground arith) p;
      seen_found = inv.seen_found;
      begun = λ x m p. elim (Bool-cases (c == x)) [
        | inl e ↦
            let at : c ≡ x = ground arith in
            let old' : (s.passed x || mem x seen) ≡ true =
              subst (λ i. (s.passed i || mem i seen) ≡ true) at old in
            ground arith
        | inr e ↦ ground (arith, inv.begun x)
      ];
      closed = λ x y m n p. elim (Bool-cases (c == y)) [
        | inl e ↦
            let at : c ≡ y = ground arith in
            let old' : (s.passed y || mem y seen) ≡ true =
              subst (λ i. (s.passed i || mem i seen) ≡ true) at old in
            ground arith
        | inr e ↦ ground (arith, inv.closed x y)
      ];
    }

    expand-IsSearch : IsSearch (expand s c stack seen).0 (expand s c stack seen).1
    unfolding expand
    expand-IsSearch = elim (Bool-cases (s.passed c || mem c seen)) [
      | inl old ↦ rw old (drop-IsSearch old)
      | inr new ↦ rw new (push-IsSearch (ground arith) (ground arith))
    ]

  work : List ℕ → List ℕ → ℕ
  work stack seen = length stack + cost seen

  expand_lessens :
      (c : ℕ) (stack seen : List ℕ)
      → work (expand s c stack seen).0 (expand s c stack seen).1 < work (c ∷ stack) seen
  unfolding expand work
  expand_lessens c stack seen = elim (Bool-cases (s.passed c || mem c seen)) [
    | inl old ↦ rw old (omega arith)
    | inr new ↦
        let fresh : mem c seen ≡ false = ground arith in
        rw new (omega (arith, pays c seen fresh, length-push_new s (c ∷ seen) (s.next c) stack))
  ]

  all_found : (seen : List ℕ) → IsSearch [] seen → (x : ℕ) → Finds s starts x → mem x seen ≡ true
  all_found seen inv _ (begin x m p) = ground (arith, inv.begun x)
  all_found seen inv _ (step x y f m p) =
      let before = all_found seen inv x f in ground (arith, inv.closed x y)

  search-Finds :
      (fuel : ℕ) (stack seen : List ℕ)
      → work stack seen < fuel
      → IsSearch stack seen
      → (x : ℕ) → (mem x (search_from fuel s stack seen) ≡ true) ↔ Finds s starts x
  unfolding search_from
  search-Finds zero stack seen b inv x = absurd (omega arith)
  search-Finds (suc fuel) [] seen b inv x = (inv.seen_found x, all_found seen inv x)
  search-Finds (suc fuel) (c ∷ stack) seen b inv x =
      search-Finds fuel (expand s c stack seen).0 (expand s c stack seen).1
        (omega (arith, expand_lessens c stack seen)) (expand-IsSearch c stack seen inv) x

  -- with fuel above the starts and the steps of all nodes
  pub search_from-Finds :
      (fuel : ℕ)
      → length starts + cost [] < fuel
      → (x : ℕ) → (mem x (search_from fuel s (stacked starts []) []) ≡ true) ↔ Finds s starts x
  unfolding work
  search_from-Finds fuel b x =
      search-Finds fuel (stacked starts []) [] (omega (arith, length-stacked starts []))
        (record {
          stack_found = λ x m p. begin x (ground (arith, mem-stacked x starts [])) p;
          seen_found = λ x m. cc;
          begun = λ x m p. ground (arith, mem-stacked x starts []);
          closed = λ x y m n p. cc;
        })
        x
