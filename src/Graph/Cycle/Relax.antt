-- ===== src/Graph/Cycle/Relax.antt =====
-- What one node that is taken off does to the degrees and to the queue.
pub use relayvia.Prelude.{distinct}
use relayvia.Prelude.{
  ℕ, suc, ◌+◌, ◌-◌, ◌≤◌, Bool, true, false, ◌&&◌, ◌||◌, Option, none, some, List, [], ◌∷◌, ◌++◌,
  ◌==◌, ◌≡◌, refl, sym, ap, ◌∙◌, length, filter, if◌then◌else◌, ltb, leb, arith, inl, inr,
  Bool-cases, Option-cases,
}
use relayvia.Table.{Table, get, put, get-put}
use relayvia.Graph.{WorkflowEdge}
use relayvia.Graph.Reach.{mem}
use relayvia.Graph.Cycle.{relax, lower}

abbrev pub edges_to : ℕ → List WorkflowEdge → ℕ
edges_to t es = length (filter (λ e. e.target == t) es)

abbrev pub lowered : ℕ → Option ℕ → Option ℕ
lowered k none = none
lowered k (some d) = some (d - k)

abbrev pub crossed : ℕ → Option ℕ → Bool
crossed k none = false
crossed k (some d) = ltb 0 d && leb d k

mem-append : (x y : ℕ) (xs : List ℕ) → mem x (xs ++ (y ∷ [])) ≡ (mem x xs || (y == x))
mem-append x y [] = ground arith
mem-append x y (z ∷ xs) = ground (arith, mem-append x y xs)

module _ (t : ℕ) (o : Option ℕ) (degrees : Table ℕ) (queue : List ℕ) (at : get t degrees ≡ o) where
  get-lower :
      (x : ℕ)
      → get x (lower t o degrees queue).0
        ≡ (if t == x then lowered 1 (get x degrees) else get x degrees)
  unfolding lower
  get-lower x = elim (Option-cases o) [
    | inl e ↦ rw e (ground arith)
    | inr (d, e) ↦ rw e (ground (arith, get-put t x (d - 1) degrees))
  ]

  mem-lower : (x : ℕ) → mem x (lower t o degrees queue).1 ≡ (mem x queue || (t == x && crossed 1 o))
  unfolding lower
  mem-lower x = elim (Option-cases o) [
    | inl e ↦ rw e (ground arith)
    | inr (d, e) ↦ elim (Bool-cases (d == 1)) [
      | inl one ↦ rw e (ground (arith, mem-append x t queue))
      | inr other ↦ rw e (ground arith)
    ]
  ]

lowered_twice : (k : ℕ) (o : Option ℕ) → lowered k (lowered 1 o) ≡ lowered (suc k) o
lowered_twice k none = refl
lowered_twice k (some d) = ground arith

crossed_twice :
    (k : ℕ) (o : Option ℕ) → (crossed 1 o || crossed k (lowered 1 o)) ≡ crossed (suc k) o
crossed_twice k none = refl
crossed_twice k (some d) = ground arith

crossed_none : (o : Option ℕ) → crossed 0 o ≡ false
crossed_none none = refl
crossed_none (some d) = ground arith

lowered_none : (o : Option ℕ) → lowered 0 o ≡ o
lowered_none none = refl
lowered_none (some d) = ground arith

pub get-relax :
    (x : ℕ) (es : List WorkflowEdge) (degrees : Table ℕ) (queue : List ℕ)
    → get x (relax es degrees queue).0 ≡ lowered (edges_to x es) (get x degrees)
unfolding relax
get-relax x [] degrees queue = sym (lowered_none (get x degrees))
get-relax x (e ∷ es) degrees queue =
    let t = e.target in
    let o = get t degrees in
    let rest = get-relax x es (lower t o degrees queue).0 (lower t o degrees queue).1 in
    let step = get-lower t o degrees queue refl x in
    elim (Bool-cases (e.target == x)) [
      | inl s ↦
          let step' : get x (lower t o degrees queue).0 ≡ lowered 1 (get x degrees) =
            rw s at step in
          rest ∙ (rw (step', s) (lowered_twice (edges_to x es) (get x degrees)))
      | inr s ↦
          let step' : get x (lower t o degrees queue).0 ≡ get x degrees = rw s at step in
          rest ∙ (rw (step', s) refl)
    ]

pub mem-relax :
    (x : ℕ) (es : List WorkflowEdge) (degrees : Table ℕ) (queue : List ℕ)
    → mem x (relax es degrees queue).1 ≡ (mem x queue || crossed (edges_to x es) (get x degrees))
unfolding relax
mem-relax x [] degrees queue = ground (arith, crossed_none (get x degrees))
mem-relax x (e ∷ es) degrees queue =
    let t = e.target in
    let o = get t degrees in
    let rest = mem-relax x es (lower t o degrees queue).0 (lower t o degrees queue).1 in
    let step = get-lower t o degrees queue refl x in
    let here = mem-lower t o degrees queue refl x in
    elim (Bool-cases (e.target == x)) [
      | inl s ↦
          let at : e.target ≡ x = ground arith in
          let step' : get x (lower t o degrees queue).0 ≡ lowered 1 (get x degrees) =
            rw s at step in
          let here' : mem x (lower t o degrees queue).1
              ≡ (mem x queue || crossed 1 (get x degrees)) =
            here
            ∙ ap (λ i. mem x queue || (i == x && crossed 1 (get i degrees))) at
            ∙ ground arith in
          rest
          ∙ (rw (step', here', s) (ground (arith, crossed_twice (edges_to x es) (get x degrees))))
      | inr s ↦
          let step' : get x (lower t o degrees queue).0 ≡ get x degrees = rw s at step in
          rest ∙ (rw (step', here, s) (ground arith))
    ]

abbrev pub positives : Table ℕ → ℕ
positives [] = 0
positives ((k, d) ∷ rows) = let rest = positives rows in if ltb 0 d then suc rest else rest

positives-put :
    (t d v : ℕ) (degrees : Table ℕ)
    → get t degrees ≡ some d
    → positives (put t v degrees) + (if ltb 0 d then 1 else 0)
      ≡ positives degrees + (if ltb 0 v then 1 else 0)
unfolding get put
positives-put t d v [] h = cc
positives-put t d v ((k, c) ∷ rows) h = ground (arith, positives-put t d v rows)

distinct-append :
    (y : ℕ) (xs : List ℕ) → distinct xs ≡ true → mem y xs ≡ false → distinct (xs ++ (y ∷ [])) ≡ true
distinct-append y [] d m = refl
distinct-append y (x ∷ xs) d m = ground (arith, distinct-append y xs, mem-append x y xs)

-- What is in the queue has degree zero, and is there once.
pub record IsFresh (degrees : Table ℕ) (queue : List ℕ) : Type 0 where
  pub once : distinct queue ≡ true
  pub zero_degree : (x : ℕ) → mem x queue ≡ true → get x degrees ≡ some 0

distinct-lower :
    (t : ℕ) (o : Option ℕ) (degrees : Table ℕ) (queue : List ℕ)
    → IsFresh degrees queue
    → get t degrees ≡ o
    → distinct (lower t o degrees queue).1 ≡ true
unfolding lower
distinct-lower t none degrees queue f h = f.once
distinct-lower t (some d) degrees queue f h = elim (Bool-cases (d == 1)) [
  | inl one ↦ rw one (distinct-append t queue f.once (ground (arith, f.zero_degree t)))
  | inr other ↦ rw other f.once
]

lowered_to_zero :
    (o : Option ℕ) (m : Bool)
    → (m ≡ true → o ≡ some 0)
    → (m || crossed 1 o) ≡ true
    → lowered 1 o ≡ some 0
lowered_to_zero none m z h = ground arith
lowered_to_zero (some d) true z h = ap (lowered 1) (z refl) ∙ ground arith
lowered_to_zero (some d) false z h = ground arith

lower-IsFresh :
    (t : ℕ) (degrees : Table ℕ) (queue : List ℕ)
    → IsFresh degrees queue
    → IsFresh (lower t (get t degrees) degrees queue).0 (lower t (get t degrees) degrees queue).1
lower-IsFresh t degrees queue f = record {
  once = distinct-lower t (get t degrees) degrees queue f refl;
  zero_degree = λ x m.
      let step = get-lower t (get t degrees) degrees queue refl x in
      let here = mem-lower t (get t degrees) degrees queue refl x in
      elim (Bool-cases (t == x)) [
        | inl s ↦
            let at : t ≡ x = ground arith in
            let went : (mem x queue || crossed 1 (get x degrees)) ≡ true =
              ap (λ i. mem x queue || crossed 1 (get i degrees)) (sym at)
              ∙ (ap (λ b. mem x queue || (b && crossed 1 (get t degrees))) (sym s)
                  ∙ (sym here ∙ m)) in
            (step ∙ rw s refl)
            ∙ lowered_to_zero (get x degrees) (mem x queue) (f.zero_degree x) went
        | inr s ↦ (step ∙ rw s refl) ∙ f.zero_degree x (ground arith)
      ];
}

pub relax-IsFresh :
    (es : List WorkflowEdge) (degrees : Table ℕ) (queue : List ℕ)
    → IsFresh degrees queue
    → IsFresh (relax es degrees queue).0 (relax es degrees queue).1
unfolding relax
relax-IsFresh [] degrees queue f = f
relax-IsFresh (e ∷ es) degrees queue f =
    relax-IsFresh es _ _ (lower-IsFresh e.target degrees queue f)

length-append : (y : ℕ) (xs : List ℕ) → length (xs ++ (y ∷ [])) ≡ suc (length xs)
length-append y [] = refl
length-append y (x ∷ xs) = ap suc (length-append y xs)

length-lower :
    (t : ℕ) (o : Option ℕ) (degrees : Table ℕ) (queue : List ℕ)
    → get t degrees ≡ o
    → length (lower t o degrees queue).1 + positives (lower t o degrees queue).0
      ≤ length queue + positives degrees
unfolding lower
length-lower t none degrees queue h = omega arith
length-lower t (some d) degrees queue h = elim (Bool-cases (d == 1)) [
  | inl one ↦ rw one (ground (arith, positives-put t d (d - 1) degrees h, length-append t queue))
  | inr other ↦ rw other (ground (arith, positives-put t d (d - 1) degrees h))
]

pub length-relax :
    (es : List WorkflowEdge) (degrees : Table ℕ) (queue : List ℕ)
    → length (relax es degrees queue).1 + positives (relax es degrees queue).0
      ≤ length queue + positives degrees
unfolding relax
length-relax [] degrees queue = omega arith
length-relax (e ∷ es) degrees queue = omega (
  arith,
  length-relax es (lower e.target (get e.target degrees) degrees queue).0
      (lower e.target (get e.target degrees) degrees queue).1,
  length-lower e.target (get e.target degrees) degrees queue refl,
)
