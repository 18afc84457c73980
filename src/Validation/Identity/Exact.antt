-- ===== src/Validation/Identity/Exact.antt =====
-- What a graph without identity issues is like.
use relayvia.Prelude.{
  ℕ, Bool, true, false, not, ◌&&◌, List, [], ◌∷◌, ◌++◌, ◌==◌, ◌≡◌, ◌↔◌, refl, ◌∙◌, subst, map, any,
  all, filter, mem, distinct, no_items, ltb, arith, inl, inr, Bool-cases,
}
use relayvia.Graph.{WorkflowEdge, WorkflowGraph}
use relayvia.Validation.Issue.{ValidationIssue, when}
use relayvia.Validation.Identity.{
  counter_keys, count, duplicated, same_connection, edge_issues, validate_identity,
}

pub no_items-append :
    {A : Type 0} (xs ys : List A) → no_items (xs ++ ys) ≡ (no_items xs && no_items ys)
no_items-append [] ys = refl
no_items-append (x ∷ xs) ys = refl

pub no_items-map : {A B : Type 0} (f : A → B) (xs : List A) → no_items (map f xs) ≡ no_items xs
no_items-map f [] = refl
no_items-map f (x ∷ xs) = refl

pub no_items-when : (b : Bool) (i : ValidationIssue) → no_items (when b i) ≡ not b
no_items-when true i = refl
no_items-when false i = refl

-- No edge is a later copy of another.
abbrev pub distinct_connections : List WorkflowEdge → Bool
distinct_connections [] = true
distinct_connections (e ∷ es) = not (any (same_connection e) es) && distinct_connections es

-- the edge joins two nodes and is no loop
abbrev pub joins : List ℕ → WorkflowEdge → Bool
joins ids e = mem e.source ids && (mem e.target ids && not (e.source == e.target))

abbrev apart : List WorkflowEdge → List WorkflowEdge → Bool
apart seen es = all (λ e. not (any (λ d. same_connection d e) seen)) es

apart-cons :
    (e : WorkflowEdge) (seen es : List WorkflowEdge)
    → apart (e ∷ seen) es ≡ (not (any (same_connection e) es) && apart seen es)
apart-cons e seen [] = refl
apart-cons e seen (d ∷ es) = ground (arith, apart-cons e seen es)

edge_issues_none :
    (ids : List ℕ) (seen es : List WorkflowEdge)
    → no_items (edge_issues ids seen es)
      ≡ (all (joins ids) es && (apart seen es && distinct_connections es))
unfolding edge_issues
edge_issues_none ids seen [] = refl
edge_issues_none ids seen (e ∷ es) =
    ground (arith, edge_issues_none ids (e ∷ seen) es, apart-cons e seen es)

apart_none : (es : List WorkflowEdge) → apart [] es ≡ true
apart_none [] = refl
apart_none (e ∷ es) = apart_none es

count-mem : (x : ℕ) (xs : List ℕ) → ltb 0 (count x xs) ≡ mem x xs
count-mem x [] = refl
count-mem x (y ∷ xs) = ground (arith, count-mem x xs)

mem-filter_other :
    (x y : ℕ) (xs : List ℕ) → mem y (filter (λ z. not (z == x)) xs) ≡ (mem y xs && not (y == x))
mem-filter_other x y [] = refl
mem-filter_other x y (z ∷ xs) = ground (arith, mem-filter_other x y xs)

mem-counter_keys : (y : ℕ) (xs : List ℕ) → mem y (counter_keys xs) ≡ mem y xs
unfolding counter_keys
mem-counter_keys y [] = refl
mem-counter_keys y (x ∷ xs) =
    ground (arith, mem-counter_keys y xs, mem-filter_other x y (counter_keys xs))

filter_none :
    (p : ℕ → Bool) (xs : List ℕ)
    → ((x : ℕ) → mem x xs ≡ true → p x ≡ false)
    → no_items (filter p xs) ≡ true
filter_none p [] h = refl
filter_none p (x ∷ xs) h = rw (h x (ground arith)) (filter_none p xs (λ y m. h y (ground arith)))

none_filter :
    (p : ℕ → Bool) (xs : List ℕ) (x : ℕ)
    → no_items (filter p xs) ≡ true
    → mem x xs ≡ true
    → p x ≡ false
none_filter p [] x h m = cc
none_filter p (y ∷ xs) x h m = elim (Bool-cases (p y)) [
  | inl e ↦ absurd (cc (rw e at h))
  | inr e ↦ elim (Bool-cases (y == x)) [
    | inl s ↦ let at : y ≡ x = ground arith in subst (λ i. p i ≡ false) at e
    | inr s ↦ none_filter p xs x (rw e at h) (ground arith)
  ]
]

distinct_once : (xs : List ℕ) → distinct xs ≡ true → (x : ℕ) → ltb 1 (count x xs) ≡ false
distinct_once [] d x = ground arith
distinct_once (y ∷ xs) d x = elim (Bool-cases (y == x)) [
  | inr o ↦ rw o (distinct_once xs (ground arith) x)
  | inl s ↦
      let at : y ≡ x = ground arith in
      let out : mem x xs ≡ false = subst (λ i. mem i xs ≡ false) at (ground arith) in
      ground (arith, count-mem x xs)
]

once_distinct :
    (xs : List ℕ) → ((x : ℕ) → mem x xs ≡ true → ltb 1 (count x xs) ≡ false) → distinct xs ≡ true
once_distinct [] h = refl
once_distinct (y ∷ xs) h =
    let rest = once_distinct xs (λ x m. ground (arith, h x)) in ground (arith, h y, count-mem y xs)

pub duplicated_none : (xs : List ℕ) → (no_items (duplicated xs) ≡ true) ↔ (distinct xs ≡ true)
unfolding duplicated
duplicated_none xs = (
  λ h. once_distinct xs (λ x m.
      none_filter (λ x. ltb 1 (count x xs)) (counter_keys xs) x h (mem-counter_keys x xs ∙ m)),
  λ d. filter_none (λ x. ltb 1 (count x xs)) (counter_keys xs) (λ x m. distinct_once xs d x),
)

parts_none :
    (g : WorkflowGraph)
    → no_items (validate_identity g) ≡ (
        no_items (duplicated (map (λ n. n.id) g.nodes))
        && (no_items (duplicated (map (λ e. e.id) g.edges))
            && no_items (edge_issues (map (λ n. n.id) g.nodes) [] g.edges)))
unfolding validate_identity
parts_none g = simp (no_items-append, no_items-map)

-- `validate_identity` finds nothing exactly in the graphs whose nodes and edges have distinct
-- identifiers, and whose edges join two different nodes, no two of them the same ones by the same handle.
pub validate_identity_none :
    (g : WorkflowGraph)
    → (no_items (validate_identity g) ≡ true) ↔ (
        (distinct (map (λ n. n.id) g.nodes) ≡ true)
        × (distinct (map (λ e. e.id) g.edges) ≡ true)
        × (all (joins (map (λ n. n.id) g.nodes)) g.edges ≡ true)
        × (distinct_connections g.edges ≡ true))
validate_identity_none g =
    let ids = map (λ n. n.id) g.nodes in
    let edge_ids = map (λ e. e.id) g.edges in
    let parts = parts_none g in
    let edges = edge_issues_none ids [] g.edges in
    let free = apart_none g.edges in
    (
      λ h. (
        (duplicated_none ids).0 (ground arith),
        (duplicated_none edge_ids).0 (ground arith),
        ground arith,
        ground arith,
      ),
      λ (a, b, c, d).
          let a' = (duplicated_none ids).1 a in
          let b' = (duplicated_none edge_ids).1 b in ground arith,
    )
