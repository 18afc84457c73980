-- ===== src/Graph/Search/Paths.antt =====
-- `ancestors` and `descendants` are the other nodes at the ends of paths.
use relayvia.Prelude.{
  ℕ, suc, ◌+◌, true, false, ◌&&◌, List, [], ◌∷◌, ◌==◌, ◌≡◌, ◌↔◌, refl, sym, ap, ◌∙◌, subst, any,
  length, filter, map, arith, inl, inr, ◌⊎◌, Bool-cases,
}
use relayvia.Graph.{WorkflowEdge, WorkflowGraph}
use relayvia.Graph.Index.{incoming_edges, outgoing_edges}
use relayvia.Graph.Reach.{mem}
use relayvia.Graph.Reach.Ends.{unseen_by, unseen_split, unseen_at_first}
use relayvia.Graph.Reach.Exact.{leads}
use relayvia.Graph.Search.{Steps, sources, targets, ancestors, descendants}
use relayvia.Graph.Search.Exact.{Finds, begin, step, Pays, search_from-Finds}

-- One edge or more lead from the first node to the second.
pub data LeadsTo (g : WorkflowGraph) : ℕ → ℕ → Type 0 where
  one : (x y : ℕ) → leads g x y ≡ true → LeadsTo g x y
  more : (x y z : ℕ) → leads g x y ≡ true → LeadsTo g y z → LeadsTo g x z

pub length-map : {A : Type 0} (f : A → ℕ) (xs : List A) → length (map f xs) ≡ length xs
length-map f [] = refl
length-map f (x ∷ xs) = ap suc (length-map f xs)

pub mem-targets :
    (x y : ℕ) (es : List WorkflowEdge)
    → mem y (map (λ e. e.target) (filter (λ e. e.source == x) es))
      ≡ any (λ e. e.source == x && e.target == y) es
mem-targets x y [] = refl
mem-targets x y (e ∷ es) = ground (arith, mem-targets x y es)

pub mem-sources :
    (x y : ℕ) (es : List WorkflowEdge)
    → mem x (map (λ e. e.source) (filter (λ e. e.target == y) es))
      ≡ any (λ e. e.source == x && e.target == y) es
mem-sources x y [] = refl
mem-sources x y (e ∷ es) = ground (arith, mem-sources x y es)

module _ (g : WorkflowGraph) where
  abbrev up_from : ℕ → Steps
  up_from id = record { next = sources g; passed = λ x. x == id }

  abbrev down_from : ℕ → Steps
  down_from id = record { next = targets g; passed = λ x. x == id }

  up_Pays : (id : ℕ) → Pays (up_from id) (λ seen. unseen_by (λ e. e.target) seen g.edges)
  up_Pays id c seen h = omega (
    arith,
    unseen_split (λ e. e.target) c seen g.edges h,
    length-map (λ e. e.source) (incoming_edges g c),
  )

  down_Pays : (id : ℕ) → Pays (down_from id) (λ seen. unseen_by (λ e. e.source) seen g.edges)
  down_Pays id c seen h = omega (
    arith,
    unseen_split (λ e. e.source) c seen g.edges h,
    length-map (λ e. e.target) (outgoing_edges g c),
  )

  ancestors-Finds :
      (id x : ℕ) → (mem x (ancestors g id) ≡ true) ↔ Finds (up_from id) (sources g id) x
  unfolding ancestors
  ancestors-Finds id x =
      search_from-Finds (up_from id) (sources g id) (λ seen. unseen_by (λ e. e.target) seen g.edges)
        (up_Pays id) (suc (length (sources g id) + length g.edges))
        (omega (arith, unseen_at_first (λ e. e.target) g.edges)) x

  descendants-Finds :
      (id x : ℕ) → (mem x (descendants g id) ≡ true) ↔ Finds (down_from id) (targets g id) x
  unfolding descendants
  descendants-Finds id x =
      search_from-Finds (down_from id) (targets g id)
        (λ seen. unseen_by (λ e. e.source) seen g.edges) (down_Pays id)
        (suc (length (targets g id) + length g.edges))
        (omega (arith, unseen_at_first (λ e. e.source) g.edges)) x

  found_above :
      (id x : ℕ) → Finds (up_from id) (sources g id) x → LeadsTo g x id × ((x == id) ≡ false)
  found_above id _ (begin x m p) = (one x id (sym (mem-sources x id g.edges) ∙ m), p)
  found_above id _ (step y x f m p) =
      (more x y id (sym (mem-sources x y g.edges) ∙ m) (found_above id y f).0, p)

  above_found :
      (id x : ℕ) → LeadsTo g x id → (x == id) ≡ false → Finds (up_from id) (sources g id) x
  above_found id x (one _ _ l) p = begin x (mem-sources x id g.edges ∙ l) p
  above_found id x (more _ y _ l path) p = elim (Bool-cases (y == id)) [
    | inl e ↦
        let at : y ≡ id = ground arith in
        begin x (mem-sources x id g.edges ∙ subst (λ i. leads g x i ≡ true) at l) p
    | inr e ↦ step y x (above_found id y path e) (mem-sources x y g.edges ∙ l) p
  ]

  path_snoc : (x y z : ℕ) → LeadsTo g x y → leads g y z ≡ true → LeadsTo g x z
  path_snoc x _ z (one _ y l) k = more x y z l (one y z k)
  path_snoc x _ z (more _ w y l path) k = more x w z l (path_snoc w y z path k)

  found_below :
      (id x : ℕ) → Finds (down_from id) (targets g id) x → LeadsTo g id x × ((x == id) ≡ false)
  found_below id _ (begin x m p) = (one id x (sym (mem-targets id x g.edges) ∙ m), p)
  found_below id _ (step y x f m p) =
      (path_snoc id y x (found_below id y f).0 (sym (mem-targets y x g.edges) ∙ m), p)

  -- one edge down, from the node itself or from one that is found
  edge_below :
      (id y x : ℕ)
      → (y ≡ id) ⊎ Finds (down_from id) (targets g id) y
      → leads g y x ≡ true
      → (x == id) ≡ false
      → Finds (down_from id) (targets g id) x
  edge_below id y x (inl at) l p =
      begin x (mem-targets id x g.edges ∙ subst (λ i. leads g i x ≡ true) at l) p
  edge_below id y x (inr f) l p = step y x f (mem-targets y x g.edges ∙ l) p

  below_found :
      (id y x : ℕ)
      → (y ≡ id) ⊎ Finds (down_from id) (targets g id) y
      → LeadsTo g y x
      → (x == id) ≡ false
      → Finds (down_from id) (targets g id) x
  below_found id y x from (one _ _ l) p = edge_below id y x from l p
  below_found id y x from (more _ w _ l path) p = elim (Bool-cases (w == id)) [
    | inl e ↦ below_found id w x (inl (ground arith)) path p
    | inr e ↦ below_found id w x (inr (edge_below id y w from l e)) path p
  ]

  -- The ancestors of a node are exactly the other nodes from which a path leads to it, and its
  -- descendants exactly the other nodes to which a path leads from it.
  pub neighbours_exact :
      (id x : ℕ)
      → ((mem x (ancestors g id) ≡ true) ↔ (LeadsTo g x id × ((x == id) ≡ false)))
        × ((mem x (descendants g id) ≡ true) ↔ (LeadsTo g id x × ((x == id) ≡ false)))
  neighbours_exact id x = (
    (
      λ m. found_above id x ((ancestors-Finds id x).0 m),
      λ (path, p). (ancestors-Finds id x).1 (above_found id x path p),
    ),
    (
      λ m. found_below id x ((descendants-Finds id x).0 m),
      λ (path, p). (descendants-Finds id x).1 (below_found id id x (inl refl) path p),
    ),
  )
