-- ===== src/Validation/Topology/Pairing.antt =====
-- The search of the pairing check finds the nodes at the ends of paths without a merge before their end.
use relayvia.Prelude.{
  ℕ, suc, ◌+◌, true, false, ◌≡◌, ◌↔◌, refl, sym, ◌∙◌, length, mem, arith, inl, inr, Bool-cases,
}
use relayvia.Graph.{WorkflowGraph}
use relayvia.Graph.Index.{node, outgoing_edges}
use relayvia.Graph.Reach.Ends.{unseen_by, unseen_split, unseen_at_first}
use relayvia.Graph.Reach.Exact.{leads}
use relayvia.Graph.Search.{targets}
use relayvia.Graph.Search.Exact.{Finds, begin, step, Pays, search_from-Finds}
use relayvia.Graph.Search.Paths.{length-map, mem-targets}
use relayvia.Validation.Topology.{is_merge_node, merge_free_steps, merge_free}

-- A path of one edge or more, whose nodes between the ends are no merge nodes.
pub data MergeFree (g : WorkflowGraph) (id : ℕ) : ℕ → Type 0 where
  one : (x : ℕ) → leads g id x ≡ true → MergeFree g id x
  on :
      (x y : ℕ)
      → MergeFree g id x
      → is_merge_node (node g x) ≡ false
      → leads g x y ≡ true
      → MergeFree g id y

module _ (g : WorkflowGraph) (id : ℕ) where
  merge_free_Pays : Pays (merge_free_steps g) (λ seen. unseen_by (λ e. e.source) seen g.edges)
  merge_free_Pays c seen h = elim (Bool-cases (is_merge_node (node g c))) [
    | inl m ↦ rw m (omega (arith, unseen_split (λ e. e.source) c seen g.edges h))
    | inr m ↦ rw m (
        omega (
          arith,
          unseen_split (λ e. e.source) c seen g.edges h,
          length-map (λ e. e.target) (outgoing_edges g c),
        ))
  ]

  found_free : (x : ℕ) → Finds (merge_free_steps g) (targets g id) x → MergeFree g id x
  found_free _ (begin x m p) = one x (sym (mem-targets id x g.edges) ∙ m)
  found_free _ (step x y f m p) = elim (Bool-cases (is_merge_node (node g x))) [
    | inl k ↦ absurd (cc (rw k at m))
    | inr k ↦ on x y (found_free x f) k (sym (mem-targets x y g.edges) ∙ rw k at m)
  ]

  free_found : (x : ℕ) → MergeFree g id x → Finds (merge_free_steps g) (targets g id) x
  free_found _ (one x l) = begin x (mem-targets id x g.edges ∙ l) refl
  free_found _ (on x y f k l) = step x y (free_found x f) (rw k (mem-targets x y g.edges ∙ l)) refl

  pub merge_free-MergeFree : (x : ℕ) → (mem x (merge_free g id) ≡ true) ↔ MergeFree g id x
  unfolding merge_free
  merge_free-MergeFree x =
      let found =
        search_from-Finds (merge_free_steps g) (targets g id)
          (λ seen. unseen_by (λ e. e.source) seen g.edges) merge_free_Pays
          (suc (length (targets g id) + length g.edges))
          (omega (arith, unseen_at_first (λ e. e.source) g.edges)) x in
      (λ m. found_free x (found.0 m), λ f. found.1 (free_found x f))
