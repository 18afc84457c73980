-- ===== src/Validation/Identity.antt =====
-- `validate_identity` of backend/app/runtime/validation/rules/identity.py.
pub mod Exact
use relayvia.Prelude.{
  ℕ, suc, String, Bool, true, false, not, ◌&&◌, Option, none, some, List, [], ◌∷◌, ◌++◌, ◌==◌, map,
  any, filter, length, mem, ltb,
}
use relayvia.Graph.{WorkflowEdge, WorkflowGraph}
use relayvia.Validation.Issue.{ValidationCode, ValidationIssue, issue, when}
use text.Mathlib.Text.{◌==◌ as str_eq}

-- The keys of a `Counter`, in the order of their first occurrence.
unfoldable pub counter_keys : List ℕ → List ℕ
counter_keys [] = []
counter_keys (x ∷ xs) = x ∷ filter (λ y. not (y == x)) (counter_keys xs)

abbrev pub count : ℕ → List ℕ → ℕ
count x xs = length (filter (λ y. y == x) xs)

-- `for id, count in Counter(ids).items(): if count > 1`
unfoldable pub duplicated : List ℕ → List ℕ
unfolding counter_keys
duplicated xs = filter (λ x. ltb 1 (count x xs)) (counter_keys xs)

abbrev same_handle : Option String → Option String → Bool
same_handle none none = true
same_handle (some a) (some b) = str_eq a b
same_handle _ _ = false

-- Two edges have the same `connection_key`.
unfoldable pub same_connection : WorkflowEdge → WorkflowEdge → Bool
same_connection a b =
    a.source == b.source && (a.target == b.target && same_handle a.source_handle b.source_handle)

-- `for edge in graph.edges`, after the edges `seen`
unfoldable pub edge_issues : List ℕ → List WorkflowEdge → List WorkflowEdge → List ValidationIssue
unfolding same_connection
edge_issues node_ids seen [] = []
edge_issues node_ids seen (e ∷ es) =
    when (not (mem e.source node_ids)) (issue ValidationCode.invalid_edge_source none (some e.id))
    ++ (when (not (mem e.target node_ids))
          (issue ValidationCode.invalid_edge_target none (some e.id))
        ++ (when (e.source == e.target)
              (issue ValidationCode.self_connection (some e.source) (some e.id))
            ++ (when (any (λ d. same_connection d e) seen)
                  (issue ValidationCode.duplicate_connection (some e.source) (some e.id))
                ++ edge_issues node_ids (e ∷ seen) es)))

unfoldable pub validate_identity : WorkflowGraph → List ValidationIssue
unfolding duplicated edge_issues
validate_identity g =
    let node_ids = map (λ n. n.id) g.nodes in
    map (λ id. issue ValidationCode.duplicate_node_id (some id) none) (duplicated node_ids)
    ++ (map (λ id. issue ValidationCode.duplicate_edge_id none (some id))
          (duplicated (map (λ e. e.id) g.edges))
        ++ edge_issues node_ids [] g.edges)
