-- ===== src/Runs/Create/Start.antt =====
-- Where a new run starts.
use relayvia.Prelude.{
  ℕ, Bool, true, false, not, ◌&&◌, Option, none, some, List, [], ◌∷◌, ◌==◌, ◌≡◌, refl, ap, ◌∙◌, all,
  map, filter, if◌then◌else◌, arith, inl, inr, Bool-cases,
}
use relayvia.Table.{Table}
use relayvia.Json.{Json}
use relayvia.Graph.{WorkflowNode, WorkflowEdge, WorkflowGraph, is_data_input}
use relayvia.Graph.Index.{node, find_node, incoming_edges}
use relayvia.State.NodeRun.{NodeRunStatus}
use relayvia.Db.{NodeRun}
use relayvia.Scheduler.Ready.{
  run_of, is_condition_node, has_status, node_in, non_empty, edge_is_active, is_ready,
  find_ready_nodes,
}
use relayvia.Runs.Create.{new_node_run, node_runs_of, create_node_runs}

abbrev pub is_input_node : Option WorkflowNode → Bool
is_input_node none = false
is_input_node (some n) = is_data_input n.kind

abbrev pub is_other_node : Option WorkflowNode → Bool
is_other_node none = false
is_other_node (some n) = not (is_data_input n.kind)

-- A node that is no data input itself, has an incoming edge, and has incoming edges from data inputs
-- only.
abbrev pub follows_inputs : WorkflowGraph → WorkflowNode → Bool
follows_inputs g n =
    is_other_node (node g n.id)
    && (non_empty (incoming_edges g n.id)
        && all (λ e. is_input_node (node g e.source)) (incoming_edges g n.id))

module _ (A : Type 0) (p q : A → Bool) (same : (x : A) → p x ≡ q x) where
  filter_cong : (xs : List A) → filter p xs ≡ filter q xs
  filter_cong [] = refl
  filter_cong (x ∷ xs) = rw (same x, filter_cong xs) refl

  all_cong : (xs : List A) → all p xs ≡ all q xs
  all_cong [] = refl
  all_cong (x ∷ xs) = rw (same x, all_cong xs) refl

filter_kept :
    (A : Type 0) (p : A → Bool) → ((x : A) → p x ≡ true) → (xs : List A) → filter p xs ≡ xs
filter_kept A p h [] = refl
filter_kept A p h (x ∷ xs) = rw (h x, filter_kept A p h xs) refl

module _ (key : ℕ → ℕ) (run_id : ℕ) (input : Json) where
  abbrev made : Option WorkflowNode → Option NodeRun
  made none = none
  made (some n) = some (new_node_run run_id n input)

  run_of-node_runs_of :
      (id : ℕ) (nodes : List WorkflowNode)
      → run_of id (node_runs_of key run_id nodes input) ≡ made (find_node id nodes)
  unfolding node_runs_of
  run_of-node_runs_of id [] = refl
  run_of-node_runs_of id (n ∷ nodes) = elim (Bool-cases (n.id == id)) [
    | inl e ↦ rw e refl
    | inr e ↦ rw e (run_of-node_runs_of id nodes)
  ]

  made_pending :
      (o : Option WorkflowNode) → has_status NodeRunStatus.pending (made o) ≡ is_other_node o
  made_pending none = refl
  made_pending (some n) = ground arith

  made_completed :
      (o : Option WorkflowNode) → has_status NodeRunStatus.completed (made o) ≡ is_input_node o
  made_completed none = refl
  made_completed (some n) = ground arith

  made_skipped : (o : Option WorkflowNode) → has_status NodeRunStatus.skipped (made o) ≡ false
  made_skipped none = refl
  made_skipped (some n) = ground arith

  condition_unfinished :
      (o : Option WorkflowNode)
      → is_condition_node o ≡ true
      → has_status NodeRunStatus.completed (made o) ≡ false
  condition_unfinished none h = refl
  condition_unfinished (some n) h = ground arith

  module _ (g : WorkflowGraph) where
    abbrev rows : Table NodeRun
    rows = node_runs_of key run_id g.nodes input

    new_run : (id : ℕ) → run_of id rows ≡ made (node g id)
    new_run id = run_of-node_runs_of id g.nodes

    new_edge_is_active : (e : WorkflowEdge) → edge_is_active g rows e ≡ true
    unfolding edge_is_active
    new_edge_is_active e = elim (Bool-cases (is_condition_node (node g e.source))) [
      | inl c ↦
          let u = condition_unfinished (node g e.source) c in
          rw (new_run e.source, made_skipped (node g e.source), c, u) refl
      | inr c ↦ rw (new_run e.source, made_skipped (node g e.source), c) refl
    ]

    is_ready-new : (n : WorkflowNode) → is_ready g rows n ≡ follows_inputs g n
    unfolding is_ready
    is_ready-new n =
        rw
          (
            filter_kept WorkflowEdge (edge_is_active g rows) new_edge_is_active
                (incoming_edges g n.id),
            new_run n.id,
            made_pending (node g n.id),
          )
          (ap (λ b. is_other_node (node g n.id) && (non_empty (incoming_edges g n.id) && b))
            (all_cong WorkflowEdge (λ e. node_in NodeRunStatus.completed e.source rows)
              (λ e. is_input_node (node g e.source))
              (λ e.
                ap (has_status NodeRunStatus.completed) (new_run e.source)
                ∙ made_completed (node g e.source))
              (incoming_edges g n.id)))

abbrev pub run_output : Option NodeRun → Option Json
run_output none = none
run_output (some r) = r.output

made_output :
    (run_id : ℕ) (key : ℕ → ℕ) (input : Json) (o : Option WorkflowNode)
    → run_output (made key run_id input o) ≡ (if is_input_node o then some input else none)
made_output run_id key input none = refl
made_output run_id key input (some n) = elim (Bool-cases (is_data_input n.kind)) [
  | inl e ↦ rw e refl
  | inr e ↦ rw e refl
]

-- A new run starts behind its data inputs: the nodes that are ready first are those, in the order of
-- the graph, that are no data inputs and have incoming edges, all of them from data inputs; and the
-- only outputs are those of the data inputs, each of which is the input of the run.
pub new_run_starts :
    (key : ℕ → ℕ) (run_id : ℕ) (g : WorkflowGraph) (input : Json)
    → (find_ready_nodes g (create_node_runs key run_id g input)
        ≡ map (λ n. n.id) (filter (follows_inputs g) g.nodes))
      × ((id : ℕ)
          → run_output (run_of id (create_node_runs key run_id g input))
            ≡ (if is_input_node (node g id) then some input else none))
unfolding find_ready_nodes create_node_runs
new_run_starts key run_id g input = (
  ap (map (λ n. n.id)) (
      filter_cong WorkflowNode (is_ready g (node_runs_of key run_id g.nodes input))
        (follows_inputs g) (is_ready-new key run_id input g) g.nodes),
  λ id. ap run_output (new_run key run_id input g id) ∙ made_output run_id key input (node g id),
)
