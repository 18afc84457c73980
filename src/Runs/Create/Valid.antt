-- ===== src/Runs/Create/Valid.antt =====
-- The runs of a graph that passed the identity and topology rules never stall.
use relayvia.Prelude.{
  ℕ, true, false, ◌&&◌, ◌||◌, List, [], ◌∷◌, ◌==◌, ◌≡◌, refl, sym, ap, ◌∙◌, subst, any, all, map,
  mem, filter, distinct, no_items, ltb, arith, inl, inr, Bool-cases,
}
use relayvia.Table.{Table}
use relayvia.Json.{Json}
use relayvia.Graph.{WorkflowNode, WorkflowEdge, WorkflowGraph, is_data_input}
use relayvia.Graph.Index.{incoming_edges}
use relayvia.Graph.Reach.Exact.{Reaches, start, along}
use relayvia.Graph.Cycle.Exact.{closed, is_node}
use relayvia.State.NodeRun.{NodeRunStatus}
use relayvia.State.NodeRun
use relayvia.State.WorkflowRun.{WorkflowRunStatus}
use relayvia.Db.{NodeRun}
use relayvia.Scheduler.Ready.{node_in, non_empty, find_ready_nodes}
use relayvia.Scheduler.Skip.{mark_unreachable_condition_nodes}
use relayvia.Scheduler.Derive.{statuses, in_flight, derive_workflow_state}
use relayvia.Scheduler.Progress.{node_ids, goes_up, IsPlaced}
use relayvia.Scheduler.Progress.Running.{running_moves}
use relayvia.Validation.Identity.{validate_identity}
use relayvia.Validation.Identity.Exact.{validate_identity_none, joins}
use relayvia.Validation.Topology.{validate_topology, entry_node_ids}
use relayvia.Validation.Topology.WellFormed.{All}
use relayvia.Validation.Topology.Exact.{validate_topology_none}
use relayvia.Runs.Create.{node_runs_of, create_node_runs}

mem_ids :
    (x : ℕ) (nodes : List WorkflowNode) → mem x (map (λ n. n.id) nodes) ≡ any (λ n. n.id == x) nodes
mem_ids x [] = refl
mem_ids x (n ∷ nodes) = ground (arith, mem_ids x nodes)

joins_nodes :
    (g : WorkflowGraph) (es : List WorkflowEdge)
    → all (joins (map (λ n. n.id) g.nodes)) es ≡ true
    → all (λ e. is_node g e.source && is_node g e.target) es ≡ true
joins_nodes g [] h = refl
joins_nodes g (e ∷ es) h =
    ground (arith, joins_nodes g es, mem_ids e.source g.nodes, mem_ids e.target g.nodes)

pub identity-closed : (g : WorkflowGraph) → no_items (validate_identity g) ≡ true → closed g ≡ true
identity-closed g h =
    let (d, _, j, _) = (validate_identity_none g).0 h in
    let k = joins_nodes g g.edges j in ground arith

pending_listed :
    (id : ℕ) (rows : Table NodeRun)
    → node_in NodeRunStatus.pending id rows ≡ true
    → mem id (node_ids rows) ≡ true
pending_listed id [] h = absurd (ground arith)
pending_listed id ((k, r) ∷ rows) h = elim (Bool-cases (r.node_id == id)) [
  | inl e ↦ ground arith
  | inr e ↦ let rest = pending_listed id rows (rw e at h) in ground arith
]

entered :
    (s t : ℕ) (es : List WorkflowEdge)
    → any (λ e. e.source == s && e.target == t) es ≡ true
    → non_empty (filter (λ e. e.target == t) es) ≡ true
entered s t [] h = absurd (cc h)
entered s t (e ∷ es) h = ground (arith, entered s t es)

-- a node that a path from the entry reaches is the entry, or has an incoming edge
reached_entered :
    (g : WorkflowGraph) (entry id : ℕ)
    → Reaches g (entry ∷ []) id
    → (id == entry) ≡ false
    → non_empty (incoming_edges g id) ≡ true
reached_entered g entry _ (start id m) h = absurd (ground arith)
reached_entered g entry _ (along s t r l) h = entered s t g.edges l

All_found :
    (P : ℕ → Type 0) (nodes : List WorkflowNode) (id : ℕ)
    → All (λ n. P n.id) nodes
    → mem id (map (λ n. n.id) nodes) ≡ true
    → P id
All_found P [] id a m = absurd (cc m)
All_found P (n ∷ nodes) id (p, rest) m = elim (Bool-cases (n.id == id)) [
  | inl e ↦ subst P (ground arith) p
  | inr e ↦ All_found P nodes id rest (ground arith)
]

all_up :
    (g : WorkflowGraph) (rank : ℕ → ℕ) (es : List WorkflowEdge)
    → all (λ e. ltb (rank e.source) (rank e.target)) es ≡ true
    → all (joins (map (λ n. n.id) g.nodes)) es ≡ true
    → all (goes_up rank (map (λ n. n.id) g.nodes)) es ≡ true
all_up g rank [] u j = refl
all_up g rank (e ∷ es) u j = ground (arith, all_up g rank es)

-- The rows belong to the nodes of the graph, and the entry's is not pending.
pub record IsRunOf (g : WorkflowGraph) (rows : Table NodeRun) : Type 0 where
  pub ids : node_ids rows ≡ map (λ n. n.id) g.nodes
  pub begun :
      (id : ℕ) → mem id (entry_node_ids g) ≡ true → node_in NodeRunStatus.pending id rows ≡ false

pub valid-IsPlaced :
    (g : WorkflowGraph) (rows : Table NodeRun)
    → no_items (validate_identity g) ≡ true
    → no_items (validate_topology g) ≡ true
    → IsRunOf g rows
    → (rank : ℕ → ℕ) × IsPlaced g rank rows
valid-IsPlaced g rows i t run =
    let (distinct_ids, _, j, _) = (validate_identity_none g).0 i in
    let (entry, w) = (validate_topology_none g (identity-closed g i)).0 t in
    let (rank, up) = w.acyclic in
    let same = run.ids in
    (
      rank,
      record {
        up = rw same (all_up g rank g.edges up j);
        single = rw same distinct_ids;
        rooted = λ id p.
            let listed_id : mem id (map (λ n. n.id) g.nodes) ≡ true =
              ap (mem id) (sym same) ∙ pending_listed id rows p in
            (
              reached_entered g entry id
                  (All_found (Reaches g (entry ∷ [])) g.nodes id w.reached listed_id)
                  (not_entry entry w.single_entry id p),
              sym (mem_ids id g.nodes) ∙ listed_id,
            );
      },
    )
  where
    not_entry :
        (entry : ℕ)
        → entry_node_ids g ≡ entry ∷ []
        → (id : ℕ) → node_in NodeRunStatus.pending id rows ≡ true
        → (id == entry) ≡ false
    not_entry entry e id p = elim (Bool-cases (id == entry)) [
      | inr o ↦ o
      | inl s ↦
          let m : mem id (entry_node_ids g) ≡ true = ap (mem id) e ∙ ground arith in
          absurd (cc (run.begun id m, p))
    ]

-- The rows of a graph's nodes in order, as `create_node_runs` makes them.
node_ids-node_runs_of :
    (key : ℕ → ℕ) (run_id : ℕ) (nodes : List WorkflowNode) (input : Json)
    → node_ids (node_runs_of key run_id nodes input) ≡ map (λ n. n.id) nodes
unfolding node_runs_of
node_ids-node_runs_of key run_id [] input = refl
node_ids-node_runs_of key run_id (n ∷ nodes) input =
    ap (λ ids. n.id ∷ ids) (node_ids-node_runs_of key run_id nodes input)

unlisted :
    (id : ℕ) (nodes : List WorkflowNode)
    → mem id (map (λ n. n.id) nodes) ≡ false
    → mem id (map (λ n. n.id) (filter (λ n. is_data_input n.kind) nodes)) ≡ false
unlisted id [] m = refl
unlisted id (n ∷ nodes) m = elim (Bool-cases (is_data_input n.kind)) [
  | inl e ↦ let rest = unlisted id nodes (ground arith) in ground arith
  | inr e ↦ let rest = unlisted id nodes (ground arith) in ground arith
]

begun_rows :
    (key : ℕ → ℕ) (run_id : ℕ) (input : Json) (id : ℕ) (nodes : List WorkflowNode)
    → distinct (map (λ n. n.id) nodes) ≡ true
    → mem id (map (λ n. n.id) (filter (λ n. is_data_input n.kind) nodes)) ≡ true
    → node_in NodeRunStatus.pending id (node_runs_of key run_id nodes input) ≡ false
unfolding node_runs_of
begun_rows key run_id input id [] d m = refl
begun_rows key run_id input id (n ∷ nodes) d m = elim (Bool-cases (is_data_input n.kind)) [
  | inl e ↦ elim (Bool-cases (n.id == id)) [
    | inl s ↦ ground arith
    | inr s ↦
        let rest = begun_rows key run_id input id nodes (ground arith) (ground arith) in
        ground arith
  ]
  | inr e ↦ elim (Bool-cases (n.id == id)) [
    | inl s ↦
        let at : n.id ≡ id = ground arith in
        let out : mem id (map (λ n. n.id) nodes) ≡ false =
          subst (λ i. mem i (map (λ n. n.id) nodes) ≡ false) at (ground arith) in
        let no = unlisted id nodes out in absurd (ground arith)
    | inr s ↦
        let rest = begun_rows key run_id input id nodes (ground arith) (ground arith) in
        ground arith
  ]
]

-- The rows that `create_node_runs` makes for a graph in which the identity rules find nothing are those
-- of its nodes, one for each in their order, and the row of an entry is not pending.
pub create_node_runs-IsRunOf :
    (key : ℕ → ℕ) (run_id : ℕ) (g : WorkflowGraph) (input : Json)
    → no_items (validate_identity g) ≡ true
    → IsRunOf g (create_node_runs key run_id g input)
unfolding create_node_runs
create_node_runs-IsRunOf key run_id g input h = record {
  ids = node_ids-node_runs_of key run_id g.nodes input;
  begun = λ id m. begun_rows key run_id input id g.nodes ((validate_identity_none g).0 h).0 m;
}

-- A run of a graph in which the identity and topology rules find nothing never stalls: with one row for
-- each node, in the order of the nodes, and no pending row for the entry, after
-- `mark_unreachable_condition_nodes` a run whose derived status is running has a ready node, or a node
-- run that is queued, running or retrying, or one that is cancelled.
pub valid_run_moves :
    (g : WorkflowGraph) (now : ℕ) (rows : Table NodeRun)
    → no_items (validate_identity g) ≡ true
    → no_items (validate_topology g) ≡ true
    → IsRunOf g rows
    → let after = (mark_unreachable_condition_nodes g now rows).0 in
      derive_workflow_state g after ≡ WorkflowRunStatus.running
      → (non_empty (find_ready_nodes g after)
          || (any in_flight (statuses after)
              || any (λ s. NodeRun.is s NodeRunStatus.cancelled) (statuses after)))
        ≡ true
valid_run_moves g now rows i t run d =
    let (rank, placed) = valid-IsPlaced g rows i t run in
    let (entry, w) = (validate_topology_none g (identity-closed g i)).0 t in
    running_moves g rank now rows placed
      (some_rows rows g.nodes run.ids (some_node g.nodes entry w.single_entry)) d
  where
    some_node :
        (nodes : List WorkflowNode) (entry : ℕ)
        → map (λ n. n.id) (filter (λ n. is_data_input n.kind) nodes) ≡ entry ∷ []
        → non_empty nodes ≡ true
    some_node [] entry e = absurd (cc e)
    some_node (n ∷ nodes) entry e = refl

    some_rows :
        (rows : Table NodeRun) (nodes : List WorkflowNode)
        → node_ids rows ≡ map (λ n. n.id) nodes
        → non_empty nodes ≡ true
        → non_empty rows ≡ true
    some_rows [] (n ∷ nodes) e h = absurd (cc e)
    some_rows [] [] e h = absurd (cc h)
    some_rows ((k, r) ∷ rows) nodes e h = refl
