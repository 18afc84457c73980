-- ===== src/Runs/Human/Approval.antt =====
-- When an approval is accepted.
use relayvia.Prelude.{
  ℕ, Bool, true, false, ◌&&◌, Option, none, some, is_some, ◌≡◌, refl, sym, ap, ◌∙◌, ◌⊎◌, ◌↔◌, inl,
  inr, arith, List, [], ◌∷◌, Bool-cases, Option-cases, Memᴰ, ◌==◌,
}
use relayvia.Errors.{Result, ok, is_ok, Result-cases}
use relayvia.Table.{get}
use relayvia.Graph.{NodeKind, WorkflowNode}
use relayvia.State.WorkflowRun.{WorkflowRunStatus}
use relayvia.State.NodeRun.{NodeRunStatus, transition_node_run}
use relayvia.Db.{WorkflowRun, NodeRun, WaitingReason, RunEventType, Db}
use relayvia.Queue.Effects.{move_node}
use relayvia.Runs.Human.{
  first_node, is_approval, actionable, require_waiting, waiting_node, approved, on_run, decide,
}
use relayvia.Runs.Human.Changes.{is_waiting}

-- The node run under the key is an approval node's and waits for the approval, its run is running or
-- waiting, and the run's graph has the node.
pub record AwaitsApproval (key : ℕ) (db : Db) : Type 0 where
  pub node_run : NodeRun
  pub node_run_row : get key db.node_runs ≡ some node_run
  pub waits : node_run.status ≡ NodeRunStatus.waiting
  pub for_approval : node_run.waiting_reason ≡ some WaitingReason.human_approval
  pub of_approval_node : node_run.kind ≡ NodeKind.human_approval
  pub run : WorkflowRun
  pub run_row : get node_run.workflow_run_id db.runs ≡ some run
  pub run_live : (run.status ≡ WorkflowRunStatus.running) ⊎ (run.status ≡ WorkflowRunStatus.waiting)
  pub graph_node : WorkflowNode
  pub in_graph : Memᴰ graph_node run.graph_snapshot.nodes
  pub same_node : graph_node.id ≡ node_run.node_id

abbrev run_acts : Option WorkflowRun → NodeRun → Bool
run_acts none n = false
run_acts (some run) n =
    actionable run && (is_approval n && is_some (first_node n.node_id run.graph_snapshot.nodes))

-- The tests of the code in one.
abbrev awaits_approval : Option NodeRun → Db → Bool
awaits_approval none db = false
awaits_approval (some n) db = is_waiting n && run_acts (get n.workflow_run_id db.runs) n

is_ok_on :
    (change : WorkflowRun → NodeRun → Result NodeRun) (event : RunEventType) (key : ℕ) (n : NodeRun)
    (run : WorkflowRun) (db : Db)
    → is_ok (on_run key change event n (some run) db) ≡ is_ok (change run n)
is_ok_on change event key n run db = elim (Result-cases (change run n)) [
  | inl (n', e) ↦ rw e refl
  | inr (x, e) ↦ rw e refl
]

waiting_completes :
    (n : NodeRun)
    → is_waiting n ≡ true
    → move_node NodeRunStatus.completed n ≡ ok (record n { status = NodeRunStatus.completed })
unfolding move_node transition_node_run
waiting_completes n w = ground arith

approved_iff :
    (now : ℕ) (run : WorkflowRun) (n : NodeRun)
    → is_ok (approved now run n) ≡ (is_waiting n && run_acts (some run) n)
unfolding approved require_waiting waiting_node
approved_iff now run n = elim (Bool-cases (is_waiting n)) [
  | inr w ↦ rw w refl
  | inl w ↦ elim (Bool-cases (actionable run)) [
    | inr a ↦ rw (w, a) refl
    | inl a ↦ elim (Bool-cases (is_approval n)) [
      | inr k ↦ rw (w, a, k) refl
      | inl k ↦ elim (Option-cases (first_node n.node_id run.graph_snapshot.nodes)) [
        | inl f ↦ rw (w, a, k, f) refl
        | inr (node, f) ↦ rw (w, a, k, f, waiting_completes n w) refl
      ]
    ]
  ]
]

approve_awaits :
    (now key : ℕ) (event : RunEventType) (db : Db)
    → is_ok (decide key (approved now) event db) ≡ awaits_approval (get key db.node_runs) db
unfolding decide
approve_awaits now key event db = elim (Option-cases (get key db.node_runs)) [
  | inl e ↦ rw e refl
  | inr (n, e) ↦ elim (Option-cases (get n.workflow_run_id db.runs)) [
    | inl o ↦ rw (e, o) (ground arith)
    | inr (run, o) ↦ rw (e, o) (is_ok_on (approved now) event key n run db ∙ approved_iff now run n)
  ]
]

first_node-Memᴰ :
    (id : ℕ) (nodes : List WorkflowNode) (n : WorkflowNode)
    → first_node id nodes ≡ some n
    → Memᴰ n nodes × (n.id ≡ id)
first_node-Memᴰ id [] n h = absurd (cc h)
first_node-Memᴰ id (x ∷ nodes) n h = elim (Bool-cases (x.id == id)) [
  | inl e ↦ let same : x ≡ n = ground arith in (Memᴰ.head (sym same), ground arith)
  | inr e ↦ let (m, same) = first_node-Memᴰ id nodes n (rw e at h) in (Memᴰ.tail m, same)
]

Memᴰ-first_node :
    (id : ℕ) (nodes : List WorkflowNode) (n : WorkflowNode)
    → Memᴰ n nodes
    → n.id ≡ id
    → is_some (first_node id nodes) ≡ true
Memᴰ-first_node id [] n m h = elim m [ ]
Memᴰ-first_node id (x ∷ nodes) n (Memᴰ.head e) h =
    let same : x.id ≡ id = ap (λ (y : WorkflowNode). y.id) (sym e) ∙ h in ground arith
Memᴰ-first_node id (x ∷ nodes) n (Memᴰ.tail m) h =
    let rest = Memᴰ-first_node id nodes n m h in ground arith

acts-AwaitsApproval :
    (key : ℕ) (db : Db) → awaits_approval (get key db.node_runs) db ≡ true → AwaitsApproval key db
acts-AwaitsApproval key db h = elim (Option-cases (get key db.node_runs)) [
  | inl e ↦ absurd (cc (rw e at h))
  | inr (n, e) ↦ elim (Option-cases (get n.workflow_run_id db.runs)) [
    | inl o ↦ let g = rw (e, o) at h in absurd (ground arith)
    | inr (run, o) ↦
        let g = rw (e, o) at h in
        elim (Option-cases (first_node n.node_id run.graph_snapshot.nodes)) [
          | inl f ↦ absurd (ground arith)
          | inr (node, f) ↦
              let (m, same) = first_node-Memᴰ n.node_id run.graph_snapshot.nodes node f in
              record {
                node_run = n;
                node_run_row = e;
                waits = ground arith;
                for_approval = ground arith;
                of_approval_node = ground arith;
                run = run;
                run_row = o;
                run_live = ground arith;
                graph_node = node;
                in_graph = m;
                same_node = same;
              }
        ]
  ]
]

AwaitsApproval-acts :
    (key : ℕ) (db : Db) → AwaitsApproval key db → awaits_approval (get key db.node_runs) db ≡ true
AwaitsApproval-acts key db a =
    let found =
      Memᴰ-first_node a.node_run.node_id a.run.graph_snapshot.nodes a.graph_node a.in_graph
        a.same_node in
    rw (a.node_run_row, a.run_row)
      (ground (arith, a.waits, a.for_approval, a.of_approval_node, a.run_live))

-- An approval is accepted exactly for the node run of an approval node that waits for the approval, in a
-- run that is running or waiting and whose graph has the node.
pub approve_iff_awaited :
    (now key : ℕ) (event : RunEventType) (db : Db)
    → (is_ok (decide key (approved now) event db) ≡ true) ↔ AwaitsApproval key db
approve_iff_awaited now key event db =
    let same = approve_awaits now key event db in
    (λ h. acts-AwaitsApproval key db (sym same ∙ h), λ a. same ∙ AwaitsApproval-acts key db a)
