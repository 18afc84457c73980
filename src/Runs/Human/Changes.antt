-- ===== src/Runs/Human/Changes.antt =====
-- The changes that the three requests make to a node run.
use relayvia.Prelude.{ℕ, Bool, true, false, ◌||◌, ◌≡◌, refl, sym, ap, ◌∙◌}
use relayvia.Errors.{ErrorCode, Result, ok, err, and_then-ok, ok-injective, require-ok, require}
use relayvia.Json.{Json, get_field}
use relayvia.State.NodeRun.{NodeRunStatus, transition_node_run}
use relayvia.State.NodeRun
use relayvia.Db.{WorkflowRun, NodeRun}
use relayvia.Queue.Effects.{move_node}
use relayvia.Runs.Human.{
  is_approval, is_input, require_waiting, waiting_node, approved, allows_reject, rejected, checked,
  submitted,
}

abbrev pub is_waiting : NodeRun → Bool
is_waiting n = NodeRun.is n.status NodeRunStatus.waiting

abbrev pub is_decided : NodeRun → Bool
is_decided n =
    NodeRun.is n.status NodeRunStatus.completed || NodeRun.is n.status NodeRunStatus.failed

-- The changes of the three requests: they refuse what is not waiting, and decide what they accept.
pub record IsDecision (change : WorkflowRun → NodeRun → Result NodeRun) : Type 0 where
  pub waits :
      (run : WorkflowRun) (n : NodeRun)
      → is_waiting n ≡ false
      → change run n ≡ err ErrorCode.node_run_not_waiting
  pub decides :
      (run : WorkflowRun) (n n' : NodeRun)
      → change run n ≡ ok n'
      → (is_waiting n ≡ true) × (is_decided n' ≡ true) × (n'.workflow_run_id ≡ n.workflow_run_id)

moved : (t : NodeRunStatus) (n n' : NodeRun) → move_node t n ≡ ok n' → n' ≡ record n { status = t }
unfolding move_node
moved t n n' h =
    let (u, e, g) = and_then-ok (transition_node_run n.status t) _ n' h in
    sym (ok-injective (record n { status = t }) n' g)

-- a waiting node run moves, and the rest of the change keeps its status and its run
decision :
    (t : NodeRunStatus) (u : Unit {0}) (n m n' : NodeRun)
    → (NodeRun.is t NodeRunStatus.completed || NodeRun.is t NodeRunStatus.failed) ≡ true
    → require_waiting n ≡ ok u
    → move_node t n ≡ ok m
    → m.status ≡ n'.status
    → m.workflow_run_id ≡ n'.workflow_run_id
    → (is_waiting n ≡ true) × (is_decided n' ≡ true) × (n'.workflow_run_id ≡ n.workflow_run_id)
unfolding require_waiting
decision t u n m n' d w e s r =
    let row = moved t n m e in
    (
      require-ok (is_waiting n) ErrorCode.node_run_not_waiting u w,
      ap (λ s. NodeRun.is s NodeRunStatus.completed || NodeRun.is s NodeRunStatus.failed)
            (sym s ∙ ap (λ (x : NodeRun). x.status) row)
          ∙ d,
      sym r ∙ ap (λ (x : NodeRun). x.workflow_run_id) row,
    )

pub approved-IsDecision : (now : ℕ) → IsDecision (approved now)
unfolding approved require_waiting
approved-IsDecision now = record {
  waits = λ run n h. rw h refl;
  decides = λ run n n' h.
      let (u, w, h1) = and_then-ok (require_waiting n) _ n' h in
      let (node, p, h2) = and_then-ok (waiting_node is_approval run n) _ n' h1 in
      let (m, e, h3) = and_then-ok (move_node NodeRunStatus.completed n) _ n' h2 in
      let same = ok-injective _ n' h3 in
      decision NodeRunStatus.completed u n m n' refl w e (ap (λ (x : NodeRun). x.status) same)
        (ap (λ (x : NodeRun). x.workflow_run_id) same);
}

pub rejected-IsDecision : (now : ℕ) → IsDecision (rejected now)
unfolding rejected require_waiting
rejected-IsDecision now = record {
  waits = λ run n h. rw h refl;
  decides = λ run n n' h.
      let (u, w, h1) = and_then-ok (require_waiting n) _ n' h in
      let (node, p, h2) = and_then-ok (waiting_node is_approval run n) _ n' h1 in
      let (v, a, h3) =
        and_then-ok
          (require (allows_reject (get_field "allow_reject" node.config))
            ErrorCode.human_rejection_disabled)
          _ n' h2 in
      let (m, e, h4) = and_then-ok (move_node NodeRunStatus.failed n) _ n' h3 in
      let same = ok-injective _ n' h4 in
      decision NodeRunStatus.failed u n m n' refl w e (ap (λ (x : NodeRun). x.status) same)
        (ap (λ (x : NodeRun). x.workflow_run_id) same);
}

pub submitted-IsDecision :
    (schema_valid : Json → Bool) (conforms : Json → Json → Bool) (input : Json) (now : ℕ)
    → IsDecision (submitted schema_valid conforms input now)
unfolding submitted require_waiting
submitted-IsDecision schema_valid conforms input now = record {
  waits = λ run n h. rw h refl;
  decides = λ run n n' h.
      let (u, w, h1) = and_then-ok (require_waiting n) _ n' h in
      let (node, p, h2) = and_then-ok (waiting_node is_input run n) _ n' h1 in
      let (v, a, h3) =
        and_then-ok (checked schema_valid conforms (get_field "form_schema" node.config) input) _ n'
          h2 in
      let (m, e, h4) = and_then-ok (move_node NodeRunStatus.completed n) _ n' h3 in
      let same = ok-injective _ n' h4 in
      decision NodeRunStatus.completed u n m n' refl w e (ap (λ (x : NodeRun). x.status) same)
        (ap (λ (x : NodeRun). x.workflow_run_id) same);
}
