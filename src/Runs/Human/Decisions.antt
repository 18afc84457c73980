-- ===== src/Runs/Human/Decisions.antt =====
-- A decision on a waiting node run is made once, and keeps the rows sound.
use relayvia.Prelude.{
  ℕ, Bool, true, false, some, ◌≡◌, refl, sym, ap, ◌∙◌, ◌⊎◌, inl, inr, arith, subst, Option-cases,
}
use relayvia.Errors.{ErrorCode, Result, ok, err, ok-injective, Result-cases}
use relayvia.Table.{get, get-put_self}
use relayvia.Json.{Json}
use relayvia.State.ExecutionTask.{ExecutionTaskStatus}
use relayvia.Db.{WorkflowRun, NodeRun, RunEventType, Db}
use relayvia.Db.Keeps.{Commits}
use relayvia.Queue.Sound.{IsSound, coupled}
use relayvia.Scheduler.Reconcile.Loops.{recoupled-IsSound}
use relayvia.Runs.Human.{approved, rejected, submitted, decide}
use relayvia.Runs.Human.Changes.{
  is_waiting, is_decided, IsDecision, approved-IsDecision, rejected-IsDecision,
  submitted-IsDecision,
}

-- A decision that is committed found the node run waiting, and its row is decided afterwards.
committed_decision :
    (change : WorkflowRun → NodeRun → Result NodeRun) (event : RunEventType) (key run_id : ℕ)
    (db after : Db)
    → IsDecision change
    → decide key change event db ≡ ok (run_id, after)
    → (n : NodeRun) × (n' : NodeRun) × (run : WorkflowRun) × (get key db.node_runs ≡ some n)
      × (is_waiting n ≡ true)
      × (is_decided n' ≡ true)
      × (get key after.node_runs ≡ some n')
      × (get n'.workflow_run_id after.runs ≡ some run)
unfolding decide
committed_decision change event key run_id db after d h =
    elim (Option-cases (get key db.node_runs)) [
      | inl e ↦ absurd (cc (rw e at h))
      | inr (n, e) ↦ elim (Option-cases (get n.workflow_run_id db.runs)) [
        | inl o ↦ absurd (cc (rw (e, o) at h))
        | inr (run, o) ↦ elim (Result-cases (change run n)) [
          | inr (x, r) ↦ absurd (cc (rw (e, o, r) at h))
          | inl (n', r) ↦
              let (w, done, same) = d.decides run n n' r in
              let state = ap (λ p. p.1) (ok-injective _ (run_id, after) (rw (e, o, r) at h)) in
              (
                n,
                n',
                run,
                e,
                w,
                done,
                ap (λ (x : Db). get key x.node_runs) (sym state) ∙ get-put_self key n' db.node_runs,
                ap (λ (x : Db). get n'.workflow_run_id x.runs) (sym state)
                    ∙ ap (λ i. get i db.runs) same
                    ∙ o,
              )
        ]
      ]
    ]

refused_after :
    (change : WorkflowRun → NodeRun → Result NodeRun) (event : RunEventType) (key : ℕ) (db : Db)
    (n : NodeRun) (run : WorkflowRun)
    → IsDecision change
    → get key db.node_runs ≡ some n
    → get n.workflow_run_id db.runs ≡ some run
    → is_waiting n ≡ false
    → decide key change event db ≡ err ErrorCode.node_run_not_waiting
unfolding decide
refused_after change event key db n run d e o w = rw (e, o, d.waits run n w) refl

decided_waits : (n : NodeRun) → is_decided n ≡ true → is_waiting n ≡ false
decided_waits n d = ground arith

-- A decision on a node run is made once: after an approval, a rejection or a submission was committed,
-- each of the three is refused, since the node run no longer waits. `made` is the first of them.
pub decided_once :
    (schema_valid : Json → Bool) (conforms : Json → Json → Bool) (input : Json) (now later : ℕ)
    (made : WorkflowRun → NodeRun → Result NodeRun)
    → (made ≡ approved now)
      ⊎ ((made ≡ rejected now) ⊎ (made ≡ submitted schema_valid conforms input now))
    → (event : RunEventType) (key run_id : ℕ) (db after : Db)
    → decide key made event db ≡ ok (run_id, after)
    → (other : RunEventType) (input' : Json)
    → (decide key (approved later) other after ≡ err ErrorCode.node_run_not_waiting)
      × (decide key (rejected later) other after ≡ err ErrorCode.node_run_not_waiting)
      × (decide key (submitted schema_valid conforms input' later) other after
          ≡ err ErrorCode.node_run_not_waiting)
decided_once schema_valid conforms input now later made which event key run_id db after h other
      input' =
    let d : IsDecision made = elim which [
      | inl e ↦ subst IsDecision (sym e) (approved-IsDecision now)
      | inr (inl e) ↦ subst IsDecision (sym e) (rejected-IsDecision now)
      | inr (inr e) ↦
          subst IsDecision (sym e) (submitted-IsDecision schema_valid conforms input now)
    ] in
    let (n, n', run, _, _, done, at, o) = committed_decision made event key run_id db after d h in
    let over = decided_waits n' done in
    (
      refused_after (approved later) other key after n' run (approved-IsDecision later) at o over,
      refused_after (rejected later) other key after n' run (rejected-IsDecision later) at o over,
      refused_after (submitted schema_valid conforms input' later) other key after n' run
          (submitted-IsDecision schema_valid conforms input' later) at o over,
    )

-- A waiting node run has a task that is completed, if it has one, and so has a decided one.
pub decide-IsSound :
    (change : WorkflowRun → NodeRun → Result NodeRun) (event : RunEventType) (key : ℕ) (db : Db)
    → IsDecision change
    → IsSound db
    → Commits IsSound (decide key change event db)
unfolding decide
decide-IsSound change event key db d sound = elim (Option-cases (get key db.node_runs)) [
  | inl e ↦ rw e tt
  | inr (n, e) ↦ elim (Option-cases (get n.workflow_run_id db.runs)) [
    | inl o ↦ rw (e, o) tt
    | inr (run, o) ↦ elim (Result-cases (change run n)) [
      | inr (x, r) ↦ rw (e, o, r) tt
      | inl (n', r) ↦
          rw (e, o, r)
            (let (w, done, _) = d.decides run n n' r in
              recoupled-IsSound db key n n' _ sound e (λ s f. stays s n n' w done f))
    ]
  ]
]
  where
    stays :
        (s : ExecutionTaskStatus) (n n' : NodeRun)
        → is_waiting n ≡ true
        → is_decided n' ≡ true
        → coupled s n.status ≡ true
        → coupled s n'.status ≡ true
    stays s n n' w done f = ground arith
