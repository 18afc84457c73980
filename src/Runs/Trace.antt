-- ===== src/Runs/Trace.antt =====
-- The runtime as a whole: any interleaving of the calls of the workers and of the requests of the
-- users.
mod Steps
use relayvia.Prelude.{String, ℕ, Bool, true, false, List, [], ◌∷◌, ◌≡◌, refl, inl, inr}
use relayvia.Errors.{Result, ok, err}
use relayvia.Table.{Table}
use relayvia.Json.{Json}
use relayvia.Db.{RunEventType, Db, committed, pure, ◌>>◌}
use relayvia.Db.Keeps.{Commits, Commits-committed, Commits-then, Commits-for_each}
use relayvia.Queue.Sound.{IsSound}
use relayvia.Queue.Sound.Trace.{
  Call as QueueCall, perform as perform_queue, perform-IsSound, SubmitsQueued,
}
use relayvia.Queue.Upkeep.{recover_expired, promote_due_retries}
use relayvia.Queue.Sound.Steps.{recover_expired-IsSound, promote_due_retries-IsSound}
use relayvia.Runs.Recovery.{reconcile_active, after_expired, run_execution_recovery}
use relayvia.Runs.Lifecycle.{
  start_transaction, pause_transaction, resume_transaction, start_run, pause_run, resume_run,
}
use relayvia.Runs.Human.{
  decide, approved, rejected, submitted, approve_node_run, reject_node_run, submit_node_run,
}
use relayvia.Runs.Human.Changes.{approved-IsDecision, rejected-IsDecision, submitted-IsDecision}
use relayvia.Runs.Human.Decisions.{decide-IsSound}
use relayvia.Runners.Registry.{Runner}
use relayvia.Runners.Tasks.{runner_claim, runner_task_heartbeat}
use relayvia.Runners.Tasks.Sound.{runner_claim-IsSound, runner_task_heartbeat-IsSound}
use relayvia.Scheduler.Dispatch.{Collaborators}
use relayvia.Scheduler.Submit.{schedule_ready_nodes}
use relayvia.Scheduler.Submit.Sound.{schedule_ready_nodes-IsSound}
use relayvia.Scheduler.Reconcile.{reconcile_run}
use relayvia.Scheduler.Reconcile.Sound.{reconcile_run-IsSound}
use relayvia.Runs.Trace.Steps.{
  once-IsSound, commit_then-IsSound, start-IsSound, pause-IsSound, resume-IsSound,
}

-- The keys that a call draws for new tasks and workspaces, and its clock.
pub record Draws : Type 0 where
  pub task_key : ℕ → ℕ
  pub workspace_key : ℕ → ℕ
  pub now : ℕ

pub data Call : Type 0 where
  runner_claims : Db → ℕ → List String → ℕ → ℕ → ℕ → Bool → Call
  runner_beats : Table Runner → ℕ → ℕ → ℕ → ℕ → ℕ → Call
  queue : QueueCall → Call
  schedule reconcile start pause resume : Draws → ℕ → Call
  recover : Draws → Bool → (ℕ → Bool) → Call
  approve reject : Draws → ℕ → Call
  submit : Draws → ℕ → Json → Call

module _ (c : Collaborators) (schema_valid : Json → Bool) (conforms : Json → Json → Bool) where
  -- The database that stands after a call.
  unfoldable pub serve : Call → Db → Db
  unfolding runner_claim runner_task_heartbeat run_execution_recovery start_run pause_run resume_run
      approve_node_run reject_node_run submit_node_run reconcile_run schedule_ready_nodes
  serve (queue call) db = perform_queue call db
  serve (runner_claims seen runner_id capabilities token now seconds skipped) db =
      committed (runner_claim seen runner_id capabilities token now seconds skipped db) db
  serve (runner_beats registry runner_id id token seconds now) db =
      committed (runner_task_heartbeat registry runner_id id token seconds now db) db
  serve (schedule d run_id) db =
      committed (schedule_ready_nodes c d.task_key d.workspace_key d.now run_id db) db
  serve (reconcile d run_id) db =
      committed (reconcile_run c d.task_key d.workspace_key d.now run_id db) db
  serve (start d run_id) db = (start_run c d.task_key d.workspace_key d.now run_id db).1
  serve (pause d run_id) db = (pause_run d.now run_id db).1
  serve (resume d run_id) db = (resume_run c d.task_key d.workspace_key d.now run_id db).1
  serve (recover d with_active locked) db =
      (run_execution_recovery c d.task_key d.workspace_key d.now with_active locked db).1
  serve (approve d key) db = (approve_node_run c d.task_key d.workspace_key d.now key db).1
  serve (reject d key) db = (reject_node_run c d.task_key d.workspace_key d.now key db).1
  serve (submit d key input) db =
      (submit_node_run c d.task_key d.workspace_key d.now key schema_valid conforms input db).1

  unfoldable pub serve_all : List Call → Db → Db
  unfolding serve
  serve_all [] db = db
  serve_all (call ∷ calls) db = serve_all calls (serve call db)

  reconciled :
      (d : Draws) (db : Db)
      → IsSound db
      → Commits IsSound (reconcile_active c d.task_key d.workspace_key d.now db)
  unfolding reconcile_active
  reconciled d db s =
      Commits-for_each IsSound _
        (λ id e t.
          Commits-then IsSound (reconcile_run c d.task_key d.workspace_key d.now id e) tt
            (reconcile_run-IsSound c d.task_key d.workspace_key d.now id e t))
        _ db s

  recovered :
      (d : Draws) (with_active : Bool) (locked : ℕ → Bool) (db : Db)
      → IsSound db
      → IsSound (run_execution_recovery c d.task_key d.workspace_key d.now with_active locked db).1
  unfolding run_execution_recovery
  recovered d with_active locked db s = by_result (recover_expired locked d.now db) refl
    where
      rest :
          (b : Bool) (expired : ℕ) (e : Db)
          → IsSound e
          → IsSound (after_expired c d.task_key d.workspace_key d.now b locked expired e).1
      rest true expired e t =
          commit_then-IsSound (promote_due_retries locked d.now)
            (λ due. reconcile_active c d.task_key d.workspace_key d.now >> pure (expired, due)) e t
            (promote_due_retries-IsSound e t locked d.now)
            (λ due f u.
              Commits-then IsSound (reconcile_active c d.task_key d.workspace_key d.now f)
                (expired, due) (reconciled d f u))
      rest false expired e t =
          commit_then-IsSound (promote_due_retries locked d.now) (λ due. pure (expired, due)) e t
            (promote_due_retries-IsSound e t locked d.now) (λ due f u. u)

      by_result :
          (r : Result (ℕ × Db))
          → recover_expired locked d.now db ≡ r
          → IsSound
              (run_execution_recovery c d.task_key d.workspace_key d.now with_active locked db).1
      by_result (ok (expired, after)) h =
          rw (h, run_execution_recovery)
            (rest with_active expired after (rw h at (recover_expired-IsSound db s locked d.now)))
      by_result (err x) h = rw (h, run_execution_recovery) s

  -- What is submitted to the queue directly is for a node run that is queued at the time.
  abbrev pub QueuesQueued : Call → Db → Type 0
  QueuesQueued (queue call) db = SubmitsQueued call db
  QueuesQueued _ db = Unit

  abbrev pub AllQueueQueued : List Call → Db → Type 0
  AllQueueQueued [] db = Unit
  AllQueueQueued (call ∷ calls) db = QueuesQueued call db × AllQueueQueued calls (serve call db)

  call-IsSound :
      (call : Call) (db : Db) → QueuesQueued call db → IsSound db → IsSound (serve call db)
  unfolding serve start_run pause_run resume_run approve_node_run reject_node_run submit_node_run
  call-IsSound (queue call) db q s = perform-IsSound call db q s
  call-IsSound (runner_claims seen runner_id capabilities token now seconds skipped) db q s =
      Commits-committed IsSound _ db s
        (runner_claim-IsSound db s runner_id capabilities token now seconds seen skipped)
  call-IsSound (runner_beats registry runner_id id token seconds now) db q s =
      Commits-committed IsSound _ db s
        (runner_task_heartbeat-IsSound db s runner_id registry id token seconds now)
  call-IsSound (schedule d run_id) db q s =
      Commits-committed IsSound _ db s
        (schedule_ready_nodes-IsSound c d.task_key d.workspace_key d.now run_id db s)
  call-IsSound (reconcile d run_id) db q s =
      Commits-committed IsSound _ db s
        (reconcile_run-IsSound c d.task_key d.workspace_key d.now run_id db s)
  call-IsSound (start d run_id) db q s =
      commit_then-IsSound (start_transaction d.now run_id) _ db s (start-IsSound d.now run_id db s)
        (λ _ e t. schedule_ready_nodes-IsSound c d.task_key d.workspace_key d.now run_id e t)
  call-IsSound (pause d run_id) db q s =
      once-IsSound (pause_transaction d.now run_id) db s (pause-IsSound d.now run_id db s)
  call-IsSound (resume d run_id) db q s =
      commit_then-IsSound (resume_transaction run_id) _ db s (resume-IsSound run_id db s)
        (λ _ e t. reconcile_run-IsSound c d.task_key d.workspace_key d.now run_id e t)
  call-IsSound (recover d with_active locked) db q s = recovered d with_active locked db s
  call-IsSound (approve d key) db q s =
      commit_then-IsSound (decide key (approved d.now) RunEventType.node_completed) _ db s
        (decide-IsSound (approved d.now) RunEventType.node_completed key db
          (approved-IsDecision d.now) s)
        (λ run_id e t. reconcile_run-IsSound c d.task_key d.workspace_key d.now run_id e t)
  call-IsSound (reject d key) db q s =
      commit_then-IsSound (decide key (rejected d.now) RunEventType.node_failed) _ db s
        (decide-IsSound (rejected d.now) RunEventType.node_failed key db (rejected-IsDecision d.now)
          s)
        (λ run_id e t. reconcile_run-IsSound c d.task_key d.workspace_key d.now run_id e t)
  call-IsSound (submit d key input) db q s =
      commit_then-IsSound
        (decide key (submitted schema_valid conforms input d.now) RunEventType.node_completed) _ db
        s
        (decide-IsSound (submitted schema_valid conforms input d.now) RunEventType.node_completed
          key db (submitted-IsDecision schema_valid conforms input d.now) s)
        (λ run_id e t. reconcile_run-IsSound c d.task_key d.workspace_key d.now run_id e t)

  -- Whatever the workers report and the users request, in whatever order and whatever the resolver and
  -- the validator of schemas answer, sound rows stay sound, if each task that is submitted to the queue
  -- directly is for a node run that is queued at the time. The calls are those of the queue, the claims
  -- and heartbeats of Runners, the submission of ready nodes, the reconciliation of a run, the recovery
  -- of lost work, the start, pause and resumption of a run, and the approval, rejection and submission
  -- of a waiting node run.
  pub serve_all-IsSound :
      (calls : List Call) (db : Db)
      → AllQueueQueued calls db
      → IsSound db
      → IsSound (serve_all calls db)
  unfolding serve_all
  serve_all-IsSound [] db q s = s
  serve_all-IsSound (call ∷ calls) db q s =
      serve_all-IsSound calls (serve call db) q.1 (call-IsSound call db q.0 s)
