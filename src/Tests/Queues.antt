-- ===== src/Tests/Queues.antt =====
-- The queue on the small database.
use relayvia.Prelude.{ℕ, ◌≡◌, ◌≢◌, refl, true, false, none, some, List, [], ◌∷◌, arith, map}
use relayvia.Errors.{ok, is_ok}
use relayvia.Table.{get, put, keys_where}
use relayvia.Json.{Json, empty_object, may_spread}
use relayvia.State.NodeRun.{NodeRunStatus}
use relayvia.State.ExecutionTask.{ExecutionTaskStatus, is_execution_task_terminal}
use relayvia.Db.{ExecutionTask, NodeRun, WaitingReason, Payload, Db}
use relayvia.Db.Keeps.{Returns}
use relayvia.Queue.Effects.{owns, settle, node_status}
use relayvia.Queue.Claim.{
  claim_locked, claim_row, take, start_task, Claimant, ClaimedTask, claim, claim_candidate, fits,
}
use relayvia.Queue.Report.{
  trace_arguments, start, guarded, start_row, Lease, complete, fail, wait_node, schedule_retry,
}
use relayvia.Queue.Upkeep.{
  submit, may_insert, insert_task, recover_expired, promote_due_retries, lease_lost, retry_due,
}
use relayvia.Queue.Sound.{IsSound}
use relayvia.Queue.Sound.Claims.{IsQueued}
use relayvia.Queue.Sound.Trace.{
  Call, perform, claim_call, start_call, complete_call, submit_call, recover_call, perform_all,
  perform_all-IsSound,
}
use relayvia.Queue.Life.Facts.{Continues, Counted, finished_stays, task-Continues}
use relayvia.Queue.Order.{IsCandidate, claim_candidate-IsCandidate}
use relayvia.Queue.Fencing.{Refused, fencing}
use relayvia.Queue.Grant.{Claimed, claim-Claimed}
use relayvia.Queue.Progress.{Leaves, reports_succeed}
use relayvia.Queue.Recovery.{Clear, recover_expired-Clear, promote_due_retries-Clear}
use relayvia.Tests.Rows.{small, small-IsSound, held_task, waiting_task, done_task}

abbrev worker : Claimant
worker = record { worker_id = 8; capabilities = none; auto_start = false }

abbrev old_lease : Lease
old_lease = record { task_id = 101; worker_id = 7; lease_token = 70 }

abbrev new_lease : Lease
new_lease = record { task_id = 101; worker_id = 8; lease_token = 80 }

abbrev new_payload : Payload
new_payload = record { node_id = 4; retry_backoff_seconds = 5; workspace = none }

-- The lease of the worker 7 is lost, and the worker 8 takes the task over. The last call submits a
-- second task for the queued node run 12, which the constraints refuse.
abbrev takeover : List Call
takeover =
    recover_call (λ k. false) 2000
    ∷ claim_call small worker 81 2001 60 false
    ∷ start_call new_lease 2002 2003
    ∷ complete_call new_lease empty_object empty_object [] 2004 2005
    ∷ submit_call 104 1 12 new_payload 3 2 2006 2006
    ∷ []

-- a task for the node run 12 of a database in which it has none
abbrev untasked : Db
untasked = record small { tasks = (101, held_task) ∷ (103, done_task) ∷ [] }

untasked-IsSound : IsSound untasked
unfolding get
untasked-IsSound = record {
  paired = λ i t h. ground arith;
  leased = λ i t h. ground arith;
  single = λ i j t u hi hj e. ground arith;
}

abbrev submit_104 : Call
submit_104 = submit_call 104 1 12 new_payload 3 2 1 100

abbrev submission : List Call
submission =
    submit_104
    ∷ claim_call (perform submit_104 untasked) worker 81 101 60 false
    ∷ start_call (record { task_id = 104; worker_id = 8; lease_token = 81 }) 102 103
    ∷ []

submission_runs :
    map (λ r. r.1.status) (perform_all submission untasked).tasks
    ≡ ExecutionTaskStatus.running ∷ ExecutionTaskStatus.completed ∷ ExecutionTaskStatus.running ∷ []
unfolding perform perform_all get put submit may_insert insert_task claim claim_candidate
    claim_locked claim_row take fits start guarded start_row settle start_task node_status owns
    keys_where
submission_runs = refl

node_12-IsQueued : IsQueued 12 untasked
unfolding get
node_12-IsQueued n h = ground arith

perform_all-IsSound_example : IsSound (perform_all submission untasked)
perform_all-IsSound_example =
    perform_all-IsSound submission untasked (node_12-IsQueued, (tt, (tt, tt))) untasked-IsSound

abbrev AnyToken : ℕ → Type 0
AnyToken k = Unit

finished_stays_example : get 103 (perform_all takeover small).tasks ≡ some done_task
finished_stays_example =
    finished_stays AnyToken takeover small (tt, (tt, (tt, (tt, (tt, tt))))) 103 done_task
      (unfold get in refl) (unfold is_execution_task_terminal in refl)

task-Continues_example :
    (r : ExecutionTask) × (get 101 (perform_all takeover small).tasks ≡ some r)
    × Continues held_task r
    × Counted r
task-Continues_example =
    task-Continues AnyToken takeover small (tt, (tt, (tt, (tt, (tt, tt))))) 101 held_task
      (unfold get in refl) (λ h. omega arith)

claim_candidate-IsCandidate_example :
    IsCandidate worker 2001 small (claim_candidate worker 2001 small)
claim_candidate-IsCandidate_example = claim_candidate-IsCandidate worker 2001 small

abbrev granted_lease : ClaimedTask
granted_lease = record {
  id = 102;
  workflow_run_id = 1;
  node_run_id = 12;
  payload = record { node_id = 2; retry_backoff_seconds = 5; workspace = none };
  attempt = 0;
  max_attempts = 3;
  locked_by = 8;
  lease_token = 81;
  lease_expires_at = 2061;
}

abbrev after_claim : Db
after_claim = record small {
  tasks =
      (101, held_task)
      ∷ (
        102,
        record waiting_task {
          status = ExecutionTaskStatus.claimed;
          locked_by = some 8;
          lease_token = some 81;
          locked_at = some 2001;
          lease_expires_at = some 2061;
        },
      )
      ∷ (103, done_task)
      ∷ [];
}

claim_runs : claim small worker 81 2001 60 false small ≡ ok (some granted_lease, after_claim)
unfolding claim get put fits
claim_runs = refl

claim-Claimed_example : Claimed small worker 81 2001 60 small after_claim granted_lease
claim-Claimed_example =
    claim-Claimed small worker 81 2001 60 false small after_claim granted_lease claim_runs

abbrev Not70 : ℕ → Type 0
Not70 k = k ≢ 70

-- The worker 7 had the task 102 under the token 70 before the worker 8 got it under the token 81.
abbrev lost_lease : Lease
lost_lease = record { task_id = 102; worker_id = 7; lease_token = 70 }

abbrev granted_row : ExecutionTask
granted_row = record waiting_task {
  status = ExecutionTaskStatus.claimed;
  locked_by = some 8;
  lease_token = some 81;
  locked_at = some 2001;
  lease_expires_at = some 2061;
}

fencing_example : Refused lost_lease (perform_all takeover after_claim)
fencing_example =
    fencing Not70 takeover after_claim lost_lease granted_row
      (tt, ((λ e. omega arith), (tt, (tt, (tt, tt))))) (λ k h. h) (unfold get in refl) refl

held_is_owned : owns held_task 7 70 500 ≡ true
unfolding owns
held_is_owned = refl

reports_succeed_example :
    (n : NodeRun) × (get 11 small.node_runs ≡ some n)
    × Leaves 101 11
        (record held_task {
          status = ExecutionTaskStatus.completed;
          finished_at = some 501;
          last_error = none;
        })
        (record n {
          status = NodeRunStatus.completed;
          output = some empty_object;
          execution_metadata = empty_object;
          artifact_refs = [];
          finished_at = some 501;
        })
        (complete old_lease empty_object empty_object [] 500 501 small)
    × Leaves 101 11
        (record held_task {
          status = ExecutionTaskStatus.failed;
          finished_at = some 501;
          last_error = some Json.null;
        })
        (record n {
          status = NodeRunStatus.failed;
          error = some Json.null;
          execution_metadata = empty_object;
          artifact_refs = [];
          finished_at = some 501;
        })
        (fail old_lease Json.null empty_object [] 500 501 small)
    × Leaves 101 11
        (record held_task { status = ExecutionTaskStatus.completed; finished_at = some 501 })
        (record n {
          status = NodeRunStatus.waiting;
          waiting_reason = some WaitingReason.human_input;
          waiting_metadata = empty_object;
        })
        (wait_node old_lease WaitingReason.human_input empty_object 500 501 small)
    × Leaves 101 11
        (record held_task {
          status = ExecutionTaskStatus.retry_wait;
          available_at = 506;
          locked_by = none;
          lease_token = none;
          locked_at = none;
          lease_expires_at = none;
        })
        (record n { status = NodeRunStatus.retrying })
        (schedule_retry old_lease 5 500 501 small)
    × (is_ok (wait_node old_lease WaitingReason.human_input empty_object 500 501 small)
        ≡ may_spread trace_arguments empty_object)
reports_succeed_example =
    reports_succeed small small-IsSound old_lease 500 501 held_task (unfold get in refl) refl
      held_is_owned empty_object Json.null empty_object empty_object [] WaitingReason.human_input 5
      (unfold may_spread in refl)

recover_expired-Clear_example :
    Returns
      (λ d. IsSound d × ((j : ℕ) → false ≡ false → Clear (lease_lost 2000) j d))
      (recover_expired (λ k. false) 2000 small)
recover_expired-Clear_example = recover_expired-Clear small small-IsSound (λ k. false) 2000

promote_due_retries-Clear_example :
    Returns
      (λ d. IsSound d × ((j : ℕ) → false ≡ false → Clear (retry_due 2000) j d))
      (promote_due_retries (λ k. false) 2000 small)
promote_due_retries-Clear_example = promote_due_retries-Clear small small-IsSound (λ k. false) 2000
