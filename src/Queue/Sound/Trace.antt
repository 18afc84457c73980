-- ===== src/Queue/Sound/Trace.antt =====
-- Sequences of the operations of `MySQLExecutionBackend`, all eleven of them.
use relayvia.Prelude.{ℕ, Bool, List, [], ◌∷◌}
use relayvia.Json.{Json}
use relayvia.Db.{Payload, Db, WaitingReason, committed}
use relayvia.Db.Keeps.{Commits-committed}
use relayvia.Queue.Claim.{Claimant, claim}
use relayvia.Queue.Report.{Lease, start, complete, fail, wait_node, schedule_retry, renew_lease}
use relayvia.Queue.Upkeep.{submit, cancel, recover_expired, promote_due_retries}
use relayvia.Queue.Sound.{IsSound}
use relayvia.Queue.Sound.Steps.{
  start-IsSound, complete-IsSound, fail-IsSound, wait_node-IsSound, schedule_retry-IsSound,
  cancel-IsSound, recover_expired-IsSound, promote_due_retries-IsSound,
}
use relayvia.Queue.Sound.Claims.{claim-IsSound, renew_lease-IsSound, submit-IsSound, IsQueued}

-- A call of the backend by the scheduler, a worker or the recovery, at some time.
pub data Call : Type 0 where
  claim_call : Db → Claimant → ℕ → ℕ → ℕ → Bool → Call
  start_call : Lease → ℕ → ℕ → Call
  complete_call : Lease → Json → Json → List Json → ℕ → ℕ → Call
  fail_call : Lease → Json → Json → List Json → ℕ → ℕ → Call
  wait_call : Lease → WaitingReason → Json → ℕ → ℕ → Call
  retry_call : Lease → ℕ → ℕ → ℕ → Call
  renew_call : Lease → ℕ → ℕ → ℕ → Call
  submit_call : ℕ → ℕ → ℕ → Payload → ℕ → ℕ → ℕ → ℕ → Call
  cancel_call : ℕ → ℕ → Call
  recover_call : (ℕ → Bool) → ℕ → Call
  promote_call : (ℕ → Bool) → ℕ → Call

-- The database after the call's transaction: an error leaves it as it was.
unfoldable pub perform : Call → Db → Db
perform (claim_call seen who token now seconds skipped) db =
    committed (claim seen who token now seconds skipped db) db
perform (start_call lease now later) db = committed (start lease now later db) db
perform (complete_call lease output metadata artifacts now later) db =
    committed (complete lease output metadata artifacts now later db) db
perform (fail_call lease error metadata artifacts now later) db =
    committed (fail lease error metadata artifacts now later db) db
perform (wait_call lease reason metadata now later) db =
    committed (wait_node lease reason metadata now later db) db
perform (retry_call lease backoff now later) db =
    committed (schedule_retry lease backoff now later db) db
perform (renew_call lease seconds now later) db =
    committed (renew_lease lease seconds now later db) db
perform (submit_call key run node_run payload priority max_attempts available_at now) db =
    committed (submit key run node_run payload priority max_attempts available_at now db) db
perform (cancel_call key now) db = committed (cancel key now db) db
perform (recover_call locked now) db = committed (recover_expired locked now db) db
perform (promote_call locked now) db = committed (promote_due_retries locked now db) db

unfoldable pub perform_all : List Call → Db → Db
perform_all [] db = db
perform_all (c ∷ calls) db = perform_all calls (perform c db)

-- A task is submitted for a node run that is queued at the time, as the scheduler does it.
abbrev pub SubmitsQueued : Call → Db → Type 0
SubmitsQueued (submit_call key run node_run payload priority max_attempts available_at now) db =
    IsQueued node_run db
SubmitsQueued _ db = Unit

abbrev pub AllSubmitQueued : List Call → Db → Type 0
AllSubmitQueued [] db = Unit
AllSubmitQueued (c ∷ calls) db = SubmitsQueued c db × AllSubmitQueued calls (perform c db)

pub perform-IsSound :
    (c : Call) (db : Db) → SubmitsQueued c db → IsSound db → IsSound (perform c db)
unfolding perform
perform-IsSound (claim_call seen who token now seconds skipped) db q s =
    Commits-committed IsSound _ db s (claim-IsSound db s seen who token now seconds skipped)
perform-IsSound (start_call lease now later) db q s =
    Commits-committed IsSound _ db s (start-IsSound db s lease now later)
perform-IsSound (complete_call lease output metadata artifacts now later) db q s =
    Commits-committed IsSound _ db s
      (complete-IsSound db s lease now later output metadata artifacts)
perform-IsSound (fail_call lease error metadata artifacts now later) db q s =
    Commits-committed IsSound _ db s (fail-IsSound db s lease now later error metadata artifacts)
perform-IsSound (wait_call lease reason metadata now later) db q s =
    Commits-committed IsSound _ db s (wait_node-IsSound db s lease now later reason metadata)
perform-IsSound (retry_call lease backoff now later) db q s =
    Commits-committed IsSound _ db s (schedule_retry-IsSound db s lease now later backoff)
perform-IsSound (renew_call lease seconds now later) db q s =
    Commits-committed IsSound _ db s (renew_lease-IsSound db s lease seconds now later)
perform-IsSound (submit_call key run node_run payload priority max_attempts available_at now) db q
      s =
    Commits-committed IsSound _ db s
      (submit-IsSound db s key run node_run payload priority max_attempts available_at now q)
perform-IsSound (cancel_call key now) db q s =
    Commits-committed IsSound _ db s (cancel-IsSound db s key now)
perform-IsSound (recover_call locked now) db q s =
    Commits-committed IsSound _ db s (recover_expired-IsSound db s locked now)
perform-IsSound (promote_call locked now) db q s =
    Commits-committed IsSound _ db s (promote_due_retries-IsSound db s locked now)

-- Whatever calls of the backend are made, in whatever order and with whatever leases, times and stale
-- candidates, sound rows stay sound, if each submission of a task is for a node run that is queued at
-- the time: each task and its node run have statuses that belong together, a claimed or running task
-- has the four lock columns and a pending or retrying one has none of them, and no node run has two
-- tasks.
pub perform_all-IsSound :
    (calls : List Call) (db : Db)
    → AllSubmitQueued calls db
    → IsSound db
    → IsSound (perform_all calls db)
unfolding perform_all
perform_all-IsSound [] db q s = s
perform_all-IsSound (c ∷ calls) db q s =
    perform_all-IsSound calls (perform c db) q.1 (perform-IsSound c db q.0 s)
