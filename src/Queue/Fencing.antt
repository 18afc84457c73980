-- ===== src/Queue/Fencing.antt =====
-- Lease tokens fence out a worker that has lost its task.
use relayvia.Prelude.{ℕ, false, some, ◌≡◌, ◌≢◌, refl, List, arith, holds_id}
use relayvia.Errors.{ok}
use relayvia.Table.{get}
use relayvia.Json.{Json}
use relayvia.Db.{ExecutionTask, WaitingReason, Db}
use relayvia.Queue.Effects.{owns}
use relayvia.Queue.Report.{
  Lease, guarded, start, complete, fail, wait_node, schedule_retry, renew_lease,
}
use relayvia.Queue.Sound.Trace.{Call, perform_all}
use relayvia.Queue.Life.Calls.{AllDraw}
use relayvia.Queue.Life.Facts.{token_stays_lost}

-- Every report under the lease is refused, and changes nothing.
pub record Refused (lease : Lease) (db : Db) : Type 0 where
  pub start_refused : (now later : ℕ) → start lease now later db ≡ ok (false, db)
  pub complete_refused :
      (output metadata : Json) (artifacts : List Json) (now later : ℕ)
      → complete lease output metadata artifacts now later db ≡ ok (false, db)
  pub fail_refused :
      (error metadata : Json) (artifacts : List Json) (now later : ℕ)
      → fail lease error metadata artifacts now later db ≡ ok (false, db)
  pub wait_refused :
      (reason : WaitingReason) (metadata : Json) (now later : ℕ)
      → wait_node lease reason metadata now later db ≡ ok (false, db)
  pub retry_refused :
      (backoff now later : ℕ) → schedule_retry lease backoff now later db ≡ ok (false, db)
  pub renew_refused :
      (seconds now later : ℕ) → renew_lease lease seconds now later db ≡ ok (false, db)

module _ (lease : Lease) (db : Db) (row : ExecutionTask)
    (at : get lease.task_id db.tasks ≡ some row)
    (lost : holds_id row.lease_token lease.lease_token ≡ false) where
  not_owned : (now : ℕ) → owns row lease.worker_id lease.lease_token now ≡ false
  unfolding owns
  not_owned now = ground arith

  guarded_lost : (now : ℕ) (body : _) → guarded lease now body db ≡ ok (false, db)
  unfolding guarded
  guarded_lost now body = rw at (rw (not_owned now) refl)

  lost-Refused : Refused lease db
  unfolding start complete fail wait_node schedule_retry renew_lease
  lost-Refused = record {
    start_refused = λ now later. guarded_lost now _;
    complete_refused = λ o m a now later. guarded_lost now _;
    fail_refused = λ o m a now later. guarded_lost now _;
    wait_refused = λ r m now later. guarded_lost now _;
    retry_refused = λ b now later. guarded_lost now _;
    renew_refused = λ s now later. guarded_lost now _;
  }

-- Once the task of a lease no longer holds the lease's token, and no later claim draws that token
-- again, every report under the lease is refused and changes nothing, after any further calls of any
-- workers.
pub fencing :
    (Issued : ℕ → Type 0) (calls : List Call) (db : Db) (lease : Lease) (row : ExecutionTask)
    → AllDraw Issued calls
    → ((token : ℕ) → Issued token → token ≢ lease.lease_token)
    → get lease.task_id db.tasks ≡ some row
    → holds_id row.lease_token lease.lease_token ≡ false
    → Refused lease (perform_all calls db)
fencing Issued calls db lease row draws fresh at lost =
    let (r, at', lost') =
      token_stays_lost Issued calls db draws lease.task_id row at lease.lease_token fresh lost in
    lost-Refused lease (perform_all calls db) r at' lost'
