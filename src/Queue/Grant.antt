-- ===== src/Queue/Grant.antt =====
-- What a successful claim grants.
use relayvia.Prelude.{
  ℕ, ◌+◌, ◌<◌, Bool, true, false, Option, none, some, ◌≡◌, refl, sym, subst, arith, if◌then◌else◌,
  inl, inr, Option-cases, Bool-cases, holds_id,
}
use relayvia.Errors.{ok}
use relayvia.Table.{get, put, get-put_self}
use relayvia.State.NodeRun.{NodeRunStatus}
use relayvia.State.ExecutionTask.{ExecutionTaskStatus}
use relayvia.State.ExecutionTask
use relayvia.Db.{ExecutionTask, RunEventType, Db}
use relayvia.Db.Keeps.{Commits-returned}
use relayvia.Queue.Effects.{owns, settle, node_status}
use relayvia.Queue.Claim.{
  Claimant, ClaimedTask, claim, claim_candidate, claim_locked, claim_row, take, lease_to,
  start_task, claimed_task, run_is_running,
}
use relayvia.Queue.Sound.{settle_tasks}

-- The state after a claim of the row `t` that returned `c`.
pub record Granted (who : Claimant) (token now seconds key : ℕ) (t : ExecutionTask)
    (c : ClaimedTask) (after : Db) : Type 0 where
  pub same_id : c.id ≡ key
  pub row : ExecutionTask
  pub at : get c.id after.tasks ≡ some row
  pub counted : c.attempt ≡ row.attempt
  pub attempt : row.attempt ≡ (if who.auto_start then t.attempt + 1 else t.attempt)
  pub shown : c.lease_token ≡ token
  pub held : holds_id row.lease_token token ≡ true
  pub owned : (later : ℕ) → later < now + seconds → owns row who.worker_id token later ≡ true

module _ (who : Claimant) (token now seconds key : ℕ) (t : ExecutionTask) (db after : Db)
    (c : ClaimedTask) where
  abbrev held_row : ExecutionTask
  held_row = lease_to who.worker_id token now seconds t

  abbrev started_row : ExecutionTask
  started_row = record held_row {
    status = ExecutionTaskStatus.running;
    attempt = t.attempt + 1;
    started_at = some now;
  }

  start_held : start_task now held_row ≡ ok started_row
  unfolding start_task
  start_held = refl

  held_owned : (later : ℕ) → later < now + seconds → owns held_row who.worker_id token later ≡ true
  unfolding owns
  held_owned later h = ground arith

  started_owned :
      (later : ℕ) → later < now + seconds → owns started_row who.worker_id token later ≡ true
  unfolding owns
  started_owned later h = ground arith

  started_take :
      who.auto_start ≡ true
      → take who token now seconds key t db ≡ ok (some c, after)
      → Granted who token now seconds key t c after
  unfolding take
  started_take auto e =
      let change =
        settle_tasks key held_row (start_task now) (node_status NodeRunStatus.running true)
          (some RunEventType.node_started) db started_row start_held in
      let (tasks, shown) =
        Commits-returned (λ d. d.tasks ≡ put key started_row db.tasks)
          (settle key held_row (start_task now) (node_status NodeRunStatus.running true)
            (some RunEventType.node_started) db)
          (some (claimed_task key who.worker_id token now seconds (t.attempt + 1) t)) (some c) after
          change (rw auto at e) in
      record {
        same_id = ground arith;
        row = started_row;
        at = ground (arith, get-put_self key started_row db.tasks);
        counted = ground arith;
        attempt = ground arith;
        shown = ground arith;
        held = ground arith;
        owned = started_owned;
      }

  held_take :
      who.auto_start ≡ false
      → take who token now seconds key t db ≡ ok (some c, after)
      → Granted who token now seconds key t c after
  unfolding take
  held_take auto e = record {
    same_id = ground arith;
    row = held_row;
    at = ground (arith, get-put_self key held_row db.tasks);
    counted = ground arith;
    attempt = ground arith;
    shown = ground arith;
    held = ground arith;
    owned = held_owned;
  }

  take-Granted :
      take who token now seconds key t db ≡ ok (some c, after)
      → Granted who token now seconds key t c after
  take-Granted e = elim (Bool-cases who.auto_start) [
    | inl auto ↦ started_take auto e
    | inr plain ↦ held_take plain e
  ]

-- What led to the claim `c` of the task `t`.
pub record Claimed (seen : Db) (who : Claimant) (token now seconds : ℕ) (db after : Db)
    (c : ClaimedTask) : Type 0 where
  pub candidate : ExecutionTask
  pub task : ExecutionTask
  pub found : claim_candidate who now seen ≡ some (c.id, candidate)
  pub run_runs : run_is_running (get candidate.workflow_run_id db.runs) ≡ true
  pub at : get c.id db.tasks ≡ some task
  pub waits : ExecutionTask.is task.status ExecutionTaskStatus.pending ≡ true
  pub granted : Granted who token now seconds c.id task c after

module _ (seen : Db) (who : Claimant) (token now seconds : ℕ) (skipped : Bool) (db after : Db)
    (c : ClaimedTask) where
  claim_row-Granted :
      (key : ℕ) (o : Option ExecutionTask)
      → claim_row who token now seconds key o db ≡ ok (some c, after)
      → (t : ExecutionTask) × (o ≡ some t)
        × (ExecutionTask.is t.status ExecutionTaskStatus.pending ≡ true)
        × Granted who token now seconds key t c after
  unfolding claim_row
  claim_row-Granted key none e = absurd (cc)
  claim_row-Granted key (some t) e =
      elim (Bool-cases (ExecutionTask.is t.status ExecutionTaskStatus.pending)) [
        | inl h ↦ (t, refl, h, take-Granted who token now seconds key t db after c (rw h at e))
        | inr h ↦ absurd (ground arith)
      ]

  claim_locked-Granted :
      (key : ℕ) (candidate : ExecutionTask)
      → claim_locked who token now seconds skipped key candidate db ≡ ok (some c, after)
      → (run_is_running (get candidate.workflow_run_id db.runs) ≡ true)
        × (claim_row who token now seconds key (get key db.tasks) db ≡ ok (some c, after))
  unfolding claim_locked
  claim_locked-Granted key candidate e = ground arith

  -- A claim that returns a task took the best candidate of the lookup, which was still pending when its
  -- row was locked, in a run that was running; the caller then owns it under the new token until the
  -- lease ends, and the reported attempt is the row's.
  pub claim-Claimed :
      claim seen who token now seconds skipped db ≡ ok (some c, after)
      → Claimed seen who token now seconds db after c
  unfolding claim
  claim-Claimed e = elim (Option-cases (claim_candidate who now seen)) [
    | inl n ↦ absurd (ground arith)
    | inr ((key, candidate), found) ↦
        let e' = rw (found, claim) at e in
        let (running, taken) = claim_locked-Granted key candidate e' in
        let (t, at, waits, granted) = claim_row-Granted key (get key db.tasks) taken in
        let same = granted.same_id in
        record {
          candidate = candidate;
          task = t;
          found = ground arith;
          run_runs = running;
          at = ground arith;
          waits = waits;
          granted = subst (λ k. Granted who token now seconds k t c after) (sym same) granted;
        }
  ]
