-- ===== src/Runs/Trace/Steps.antt =====
-- The transactions of a request, one by one and in pairs, and those of start, pause and resumption keep
-- the rows sound.
use relayvia.Prelude.{ℕ, ◌≡◌, refl, inl, inr, Option-cases}
use relayvia.Errors.{Result, ok, err, Result-cases}
use relayvia.Table.{get}
use relayvia.State.WorkflowRun.{WorkflowRunStatus}
use relayvia.Db.{Db, Tx}
use relayvia.Db.Keeps.{Commits}
use relayvia.Queue.Sound.{IsSound}
use relayvia.Runs.Cancel.{move_run}
use relayvia.Runs.Commit.{once, commit_then}
use relayvia.Runs.Lifecycle.{start_transaction, pause_transaction, resume_transaction}
use relayvia.Scheduler.Reconcile.Loops.{rest-IsSound}

pub once-IsSound :
    {A : Type 0} (m : Tx A) (db : Db) → IsSound db → Commits IsSound (m db) → IsSound (once m db).1
once-IsSound {A = A} m db sound h = by_result (m db) refl
  where
    by_result : (r : Result (A × Db)) → m db ≡ r → IsSound (once m db).1
    by_result (ok (a, after)) e = rw (e, once) (rw e at h)
    by_result (err x) e = rw (e, once) sound

pub commit_then-IsSound :
    {A B : Type 0} (m : Tx A) (f : A → Tx B) (db : Db)
    → IsSound db
    → Commits IsSound (m db)
    → ((a : A) (d : Db) → IsSound d → Commits IsSound (f a d))
    → IsSound (commit_then m f db).1
commit_then-IsSound {A = A} m f db sound h k = by_result (m db) refl
  where
    by_result : (r : Result (A × Db)) → m db ≡ r → IsSound (commit_then m f db).1
    by_result (ok (a, after)) e =
        let mid : IsSound after = rw e at h in
        rw (e, commit_then) (once-IsSound (f a) after mid (k a after mid))
    by_result (err x) e = rw (e, commit_then) sound

pub start-IsSound :
    (now run_id : ℕ) (db : Db) → IsSound db → Commits IsSound (start_transaction now run_id db)
unfolding start_transaction
start-IsSound now run_id db sound = elim (Option-cases (get run_id db.runs)) [
  | inl e ↦ rw e tt
  | inr (run, e) ↦ elim (Result-cases (move_run WorkflowRunStatus.running run)) [
    | inl (run', h) ↦ rw (e, h) (rest-IsSound db _ _ sound)
    | inr (x, h) ↦ rw (e, h) tt
  ]
]

pub pause-IsSound :
    (now run_id : ℕ) (db : Db) → IsSound db → Commits IsSound (pause_transaction now run_id db)
unfolding pause_transaction
pause-IsSound now run_id db sound = elim (Option-cases (get run_id db.runs)) [
  | inl e ↦ rw e tt
  | inr (run, e) ↦ elim (Result-cases (move_run WorkflowRunStatus.paused run)) [
    | inl (run', h) ↦ rw (e, h) (rest-IsSound db _ db.events sound)
    | inr (x, h) ↦ rw (e, h) tt
  ]
]

pub resume-IsSound :
    (run_id : ℕ) (db : Db) → IsSound db → Commits IsSound (resume_transaction run_id db)
unfolding resume_transaction
resume-IsSound run_id db sound = elim (Option-cases (get run_id db.runs)) [
  | inl e ↦ rw e tt
  | inr (run, e) ↦ elim (Result-cases (move_run WorkflowRunStatus.running run)) [
    | inl (run', h) ↦ rw (e, h) (rest-IsSound db _ db.events sound)
    | inr (x, h) ↦ rw (e, h) tt
  ]
]
