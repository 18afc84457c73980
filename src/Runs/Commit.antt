-- ===== src/Runs/Commit.antt =====
-- Requests of backend/app/domain/runs/service.py that commit, let the scheduler look after the run, and
-- commit again: an error of the second transaction leaves the first one's writes.
use relayvia.Errors.{Result, ok, err}
use relayvia.Db.{Db, Tx}

-- The answer to a request, and the database that stands after it.
abbrev pub Request : Type 0 → Type 0
Request A = Db → Result A × Db

abbrev pub once : {A : Type 0} → Tx A → Request A
once m db = elim (m db) [ ok (a, after) ↦ (ok a, after) | err e ↦ (err e, db) ]

-- `db.commit()`, then a second transaction that may use what the first one found
abbrev pub commit_then : {A B : Type 0} → Tx A → (A → Tx B) → Request B
commit_then m f db = elim (m db) [ ok (a, after) ↦ once (f a) after | err e ↦ (err e, db) ]
