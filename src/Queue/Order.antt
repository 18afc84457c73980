-- ===== src/Queue/Order.antt =====
-- Which task a claim takes: the `where` and `order_by` clauses of the candidate query against a
-- description of the task that is due.
mod First
use relayvia.Prelude.{
  ℕ, ◌≤◌, String, true, any, Option, none, some, ◌≡◌, refl, ◌⊎◌, inl, inr, List, [], ◌∷◌, arith,
  Bool-cases, Option-cases, Memᴰ,
}
use relayvia.Table.{get}
use relayvia.State.WorkflowRun.{WorkflowRunStatus}
use relayvia.State.ExecutionTask.{ExecutionTaskStatus}
use relayvia.Db.{ExecutionTask, WorkflowRun, Db}
use relayvia.Queue.Claim.{Claimant, eligible, fits, precedes, first_of_order, claim_candidate}
use relayvia.Queue.Order.First.{Best, first_of_order-Best}
use text.Mathlib.Text.{◌==◌ as str_eq}
use text.Mathlib.TextEquality.{eq_iff}

-- A server Worker takes the tasks that require no capability; a Runner takes those that require one of
-- its own, and are reserved for it or for no Runner.
abbrev pub Suits : Option (List String) → ℕ → ExecutionTask → Type 0
Suits none worker t = t.required_capability ≡ none
Suits (some capabilities) worker t =
    (c : String) × (t.required_capability ≡ some c)
    × Memᴰ c capabilities
    × ((t.runner_id ≡ none) ⊎ (t.runner_id ≡ some worker))

-- A task that the claimant may take: it is pending and available, and its run is running.
pub record IsClaimable (who : Claimant) (now : ℕ) (seen : Db) (t : ExecutionTask) : Type 0 where
  pub pending : t.status ≡ ExecutionTaskStatus.pending
  pub available : t.available_at ≤ now
  pub run : WorkflowRun
  pub run_row : get t.workflow_run_id seen.runs ≡ some run
  pub run_running : run.status ≡ WorkflowRunStatus.running
  pub suits : Suits who.capabilities who.worker_id t

-- `t` is claimable, and among the claimable tasks it has the highest priority, of those the earliest
-- availability, and of those the earliest creation.
pub record IsFirst (who : Claimant) (now : ℕ) (seen : Db) (k : ℕ) (t : ExecutionTask) : Type 0 where
  pub row : Memᴰ (k, t) seen.tasks
  pub claimable : IsClaimable who now seen t
  pub highest :
      (j : ℕ) (u : ExecutionTask)
      → Memᴰ (j, u) seen.tasks
      → IsClaimable who now seen u
      → u.priority ≤ t.priority
  pub earliest :
      (j : ℕ) (u : ExecutionTask)
      → Memᴰ (j, u) seen.tasks
      → IsClaimable who now seen u
      → u.priority ≡ t.priority
      → t.available_at ≤ u.available_at
  pub oldest :
      (j : ℕ) (u : ExecutionTask)
      → Memᴰ (j, u) seen.tasks
      → IsClaimable who now seen u
      → u.priority ≡ t.priority
      → u.available_at ≡ t.available_at
      → t.created_at ≤ u.created_at

abbrev pub IsCandidate : Claimant → ℕ → Db → Option (ℕ × ExecutionTask) → Type 0
IsCandidate who now seen none =
    (j : ℕ) (u : ExecutionTask) → Memᴰ (j, u) seen.tasks → ¬ IsClaimable who now seen u
IsCandidate who now seen (some (k, t)) = IsFirst who now seen k t

-- `capability in capabilities`
any-Memᴰ : (c : String) (cs : List String) → any (str_eq c) cs ≡ true → Memᴰ c cs
any-Memᴰ c [] h = absurd (cc h)
any-Memᴰ c (x ∷ cs) h = elim (Bool-cases (str_eq c x)) [
  | inl e ↦ Memᴰ.head ((eq_iff c x).0 e)
  | inr e ↦ Memᴰ.tail (any-Memᴰ c cs (rw e at h))
]

Memᴰ-any : (c : String) (cs : List String) → Memᴰ c cs → any (str_eq c) cs ≡ true
Memᴰ-any c [] m = elim m [ ]
Memᴰ-any c (x ∷ cs) (Memᴰ.head e) = rw ((eq_iff c x).1 e) refl
Memᴰ-any c (x ∷ cs) (Memᴰ.tail m) = let rest = Memᴰ-any c cs m in ground arith

fits-Suits :
    (who : Claimant) (t : ExecutionTask)
    → fits who t ≡ true
    → Suits who.capabilities who.worker_id t
unfolding fits
fits-Suits who t h = elim (Option-cases who.capabilities) [
  | inl o ↦ rw o (ground arith)
  | inr (cs, o) ↦ elim (Option-cases t.required_capability) [
    | inl e ↦ absurd (cc (rw (o, e) at h))
    | inr (c, e) ↦ rw o (c, e, any-Memᴰ c cs (ground arith), ground arith)
  ]
]

Suits-fits :
    (who : Claimant) (t : ExecutionTask)
    → Suits who.capabilities who.worker_id t
    → fits who t ≡ true
unfolding fits
Suits-fits who t h = elim (Option-cases who.capabilities) [
  | inl o ↦ let e : t.required_capability ≡ none = rw o at h in rw (o, e) refl
  | inr (cs, o) ↦
      let (c, e, m, r) : Suits (some cs) who.worker_id t = rw o at h in
      let found = Memᴰ-any c cs m in ground arith
]

eligible-IsClaimable :
    (who : Claimant) (now : ℕ) (seen : Db) (t : ExecutionTask)
    → eligible who now seen t ≡ true
    → IsClaimable who now seen t
unfolding eligible
eligible-IsClaimable who now seen t h = elim (Option-cases (get t.workflow_run_id seen.runs)) [
  | inl e ↦ absurd (ground arith)
  | inr (run, e) ↦ record {
    pending = ground arith;
    available = ground arith;
    run = run;
    run_row = e;
    run_running = ground arith;
    suits = fits-Suits who t (ground arith);
  }
]

IsClaimable-eligible :
    (who : Claimant) (now : ℕ) (seen : Db) (t : ExecutionTask)
    → IsClaimable who now seen t
    → eligible who now seen t ≡ true
unfolding eligible
IsClaimable-eligible who now seen t c =
    let f = Suits-fits who t c.suits in
    rw (c.run_row) (ground (arith, c.pending, c.available, c.run_running))

-- The candidate of a claim is a row of the database that the claim has read, and claimable: it is
-- pending and available, its run is running, and its capability and reservation suit the claimant. It
-- has the highest priority of the claimable tasks, of those with that priority it became available
-- first, and of those it was created first. There is no candidate only if no task is claimable.
pub claim_candidate-IsCandidate :
    (who : Claimant) (now : ℕ) (seen : Db) → IsCandidate who now seen (claim_candidate who now seen)
unfolding claim_candidate precedes
claim_candidate-IsCandidate who now seen =
    of_best (first_of_order (eligible who now seen) seen.tasks)
      (first_of_order-Best (eligible who now seen) seen.tasks)
  where
    of_best :
        (best : Option (ℕ × ExecutionTask))
        → Best (eligible who now seen) seen.tasks best
        → IsCandidate who now seen best
    of_best none h = λ j u m c. cc (h j u m, IsClaimable-eligible who now seen u c)
    of_best (some (k, t)) (at, e, first) = record {
      row = at;
      claimable = eligible-IsClaimable who now seen t e;
      highest =
          λ j u m c. let f = first j u m (IsClaimable-eligible who now seen u c) in ground arith;
      earliest =
          λ j u m c p. let f = first j u m (IsClaimable-eligible who now seen u c) in ground arith;
      oldest = λ j u m c p a.
          let f = first j u m (IsClaimable-eligible who now seen u c) in ground arith;
    }
