-- ===== src/Errors.antt =====
-- backend/app/core/errors.py: the codes of `RelayviaError` that the modelled code raises, and the
-- result of code that may raise. Messages, HTTP status codes and details are left out.
use relayvia.Prelude.{Bool, true, false, ◌≡◌, refl, ap, ◌⊎◌, inl, inr}

pub data ErrorCode : Type 0 where
  invalid_workflow_run_transition invalid_node_run_transition : ErrorCode
  invalid_execution_task_transition : ErrorCode
  workflow_run_not_found node_run_not_found run_already_terminal : ErrorCode
  node_run_not_waiting workflow_run_not_actionable node_run_action_not_allowed : ErrorCode
  node_snapshot_missing human_rejection_disabled invalid_human_input_schema : ErrorCode
  invalid_human_input : ErrorCode
  runner_not_found runner_auth_failed runner_disabled runner_task_stale : ErrorCode
  -- a constraint of the database, raised by the driver
  integrity_error : ErrorCode
  -- Python's own `TypeError`
  type_error : ErrorCode

pub data Result {ℓ} (A : Type ℓ) : Type ℓ where
  ok : A → Result A
  err : ErrorCode → Result A

abbrev pub is_ok {ℓ} : {A : Type ℓ} → Result A → Bool
is_ok (ok a) = true
is_ok (err e) = false

pub Result-cases {ℓ} :
    {A : Type ℓ} (r : Result A) → ((a : A) × (r ≡ ok a)) ⊎ ((e : ErrorCode) × (r ≡ err e))
Result-cases (ok a) = inl (a, refl)
Result-cases (err e) = inr (e, refl)

-- The test before a `raise`.
abbrev pub require : Bool → ErrorCode → Result (Unit {0})
require true e = ok tt
require false e = err e

-- What follows a call that may raise.
abbrev pub and_then {ℓ κ} : {A : Type ℓ} {B : Type κ} → Result A → (A → Result B) → Result B
and_then (ok a) f = f a
and_then (err e) f = err e

pub ok-injective {ℓ} : {A : Type ℓ} (a b : A) → ok a ≡ ok b → a ≡ b
ok-injective a b h = ap (λ r. elim r [ ok x ↦ x | err e ↦ a ]) h

-- A chain of calls that returns: the first one returned, and so did the rest.
pub and_then-ok {ℓ κ} :
    {A : Type ℓ} {B : Type κ} (r : Result A) (f : A → Result B) (b : B)
    → and_then r f ≡ ok b
    → (a : A) × (r ≡ ok a) × (f a ≡ ok b)
and_then-ok (ok a) f b h = (a, refl, h)
and_then-ok (err e) f b h = absurd (cc h)

pub require-ok : (b : Bool) (e : ErrorCode) (u : Unit {0}) → require b e ≡ ok u → b ≡ true
require-ok true e u h = refl
require-ok false e u h = absurd (cc h)
