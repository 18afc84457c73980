-- ===== src/Infrastructure/Retry.antt =====
-- backend/app/infrastructure/database/retry.py: `retry_mysql_transaction` and its asynchronous twin, which
-- differs only in how it waits. `operation k` is what the k-th attempt does, each on a session that was
-- rolled back; a delay is a multiple of the unit in which `base_delay` is given.
pub mod First
use relayvia.Prelude.{
  ℕ, zero, suc, ◌+◌, ◌*◌, ◌^◌, Bool, true, false, not, ◌||◌, Option, none, some, List, [], ◌∷◌,
  ◌==◌, leb, if◌then◌else◌,
}

-- An exception: an `OperationalError` with the first of the driver's arguments, or another one.
pub data Exception : Type 0 where
  operational : Option ℕ → Exception
  other : ℕ → Exception
  -- `AssertionError("unreachable")`
  unreachable : Exception

pub data Outcome {ℓ} (A : Type ℓ) : Type ℓ where
  returned : A → Outcome A
  raised : Exception → Outcome A

-- `is_retryable_mysql_transaction_error`
unfoldable pub is_retryable_mysql_transaction_error : Exception → Bool
is_retryable_mysql_transaction_error (operational (some code)) = code == 1205 || code == 1213
is_retryable_mysql_transaction_error _ = false

module _ {A : Type 0} (attempts base_delay : ℕ) (operation : ℕ → Outcome A) where
  -- `for attempt in range(attempts)` from `attempt` on, with the delays that it slept
  unfoldable pub attempts_from : ℕ → ℕ → Outcome A × List ℕ
  unfolding is_retryable_mysql_transaction_error
  attempts_from attempt zero = (raised unreachable, [])
  attempts_from attempt (suc left) = elim (operation attempt) [
    | returned a ↦ (returned a, [])
    | raised exc ↦
        let (result, delays) = attempts_from (attempt + 1) left in
        if not (is_retryable_mysql_transaction_error exc) || leb attempts (attempt + 1)
        then (raised exc, [])
        else (result, base_delay * 2 ^ attempt ∷ delays)
  ]

  unfoldable pub retry_mysql_transaction : Outcome A × List ℕ
  unfolding attempts_from
  retry_mysql_transaction = attempts_from 0 attempts
