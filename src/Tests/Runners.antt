-- ===== src/Tests/Runners.antt =====
-- A registry of one Runner, and a transaction that is retried.
use relayvia.Prelude.{ℕ, zero, suc, ◌*◌, true, false, some, none, [], ◌∷◌, ◌≡◌, refl, arith}
use relayvia.Errors.{ErrorCode, ok, err, is_ok}
use relayvia.Table.{Table, get}
use relayvia.Json.{empty_object}
use relayvia.Infrastructure.Retry.{
  Exception, Outcome, is_retryable_mysql_transaction_error, attempts_from, retry_mysql_transaction,
}
use relayvia.Infrastructure.Retry.First.{Decides, retry_decides}
use relayvia.Runners.Registry.{
  Runner, RunnerStatus, Profile, register_runner, rotate_runner_token, revoke_runner,
  heartbeat_runner,
}
use relayvia.Runners.Registry.Credentials.{IsReplaced, credential_changes}
use relayvia.Runners.Registry.Refines.{view, steps, perform_all-steps}
use relayvia.Runners.Registry.Disabled.{Call, disabled_in, perform_all, disabled_stays_out}

-- a deadlock, and then the transaction goes through
abbrev second_time : ℕ → Outcome ℕ
second_time zero = Outcome.raised (Exception.operational (some 1213))
second_time (suc k) = Outcome.returned 7

retried : retry_mysql_transaction 3 20 second_time ≡ (Outcome.returned 7, 20 ∷ [])
unfolding retry_mysql_transaction attempts_from is_retryable_mysql_transaction_error
retried = refl

retry_decides_example :
    (count : ℕ) × Decides 3 20 second_time 0 count (retry_mysql_transaction 3 20 second_time)
retry_decides_example = retry_decides 3 20 second_time (ground arith)

abbrev profile : Profile
profile = record {
  name = "desk";
  hostname = "desk.local";
  platform = none;
  capabilities = "shell" ∷ [];
  metadata = empty_object;
}

abbrev desk : Runner
desk = record {
  name = "desk";
  hostname = "desk.local";
  platform = none;
  status = RunnerStatus.disabled;
  auth_token_hash = some 8;
  capabilities = "shell" ∷ [];
  last_seen_at = some 5;
  metadata = empty_object;
}

abbrev registry : Table Runner
registry = (1, desk) ∷ []

abbrev digest : ℕ → ℕ
digest token = token * 2

credential_changes_example :
    ((after : Table Runner) × (rotate_runner_token digest (λ t. "time") 1 9 20 registry
        ≡ ok (9, after))
      × IsReplaced digest (λ t. "time") 1 9 registry after)
    × ((after : Table Runner) × (revoke_runner digest (λ t. "time") 1 9 20 registry
          ≡ ok (tt, after))
        × IsReplaced digest (λ t. "time") 1 9 registry after)
    × ((after : Table Runner) × (register_runner digest
            (λ t. "time")
            2
            9
            profile
            none
            none
            20
            registry
          ≡ ok ((2, some 9), after))
        × IsReplaced digest (λ t. "time") 2 9 registry after)
credential_changes_example =
    credential_changes digest (λ t. "time") registry 1 9 20 desk profile none (unfold get in refl) 2

disabled_stays_out_example :
    (disabled_in digest
        (λ t. "time")
        (get 1 (perform_all digest (λ t. "time") (Call.rotate 1 9 30 ∷ []) registry))
      ≡ true)
    × (heartbeat_runner digest
          (λ t. "time")
          1
          profile
          40
          (perform_all digest (λ t. "time") (Call.rotate 1 9 30 ∷ []) registry)
        ≡ err ErrorCode.runner_disabled)
    × (is_ok (
          register_runner digest
            (λ t. "time")
            2
            4
            profile
            (some 1)
            (some 9)
            40
            (perform_all digest (λ t. "time") (Call.rotate 1 9 30 ∷ []) registry))
        ≡ false)
disabled_stays_out_example =
    disabled_stays_out digest (λ t. "time") 1 (Call.rotate 1 9 30 ∷ []) registry
      (unfold get in refl) refl profile 2 4 40 (some 9)

perform_all-steps_example :
    view
      (perform_all digest (λ t. "time") (Call.rotate 1 9 30 ∷ Call.revoke 1 4 31 ∷ []) registry)
      1
    ≡ steps digest (λ t. "time") (Call.rotate 1 9 30 ∷ Call.revoke 1 4 31 ∷ []) (view registry) 1
perform_all-steps_example =
    perform_all-steps digest (λ t. "time") (Call.rotate 1 9 30 ∷ Call.revoke 1 4 31 ∷ []) registry 1
