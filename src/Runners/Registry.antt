-- ===== src/Runners/Registry.antt =====
-- The registry of backend/app/domain/runners/service.py and models.py: enrolment, authentication and
-- heartbeat of Runners. A token is a number, and no token stands for the empty one too; `token_hash` is
-- the digest of a token, `isoformat` the text of a time. A call that raises rolls back.
pub mod Credentials
pub mod Disabled
pub mod Refines
use relayvia.Prelude.{
  ℕ, ◌+◌, String, Bool, true, false, not, Option, none, some, List, [], ◌∷◌, ltb, ◌==◌,
  if◌then◌else◌,
}
use relayvia.Errors.{ErrorCode, Result, ok, err, and_then}
use relayvia.Table.{Table, get, put}
use relayvia.Json.{Json, with_field}

pub data RunnerStatus : Type 0 where
  online offline disabled : RunnerStatus

pub record Runner : Type 0 where
  pub name : String
  pub hostname : String
  pub platform : Option String
  pub status : RunnerStatus
  pub auth_token_hash : Option ℕ
  pub capabilities : List String
  pub last_seen_at : Option ℕ
  pub metadata : Json

-- What a Runner says of itself.
pub record Profile : Type 0 where
  pub name : String
  pub hostname : String
  pub platform : Option String
  pub capabilities : List String
  pub metadata : Json

abbrev pub is_disabled : RunnerStatus → Bool
is_disabled RunnerStatus.disabled = true
is_disabled _ = false

abbrev seen_within : Option ℕ → ℕ → ℕ → Bool
seen_within none offline_after now = false
seen_within (some seen) offline_after now = ltb now (seen + offline_after)

unfoldable pub runner_online : Runner → ℕ → ℕ → Bool
runner_online runner offline_after_seconds now =
    if is_disabled runner.status
    then false
    else seen_within runner.last_seen_at offline_after_seconds now

unfoldable pub effective_status : Runner → ℕ → ℕ → RunnerStatus
unfolding runner_online
effective_status runner offline_after_seconds now =
    if is_disabled runner.status
    then RunnerStatus.disabled
    else if runner_online runner offline_after_seconds now
    then RunnerStatus.online
    else RunnerStatus.offline

-- The result of a call, and the table that it commits.
abbrev pub Answer : Type 0 → Type 0
Answer A = Result (A × Table Runner)

abbrev pub found : Option Runner → Result Runner
found none = err ErrorCode.runner_not_found
found (some runner) = ok runner

unfoldable pub get_runner : ℕ → Table Runner → Result Runner
get_runner id rows = found (get id rows)

module _ (token_hash : ℕ → ℕ) (isoformat : ℕ → String) where
  -- `hmac.compare_digest` and the tests before it
  abbrev pub digest_matches : Option ℕ → Option ℕ → Bool
  digest_matches (some token) (some expected) = token_hash token == expected
  digest_matches _ _ = false

  unfoldable pub authenticate_runner : ℕ → Option ℕ → Table Runner → Result Runner
  authenticate_runner id token rows = and_then (found (get id rows)) λ runner.
      if digest_matches token runner.auth_token_hash
      then ok runner
      else err ErrorCode.runner_auth_failed

  abbrev pub enrolled : Profile → Option ℕ → ℕ → Runner
  enrolled p hash now = record {
    name = p.name;
    hostname = p.hostname;
    platform = p.platform;
    status = RunnerStatus.online;
    auth_token_hash = hash;
    capabilities = p.capabilities;
    last_seen_at = some now;
    metadata = p.metadata;
  }

  -- A Runner that gives its identifier is known; a new one gets the key and the token that are drawn.
  unfoldable pub register_runner :
      ℕ → ℕ → Profile → Option ℕ → Option ℕ → ℕ → Table Runner → Answer (ℕ × Option ℕ)
  unfolding authenticate_runner
  register_runner new_id drawn p (some id) runner_token now rows =
      and_then (authenticate_runner id runner_token rows) λ runner.
        if is_disabled runner.status
        then err ErrorCode.runner_disabled
        else ok ((id, none), put id (enrolled p runner.auth_token_hash now) rows)
  register_runner new_id drawn p none runner_token now rows =
      ok ((new_id, some drawn), put new_id (enrolled p (some (token_hash drawn)) now) rows)

  unfoldable pub set_runner_enabled : ℕ → Bool → ℕ → Table Runner → Answer (Unit {0})
  set_runner_enabled id enabled now rows = and_then (found (get id rows)) λ runner. ok (
    tt,
    put id
        (record runner {
          status = if enabled then RunnerStatus.offline else RunnerStatus.disabled;
          metadata = with_field "enabled_changed_at" (Json.str (isoformat now)) runner.metadata;
        })
        rows,
  )

  unfoldable pub rotate_runner_token : ℕ → ℕ → ℕ → Table Runner → Answer ℕ
  rotate_runner_token id drawn now rows = and_then (found (get id rows)) λ runner. ok (
    drawn,
    put id
        (record runner {
          auth_token_hash = some (token_hash drawn);
          metadata = with_field "token_rotated_at" (Json.str (isoformat now)) runner.metadata;
        })
        rows,
  )

  -- The token that is drawn is never returned.
  unfoldable pub revoke_runner : ℕ → ℕ → ℕ → Table Runner → Answer (Unit {0})
  revoke_runner id drawn now rows = and_then (found (get id rows)) λ runner. ok (
    tt,
    put id
        (record runner {
          auth_token_hash = some (token_hash drawn);
          status = RunnerStatus.disabled;
          metadata = with_field "revoked_at" (Json.str (isoformat now)) runner.metadata;
        })
        rows,
  )

  -- The name stays, and the lease of no task is renewed.
  unfoldable pub heartbeat_runner : ℕ → Profile → ℕ → Table Runner → Answer (Unit {0})
  heartbeat_runner id p now rows = and_then (found (get id rows)) λ runner.
      if is_disabled runner.status
      then err ErrorCode.runner_disabled
      else ok (
        tt,
        put id
            (record runner {
              hostname = p.hostname;
              platform = p.platform;
              capabilities = p.capabilities;
              metadata = p.metadata;
              status = RunnerStatus.online;
              last_seen_at = some now;
            })
            rows,
      )
