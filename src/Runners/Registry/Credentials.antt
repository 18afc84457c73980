-- ===== src/Runners/Registry/Credentials.antt =====
-- Which tokens a Runner authenticates with after its credential was replaced.
use relayvia.Prelude.{
  ℕ, String, Bool, true, false, Option, none, some, ◌≡◌, refl, ap, ◌∙◌, arith, ◌==◌, if◌then◌else◌,
}
use relayvia.Errors.{ErrorCode, ok, err, and_then, is_ok}
use relayvia.Table.{Table, get, put, get-put, get-put_self}
use relayvia.Runners.Registry.{
  Runner, Profile, found, digest_matches, authenticate_runner, register_runner, rotate_runner_token,
  revoke_runner,
}

module _ (token_hash : ℕ → ℕ) (isoformat : ℕ → String) where
  -- After the change the Runner `id` authenticates exactly with the tokens that have the digest of
  -- `token`, and every other one as it did before.
  pub record IsReplaced (id token : ℕ) (before after : Table Runner) : Type 0 where
    pub accepts :
        (t : ℕ)
        → is_ok (authenticate_runner token_hash isoformat id (some t) after)
          ≡ (token_hash t == token_hash token)
    pub others :
        (j : ℕ) (t : Option ℕ)
        → (j == id) ≡ false
        → authenticate_runner token_hash isoformat j t after
          ≡ authenticate_runner token_hash isoformat j t before

  put-IsReplaced :
      (id token : ℕ) (runner : Runner) (rows : Table Runner)
      → runner.auth_token_hash ≡ some (token_hash token)
      → IsReplaced id token rows (put id runner rows)
  unfolding authenticate_runner
  put-IsReplaced id token runner rows h = record {
    accepts = λ t. rw (get-put_self id runner rows) (
        ap
          (λ o. is_ok (
            if digest_matches token_hash isoformat (some t) o
            then ok runner
            else err ErrorCode.runner_auth_failed))
          h
        ∙ accepted (token_hash t == token_hash token) runner);
    others = λ j t o.
        ap
          (λ r. and_then (found r) λ runner.
            if digest_matches token_hash isoformat t runner.auth_token_hash
            then ok runner
            else err ErrorCode.runner_auth_failed)
          (get-put id j runner rows ∙ ground arith);
  }
    where
      accepted :
          (b : Bool) (r : Runner) → is_ok (if b then ok r else err ErrorCode.runner_auth_failed) ≡ b
      accepted true r = refl
      accepted false r = refl

  -- The rotation of a Runner's token and its revocation succeed for every Runner that exists, and a new
  -- Runner can always enrol. Afterwards it authenticates exactly with the tokens that have the digest of
  -- the one that was drawn for it, and every other Runner as it did before.
  pub credential_changes :
      (rows : Table Runner) (id drawn now : ℕ) (runner : Runner) (p : Profile) (old : Option ℕ)
      → get id rows ≡ some runner
      → (new_id : ℕ)
      → ((after : Table Runner) × (rotate_runner_token token_hash isoformat id drawn now rows
            ≡ ok (drawn, after))
          × IsReplaced id drawn rows after)
        × ((after : Table Runner) × (revoke_runner token_hash isoformat id drawn now rows
              ≡ ok (tt, after))
            × IsReplaced id drawn rows after)
        × ((after : Table Runner) × (register_runner token_hash isoformat new_id drawn p none old
                now rows
              ≡ ok ((new_id, some drawn), after))
            × IsReplaced new_id drawn rows after)
  unfolding rotate_runner_token revoke_runner register_runner
  credential_changes rows id drawn now runner p old at new_id = (
    rw at (_, refl, put-IsReplaced id drawn _ rows refl),
    rw at (_, refl, put-IsReplaced id drawn _ rows refl),
    (_, refl, put-IsReplaced new_id drawn _ rows refl),
  )
