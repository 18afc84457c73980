-- ===== src/Runners/Registry/Disabled.antt =====
-- A Runner that is disabled stays so until an operator enables it.
use relayvia.Prelude.{
  ℕ, String, Bool, true, false, not, ◌&&◌, Option, none, some, List, [], ◌∷◌, ◌≡◌, refl, all, ◌∙◌,
  arith, ◌==◌, inl, inr, Bool-cases, Option-cases, ap, sym, subst,
}
use relayvia.Errors.{ErrorCode, ok, err, is_ok}
use relayvia.Table.{Table, get, put, get-put}
use relayvia.Runners.Registry.{
  Runner, Profile, Answer, is_disabled, digest_matches, authenticate_runner, register_runner,
  set_runner_enabled, rotate_runner_token, revoke_runner, heartbeat_runner,
}

-- A call of the registry, with the key, the token and the clock that it gets. A new key is that of no row.
pub data Call : Type 0 where
  register : ℕ → ℕ → Profile → Option ℕ → Option ℕ → ℕ → Call
  enable : ℕ → Bool → ℕ → Call
  rotate revoke : ℕ → ℕ → ℕ → Call
  heartbeat : ℕ → Profile → ℕ → Call

-- the state after a call, which is the one before it if the call raises
abbrev pub kept : {A : Type 0} → Answer A → Table Runner → Table Runner
kept (ok (a, after)) rows = after
kept (err e) rows = rows

module _ (token_hash : ℕ → ℕ) (isoformat : ℕ → String) where
  abbrev pub perform : Call → Table Runner → Table Runner
  perform (register key drawn p id token now) rows =
      kept (register_runner token_hash isoformat key drawn p id token now rows) rows
  perform (enable id enabled now) rows =
      kept (set_runner_enabled token_hash isoformat id enabled now rows) rows
  perform (rotate id drawn now) rows =
      kept (rotate_runner_token token_hash isoformat id drawn now rows) rows
  perform (revoke id drawn now) rows =
      kept (revoke_runner token_hash isoformat id drawn now rows) rows
  perform (heartbeat id p now) rows =
      kept (heartbeat_runner token_hash isoformat id p now rows) rows

  abbrev pub perform_all : List Call → Table Runner → Table Runner
  perform_all [] rows = rows
  perform_all (c ∷ calls) rows = perform_all calls (perform c rows)

  -- the call neither enables the Runner nor draws its key for a new one
  abbrev pub leaves : ℕ → Call → Bool
  leaves k (register key drawn p (some id) token now) = true
  leaves k (register key drawn p none token now) = not (key == k)
  leaves k (enable id enabled now) = not (enabled && id == k)
  leaves k _ = true

  abbrev pub disabled_in : Option Runner → Bool
  disabled_in none = false
  disabled_in (some r) = is_disabled r.status

  disabled_row :
      (o : Option Runner)
      → disabled_in o ≡ true
      → (r : Runner) × (o ≡ some r) × (is_disabled r.status ≡ true)
  disabled_row none h = absurd (cc h)
  disabled_row (some r) h = (r, refl, h)

  same_row :
      (k id : ℕ) (r : Runner) (rows : Table Runner)
      → get id rows ≡ some r
      → disabled_in (get k rows) ≡ true
      → (id == k) ≡ true
      → is_disabled r.status ≡ true
  same_row k id r rows at h e =
      let here : id ≡ k = ground arith in
      let at' : get k rows ≡ some r = subst (λ i. get i rows ≡ some r) here at in
      ap disabled_in (sym at') ∙ h

  clash :
      (k id : ℕ) (r : Runner) (rows : Table Runner)
      → get id rows ≡ some r
      → is_disabled r.status ≡ false
      → disabled_in (get k rows) ≡ true
      → (id == k) ≡ true
      → ⊥
  clash k id r rows at d h e = let s = same_row k id r rows at h e in absurd (cc (s, d))

  -- a write keeps a disabled row disabled
  put_kept :
      (k id : ℕ) (r : Runner) (rows : Table Runner)
      → disabled_in (get k rows) ≡ true
      → ((id == k) ≡ true → is_disabled r.status ≡ true)
      → disabled_in (get k (put id r rows)) ≡ true
  put_kept k id r rows h w = ground (arith, get-put id k r rows)

  perform_disabled :
      (k : ℕ) (c : Call) (rows : Table Runner)
      → leaves k c ≡ true
      → disabled_in (get k rows) ≡ true
      → disabled_in (get k (perform c rows)) ≡ true
  unfolding register_runner authenticate_runner set_runner_enabled rotate_runner_token revoke_runner
      heartbeat_runner
  perform_disabled k (register key drawn p none token now) rows l h =
      put_kept k key _ rows h (λ e. absurd (ground arith))
  perform_disabled k (register key drawn p (some id) token now) rows l h =
      elim (Option-cases (get id rows)) [
        | inl none_there ↦ rw none_there h
        | inr (r, at) ↦
            elim (Bool-cases (digest_matches token_hash isoformat token r.auth_token_hash)) [
              | inr differs ↦ rw (at, differs) h
              | inl fits ↦ elim (Bool-cases (is_disabled r.status)) [
                | inl d ↦ rw (at, fits, d) h
                | inr d ↦
                    rw (at, fits, d)
                      (put_kept k id _ rows h (λ e. absurd (clash k id r rows at d h e)))
              ]
            ]
      ]
  perform_disabled k (enable id enabled now) rows l h = elim (Option-cases (get id rows)) [
    | inl none_there ↦ rw none_there h
    | inr (r, at) ↦ rw at (put_kept k id _ rows h (λ e. ground arith))
  ]
  perform_disabled k (rotate id drawn now) rows l h = elim (Option-cases (get id rows)) [
    | inl none_there ↦ rw none_there h
    | inr (r, at) ↦ rw at (put_kept k id _ rows h (λ e. same_row k id r rows at h e))
  ]
  perform_disabled k (revoke id drawn now) rows l h = elim (Option-cases (get id rows)) [
    | inl none_there ↦ rw none_there h
    | inr (r, at) ↦ rw at (put_kept k id _ rows h (λ e. refl))
  ]
  perform_disabled k (heartbeat id p now) rows l h = elim (Option-cases (get id rows)) [
    | inl none_there ↦ rw none_there h
    | inr (r, at) ↦ elim (Bool-cases (is_disabled r.status)) [
      | inl d ↦ rw (at, d) h
      | inr d ↦ rw (at, d) (put_kept k id _ rows h (λ e. absurd (clash k id r rows at d h e)))
    ]
  ]

  performed_disabled :
      (k : ℕ) (calls : List Call) (rows : Table Runner)
      → all (leaves k) calls ≡ true
      → disabled_in (get k rows) ≡ true
      → disabled_in (get k (perform_all calls rows)) ≡ true
  performed_disabled k [] rows l h = h
  performed_disabled k (c ∷ calls) rows l h =
      performed_disabled k calls (perform c rows) (ground arith)
        (perform_disabled k c rows (ground arith) h)

  -- As long as no call enables it, a Runner that is disabled stays disabled through any calls of the
  -- registry, where a new Runner gets a key that is not its own: its heartbeat is refused, and so is its
  -- registration with whatever token.
  pub disabled_stays_out :
      (k : ℕ) (calls : List Call) (rows : Table Runner)
      → disabled_in (get k rows) ≡ true
      → all (leaves k) calls ≡ true
      → (p : Profile) (key drawn now : ℕ) (token : Option ℕ)
      → let after = perform_all calls rows in
        (disabled_in (get k after) ≡ true)
        × (heartbeat_runner token_hash isoformat k p now after ≡ err ErrorCode.runner_disabled)
        × (is_ok (register_runner token_hash isoformat key drawn p (some k) token now after)
            ≡ false)
  unfolding heartbeat_runner register_runner authenticate_runner
  disabled_stays_out k calls rows h l p key drawn now token =
      let still = performed_disabled k calls rows l h in
      let (r, at, d) = disabled_row (get k (perform_all calls rows)) still in
      (
        still,
        rw (at, d) refl,
        elim (Bool-cases (digest_matches token_hash isoformat token r.auth_token_hash)) [
          | inl fits ↦ rw (at, fits, d) refl
          | inr differs ↦ rw (at, differs) refl
        ],
      )
