-- ===== src/Runners/Registry/Refines.antt =====
-- The registry seen from outside: who may act, under which digest.
use relayvia.Prelude.{
  ℕ, String, Bool, true, false, not, Option, none, some, List, [], ◌∷◌, ◌==◌, ◌≡◌, refl, ap, ◌∙◌,
  inl, inr, arith, Bool-cases, Option-cases, if◌then◌else◌, subst,
}
use relayvia.Table.{Table, get, put, get-put}
use relayvia.Runners.Registry.{
  Runner, RunnerStatus, enrolled, is_disabled, digest_matches, authenticate_runner, register_runner,
  set_runner_enabled, rotate_runner_token, revoke_runner, heartbeat_runner,
}
use relayvia.Runners.Registry.Disabled.{Call, perform, perform_all}

-- What the registry promises to keep of a Runner: the digest of its token, and whether it is disabled.
pub record Standing : Type 0 where
  pub digest : Option ℕ
  pub barred : Bool

abbrev standing : Runner → Standing
standing r = record { digest = r.auth_token_hash; barred = is_disabled r.status }

abbrev standing_of : Option Runner → Option Standing
standing_of none = none
standing_of (some r) = some (standing r)

-- The view of a table: a map of identifiers, which forgets the order of the rows and the rest of them.
abbrev pub view : Table Runner → ℕ → Option Standing
view rows k = standing_of (get k rows)

abbrev changed : (Standing → Standing) → Option Standing → Option Standing
changed f none = none
changed f (some s) = some (f s)

module _ (token_hash : ℕ → ℕ) (isoformat : ℕ → String) where
  -- What a call does to the view: a new Runner enters with its digest, an operator bars or admits,
  -- rotation and revocation replace the digest, and what a Runner does itself changes nothing.
  abbrev pub step : Call → (ℕ → Option Standing) → ℕ → Option Standing
  step (Call.register key drawn p none token now) s k =
      if key == k then some (record { digest = some (token_hash drawn); barred = false }) else s k
  step (Call.register key drawn p (some id) token now) s k = s k
  step (Call.enable id enabled now) s k =
      if id == k then changed (λ x. record x { barred = not enabled }) (s k) else s k
  step (Call.rotate id drawn now) s k =
      if id == k then changed (λ x. record x { digest = some (token_hash drawn) }) (s k) else s k
  step (Call.revoke id drawn now) s k =
      if id == k
      then changed (λ x. record { digest = some (token_hash drawn); barred = true }) (s k)
      else s k
  step (Call.heartbeat id p now) s k = s k

  abbrev pub steps : List Call → (ℕ → Option Standing) → ℕ → Option Standing
  steps [] s = s
  steps (c ∷ calls) s = steps calls (step c s)

  -- a write to a row that stands in the table
  written :
      (id k : ℕ) (r r' : Runner) (rows : Table Runner) (f : Standing → Standing)
      → get id rows ≡ some r
      → standing r' ≡ f (standing r)
      → view (put id r' rows) k ≡ (if id == k then changed f (view rows k) else view rows k)
  written id k r r' rows f at e = elim (Bool-cases (id == k)) [
    | inr o ↦ ap standing_of (get-put id k r' rows) ∙ rw o refl
    | inl o ↦
        let here : get k rows ≡ some r = subst (λ i. get i rows ≡ some r) (ground arith) at in
        ap standing_of (get-put id k r' rows) ∙ rw (o, here) (ap some e)
  ]

  -- a write that keeps the standing
  unchanged :
      (id k : ℕ) (r r' : Runner) (rows : Table Runner)
      → get id rows ≡ some r
      → standing r' ≡ standing r
      → view (put id r' rows) k ≡ view rows k
  unchanged id k r r' rows at e = elim (Bool-cases (id == k)) [
    | inr o ↦ ap standing_of (get-put id k r' rows) ∙ rw o refl
    | inl o ↦
        let here : get k rows ≡ some r = subst (λ i. get i rows ≡ some r) (ground arith) at in
        ap standing_of (get-put id k r' rows) ∙ rw (o, here) (ap some e)
  ]

  absent :
      (id k : ℕ) (rows : Table Runner) (f : Standing → Standing)
      → get id rows ≡ none
      → view rows k ≡ (if id == k then changed f (view rows k) else view rows k)
  absent id k rows f at = elim (Bool-cases (id == k)) [
    | inr o ↦ rw o refl
    | inl o ↦
        let here : get k rows ≡ none = subst (λ i. get i rows ≡ none) (ground arith) at in
        rw (o, here) refl
  ]

  open_standing :
      (r r' : Runner)
      → is_disabled r.status ≡ false
      → is_disabled r'.status ≡ false
      → r'.auth_token_hash ≡ r.auth_token_hash
      → standing r' ≡ standing r
  open_standing r r' d d' h = rw (d, d', h) refl

  barred_by :
      (enabled : Bool)
      → is_disabled (if enabled then RunnerStatus.offline else RunnerStatus.disabled) ≡ not enabled
  barred_by true = refl
  barred_by false = refl

  perform-step :
      (c : Call) (rows : Table Runner) (k : ℕ)
      → view (perform token_hash isoformat c rows) k ≡ step c (view rows) k
  unfolding register_runner authenticate_runner set_runner_enabled rotate_runner_token revoke_runner
      heartbeat_runner
  perform-step (Call.register key drawn p none token now) rows k = elim (Bool-cases (key == k)) [
    | inr o ↦ ap standing_of (get-put key k _ rows) ∙ rw o refl
    | inl o ↦ ap standing_of (get-put key k _ rows) ∙ rw o refl
  ]
  perform-step (Call.register key drawn p (some id) token now) rows k =
      elim (Option-cases (get id rows)) [
        | inl e ↦ rw e refl
        | inr (r, e) ↦
            elim (Bool-cases (digest_matches token_hash isoformat token r.auth_token_hash)) [
              | inr m ↦ rw (e, m) refl
              | inl m ↦ elim (Bool-cases (is_disabled r.status)) [
                | inl d ↦ rw (e, m, d) refl
                | inr d ↦
                    let r' = enrolled token_hash isoformat p r.auth_token_hash now in
                    rw (e, m, d) (unchanged id k r r' rows e (open_standing r r' d refl refl))
              ]
            ]
      ]
  perform-step (Call.enable id enabled now) rows k = elim (Option-cases (get id rows)) [
    | inl e ↦ rw e (absent id k rows (λ x. record x { barred = not enabled }) e)
    | inr (r, e) ↦ rw e (
        written id k r _ rows (λ x. record x { barred = not enabled }) e
          (ap (λ b. record { digest = r.auth_token_hash; barred = b }) (barred_by enabled)))
  ]
  perform-step (Call.rotate id drawn now) rows k = elim (Option-cases (get id rows)) [
    | inl e ↦ rw e (absent id k rows (λ x. record x { digest = some (token_hash drawn) }) e)
    | inr (r, e) ↦
        rw e (written id k r _ rows (λ x. record x { digest = some (token_hash drawn) }) e refl)
  ]
  perform-step (Call.revoke id drawn now) rows k = elim (Option-cases (get id rows)) [
    | inl e ↦
        rw e (absent id k rows (λ x. record { digest = some (token_hash drawn); barred = true }) e)
    | inr (r, e) ↦ rw e (
        written id k r _ rows (λ x. record { digest = some (token_hash drawn); barred = true }) e
          refl)
  ]
  perform-step (Call.heartbeat id p now) rows k = elim (Option-cases (get id rows)) [
    | inl e ↦ rw e refl
    | inr (r, e) ↦ elim (Bool-cases (is_disabled r.status)) [
      | inl d ↦ rw (e, d) refl
      | inr d ↦
          let r' = record r {
            hostname = p.hostname;
            platform = p.platform;
            capabilities = p.capabilities;
            metadata = p.metadata;
            status = RunnerStatus.online;
            last_seen_at = some now;
          } in
          rw (e, d) (unchanged id k r r' rows e (open_standing r r' d refl refl))
    ]
  ]

  same_step :
      (c : Call) (s s' : ℕ → Option Standing)
      → ((k : ℕ) → s k ≡ s' k)
      → (k : ℕ) → step c s k ≡ step c s' k
  same_step (Call.register key drawn p none token now) s s' h k = rw (h k) refl
  same_step (Call.register key drawn p (some id) token now) s s' h k = h k
  same_step (Call.enable id enabled now) s s' h k = rw (h k) refl
  same_step (Call.rotate id drawn now) s s' h k = rw (h k) refl
  same_step (Call.revoke id drawn now) s s' h k = rw (h k) refl
  same_step (Call.heartbeat id p now) s s' h k = h k

  same_steps :
      (calls : List Call) (s s' : ℕ → Option Standing)
      → ((k : ℕ) → s k ≡ s' k)
      → (k : ℕ) → steps calls s k ≡ steps calls s' k
  same_steps [] s s' h k = h k
  same_steps (c ∷ calls) s s' h k = same_steps calls (step c s) (step c s') (same_step c s s' h) k

  -- Any calls of the registry do to the view of its table what the steps say, calls that are refused
  -- included: enrolment enters a Runner, an operator bars or admits one, rotation and revocation replace
  -- a digest, and nothing that a Runner does itself, no heartbeat and no new registration, changes the
  -- standing of any.
  pub perform_all-steps :
      (calls : List Call) (rows : Table Runner) (k : ℕ)
      → view (perform_all token_hash isoformat calls rows) k ≡ steps calls (view rows) k
  perform_all-steps [] rows k = refl
  perform_all-steps (c ∷ calls) rows k =
      perform_all-steps calls (perform token_hash isoformat c rows) k
      ∙ same_steps calls (view (perform token_hash isoformat c rows)) (step c (view rows))
          (perform-step c rows) k
