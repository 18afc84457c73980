-- ===== src/Infrastructure/Retry/First.antt =====
-- What the retries of a transaction come to.
use relayvia.Prelude.{
  ℕ, zero, suc, ◌+◌, ◌*◌, ◌^◌, ◌≤◌, ◌<◌, Bool, true, false, List, [], ◌∷◌, ◌==◌, leb, ◌≡◌, ◌⊎◌,
  refl, sym, ap, ◌∙◌, subst, inl, inr, arith, Bool-cases,
}
use relayvia.Infrastructure.Retry.{
  Exception, Outcome, returned, raised, is_retryable_mysql_transaction_error, attempts_from,
  retry_mysql_transaction,
}

abbrev pub is_transient {ℓ} : {A : Type ℓ} → Outcome A → Bool
is_transient (returned a) = false
is_transient (raised exc) = is_retryable_mysql_transaction_error exc

-- the delays after the attempts from `first` on, one for each of `count`
abbrev pub doubling : ℕ → ℕ → ℕ → List ℕ
doubling base first zero = []
doubling base first (suc count) = base * 2 ^ first ∷ doubling base (first + 1) count

-- The attempt after `count` more than `first` decides: those before it were transient failures, and it
-- is not, or it is the last.
pub record Decides {A : Type 0} (attempts base_delay : ℕ) (operation : ℕ → Outcome A)
    (first count : ℕ) (run : Outcome A × List ℕ) : Type 0 where
  pub within : first + count < attempts
  pub result : run.0 ≡ operation (first + count)
  pub before : (j : ℕ) → first ≤ j → j < first + count → is_transient (operation j) ≡ true
  pub decided : (is_transient (operation (first + count)) ≡ false) ⊎ (first + count + 1 ≡ attempts)
  pub slept : run.1 ≡ doubling base_delay first count

module _ {A : Type 0} (attempts base_delay : ℕ) (operation : ℕ → Outcome A) where
  at_once :
      (first left : ℕ)
      → first + suc left ≡ attempts
      → (o : Outcome A) → operation first ≡ o
      → attempts_from attempts base_delay operation first (suc left) ≡ (o, [])
      → (is_transient o ≡ false) ⊎ (first + 1 ≡ attempts)
      → Decides attempts base_delay operation first 0
          (attempts_from attempts base_delay operation first (suc left))
  at_once first left e o at run d =
      let z : first + 0 ≡ first = ground arith in
      record {
        within = ground arith;
        result = ap (λ r. r.0) run ∙ sym at ∙ ap operation (sym z);
        before = λ j l u. absurd (ground arith);
        decided =
            subst (λ i. (is_transient (operation i) ≡ false) ⊎ (i + 1 ≡ attempts)) (sym z)
              (subst (λ o. (is_transient o ≡ false) ⊎ (first + 1 ≡ attempts)) (sym at) d);
        slept = ap (λ r. r.1) run;
      }

  stopped :
      (first left : ℕ) (o : Outcome A)
      → operation first ≡ o
      → (is_transient o ≡ false) ⊎ (leb attempts (first + 1) ≡ true)
      → attempts_from attempts base_delay operation first (suc left) ≡ (o, [])
  unfolding attempts_from
  stopped first left (returned a) at d = rw (at, attempts_from) refl
  stopped first left (raised exc) at (inl d) = rw (at, d, attempts_from) refl
  stopped first left (raised exc) at (inr d) = rw (at, d, attempts_from) (ground arith)

  went_on :
      (first left : ℕ) (exc : Exception)
      → operation first ≡ raised exc
      → is_retryable_mysql_transaction_error exc ≡ true
      → leb attempts (first + 1) ≡ false
      → attempts_from attempts base_delay operation first (suc left) ≡ (
        (attempts_from attempts base_delay operation (first + 1) left).0,
        base_delay * 2 ^ first ∷ (attempts_from attempts base_delay operation (first + 1) left).1,
      )
  unfolding attempts_from
  went_on first left exc at transient more = rw (at, transient, more, attempts_from) refl

  later :
      (first left count : ℕ) (exc : Exception)
      → operation first ≡ raised exc
      → is_retryable_mysql_transaction_error exc ≡ true
      → leb attempts (first + 1) ≡ false
      → Decides attempts base_delay operation
          (first + 1)
          count
          (attempts_from attempts base_delay operation (first + 1) left)
      → Decides attempts base_delay operation first
          (suc count)
          (attempts_from attempts base_delay operation first (suc left))
  later first left count exc at transient more d =
      let z : first + 1 + count ≡ first + suc count = ground arith in
      let on = went_on first left exc at transient more in
      record {
        within = subst (λ i. i < attempts) z d.within;
        result = ap (λ r. r.0) on ∙ d.result ∙ ap operation z;
        before = λ j l u. elim (Bool-cases (j == first)) [
          | inl e ↦
              ap (λ i. is_transient (operation i)) (ground arith) ∙ ap is_transient at ∙ transient
          | inr e ↦ d.before j (ground arith) (ground arith)
        ];
        decided =
            subst (λ i. (is_transient (operation i) ≡ false) ⊎ (i + 1 ≡ attempts)) z d.decided;
        slept = ap (λ r. r.1) on ∙ ap (λ delays. base_delay * 2 ^ first ∷ delays) d.slept;
      }

  -- a transient failure is an exception
  failure :
      (o : Outcome A)
      → is_transient o ≡ true
      → (exc : Exception) × (o ≡ raised exc) × (is_retryable_mysql_transaction_error exc ≡ true)
  failure (returned a) t = absurd (cc t)
  failure (raised exc) t = (exc, refl, t)

  decides_from :
      (left first : ℕ)
      → first + suc left ≡ attempts
      → (count : ℕ) × Decides attempts base_delay operation first count
          (attempts_from attempts base_delay operation first (suc left))
  decides_from zero first e =
      let o = operation first in
      (
        0,
        at_once first zero e o refl (stopped first zero o refl (inr (ground arith)))
            (inr (ground arith)),
      )
  decides_from (suc left) first e = elim (Bool-cases (is_transient (operation first))) [
    | inr t ↦
        let o = operation first in
        (0, at_once first (suc left) e o refl (stopped first (suc left) o refl (inl t)) (inl t))
    | inl t ↦
        let (exc, at, transient) = failure (operation first) t in
        let (count, d) = decides_from left (first + 1) (ground arith) in
        (suc count, later first (suc left) count exc at transient (ground arith) d)
  ]

  -- With at least one attempt, the retries stop: they come to what the first attempt that is no
  -- transient failure came to, or the last attempt if there is none, and they slept once after each
  -- attempt before it, twice as long each time.
  pub retry_decides :
      0 < attempts
      → (count : ℕ) × Decides attempts base_delay operation 0 count
          (retry_mysql_transaction attempts base_delay operation)
  unfolding retry_mysql_transaction
  retry_decides h =
      let (left, e) = one_more attempts h in
      subst
        (λ n.
          (count : ℕ) × Decides attempts base_delay operation 0 count
            (attempts_from attempts base_delay operation 0 n))
        (sym e) (decides_from left 0 (ground arith))
    where
      one_more : (n : ℕ) → 0 < n → (left : ℕ) × (n ≡ suc left)
      one_more zero h = absurd (ground arith)
      one_more (suc left) h = (left, refl)
