-- ===== src/Table/Final.antt =====
-- Writes that leave the final rows of a table alone.
use relayvia.Prelude.{ℕ, ◌≡◌, Bool, true, false, any, some, arith, ◌==◌, inl, inr, Bool-cases}
use relayvia.Table.{Table, get, put, get-put, keys_where, keys_where_complete}

module _ {ℓ} {A : Type ℓ} where
  abbrev pub Keeps : (A → Bool) → Table A → Table A → Type ℓ
  Keeps final a b = (j : ℕ) (x : A) → get j a ≡ some x → final x ≡ true → get j b ≡ some x

  -- The row under `j` does not pass the test, if there is one.
  abbrev pub Avoids : (A → Bool) → ℕ → Table A → Type ℓ
  Avoids p j b = (x : A) → get j b ≡ some x → p x ≡ false

  pub put-Keeps :
      (final : A → Bool) (k : ℕ) (x y : A) (a : Table A)
      → get k a ≡ some x
      → final x ≡ false
      → Keeps final a (put k y a)
  put-Keeps final k x y a at open_row j z h f = ground (arith, get-put k j y a)

  pub put-Avoids :
      (p : A → Bool) (k j : ℕ) (y : A) (a : Table A)
      → p y ≡ false
      → Avoids p j a
      → Avoids p j (put k y a)
  put-Avoids p k j y a clear avoids x h = ground (arith, get-put k j y a, avoids x)

  pub put-Avoids_self :
      (p : A → Bool) (k : ℕ) (y : A) (a : Table A) → p y ≡ false → Avoids p k (put k y a)
  put-Avoids_self p k y a clear x h = ground (arith, get-put k k y a)

  -- a write of what the row already has
  pub same-Keeps :
      (final : A → Bool) (k : ℕ) (x : A) (a : Table A)
      → get k a ≡ some x
      → Keeps final a (put k x a)
  same-Keeps final k x a at j z h f = ground (arith, get-put k j x a)

  pub same-Avoids :
      (p : A → Bool) (k j : ℕ) (x : A) (a : Table A)
      → get k a ≡ some x
      → Avoids p j a
      → Avoids p j (put k x a)
  same-Avoids p k j x a at avoids z h = ground (arith, get-put k j x a, avoids z)

  -- a key that the query does not select
  pub unselected-Avoids :
      (p : A → Bool) (j : ℕ) (a : Table A)
      → any (λ k. k == j) (keys_where p a) ≡ false
      → Avoids p j a
  unselected-Avoids p j a out x h = elim (Bool-cases (p x)) [
    | inr e ↦ e
    | inl e ↦ absurd (cc (keys_where_complete p j x a h e, out))
  ]
