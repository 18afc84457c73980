-- ===== src/Table/Keys.antt =====
-- The keys of a table.
use relayvia.Prelude.{
  ℕ, ◌≡◌, refl, subst, Bool, true, false, some, List, [], ◌∷◌, any, arith, ◌==◌, inl, inr,
  Bool-cases,
}
use relayvia.Table.{Table, get, put, keys_where, no_keys}

module _ {ℓ} {A : Type ℓ} where
  abbrev pub keys : Table A → List ℕ
  keys [] = []
  keys ((k, a) ∷ rows) = k ∷ keys rows

  -- a write to a row that is there
  pub keys-put :
      (k : ℕ) (a b : A) (rows : Table A) → get k rows ≡ some a → keys (put k b rows) ≡ keys rows
  unfolding get put
  keys-put k a b [] h = cc
  keys-put k a b ((j, c) ∷ rows) h = ground (arith, keys-put k a b rows)

  key-get :
      (k : ℕ) (a : A) (rows : Table A) → get k rows ≡ some a → any (λ j. j == k) (keys rows) ≡ true
  unfolding get
  key-get k a [] h = cc
  key-get k a ((j, c) ∷ rows) h = ground (arith, key-get k a rows)

  -- A query that fails at the row of every key selects nothing, if no key comes twice.
  pub no_keys-keys_where :
      (distinct : List ℕ → Bool) (p : A → Bool) (rows : Table A)
      → ((x : ℕ) (xs : List ℕ)
          → distinct (x ∷ xs) ≡ true
          → (any (λ y. y == x) xs ≡ false) × (distinct xs ≡ true))
      → distinct (keys rows) ≡ true
      → ((k : ℕ) (a : A) → get k rows ≡ some a → p a ≡ false)
      → no_keys (keys_where p rows) ≡ true
  unfolding get keys_where
  no_keys-keys_where distinct p [] tail d h = refl
  no_keys-keys_where distinct p ((j, c) ∷ rows) tail d h =
      let (alone, more) = tail j (keys rows) d in
      let here : p c ≡ false = h j c (ground arith) in
      rw here (
        no_keys-keys_where distinct p rows tail more (λ k a e. elim (Bool-cases (j == k)) [
          | inr o ↦ h k a (rw o e)
          | inl s ↦
              let at : k ≡ j = ground arith in
              let inside =
                subst (λ i. any (λ y. y == i) (keys rows) ≡ true) at (key-get k a rows e) in
              absurd (cc (alone, inside))
        ]))
