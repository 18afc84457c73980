-- ===== src/Table.antt =====
-- A table of the database: rows under a numeric primary key, in the order of insertion.
pub mod Final
pub mod Keys
use relayvia.Prelude.{
  ℕ, ◌≡◌, refl, Bool, true, false, any, filter, Option, none, some, List, [], ◌∷◌, arith, ◌==◌,
  if◌then◌else◌,
}

abbrev pub Table {ℓ} : Type ℓ → Type ℓ
Table A = List (ℕ × A)

abbrev pub no_keys : List ℕ → Bool
no_keys [] = true
no_keys (k ∷ keys) = false

module _ {ℓ} {A : Type ℓ} where
  unfoldable pub get : ℕ → Table A → Option A
  get k [] = none
  get k ((j, a) ∷ rows) = if j == k then some a else get k rows

  -- A write to the row of key `k`, a new row at the end if there is none.
  unfoldable pub put : ℕ → A → Table A → Table A
  put k a [] = (k, a) ∷ []
  put k a ((j, b) ∷ rows) = if j == k then (j, a) ∷ rows else (j, b) ∷ put k a rows

  -- The keys of the rows that a query selects, in the table's order.
  unfoldable pub keys_where : (A → Bool) → Table A → List ℕ
  keys_where p [] = []
  keys_where p ((j, a) ∷ rows) = let rest = keys_where p rows in if p a then j ∷ rest else rest

  abbrev chosen : (A → Bool) → ℕ → Option A → Table A → Table A
  chosen p k none rest = rest
  chosen p k (some a) rest = if p a then (k, a) ∷ rest else rest

  -- The rows under these keys that pass a test.
  unfoldable pub rows_at : (A → Bool) → List ℕ → Table A → Table A
  rows_at p [] rows = []
  rows_at p (k ∷ keys) rows = let rest = rows_at p keys rows in chosen p k (get k rows) rest

  -- The rows that a query selects, in the table's order.
  unfoldable pub rows_where : (A → Bool) → Table A → Table A
  unfolding rows_at keys_where
  rows_where p rows = rows_at p (keys_where p rows) rows

  -- One write after another.
  unfoldable pub put_all : Table A → Table A → Table A
  unfolding put
  put_all [] rows = rows
  put_all ((k, a) ∷ changed) rows = put_all changed (put k a rows)

  pub get-put :
      (k j : ℕ) (a : A) (rows : Table A)
      → get j (put k a rows) ≡ (if k == j then some a else get j rows)
  unfolding get put
  get-put k j a [] = refl
  get-put k j a ((i, b) ∷ rows) = ground (arith, get-put k j a rows)

  pub get-put_self : (k : ℕ) (a : A) (rows : Table A) → get k (put k a rows) ≡ some a
  get-put_self k a rows = ground (arith, get-put k k a rows)

  -- A query that selects nothing fails at every row.
  pub no_keys-get :
      (p : A → Bool) (k : ℕ) (a : A) (rows : Table A)
      → no_keys (keys_where p rows) ≡ true
      → get k rows ≡ some a
      → p a ≡ false
  unfolding get keys_where
  no_keys-get p k a [] none_left h = cc
  no_keys-get p k a ((j, b) ∷ rows) none_left h = ground (arith, no_keys-get p k a rows)

  -- A query selects the key of every row that passes its test.
  pub keys_where_complete :
      (p : A → Bool) (k : ℕ) (a : A) (rows : Table A)
      → get k rows ≡ some a
      → p a ≡ true
      → any (λ j. j == k) (keys_where p rows) ≡ true
  unfolding get keys_where
  keys_where_complete p k a [] h pa = cc
  keys_where_complete p k a ((j, b) ∷ rows) h pa = ground (arith, keys_where_complete p k a rows)

-- A key that a filter lets through stays.
pub any-filter :
    (p : ℕ → Bool) (k : ℕ) (keys : List ℕ)
    → any (λ j. j == k) keys ≡ true
    → p k ≡ true
    → any (λ j. j == k) (filter p keys) ≡ true
any-filter p k [] h pk = h
any-filter p k (j ∷ keys) h pk = ground (arith, any-filter p k keys)
