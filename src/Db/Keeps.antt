-- ===== src/Db/Keeps.antt =====
-- What holds of the state that a transaction commits.
use relayvia.Prelude.{
  ℕ, Bool, true, false, ◌≡◌, refl, subst, inl, inr, Bool-cases, any, ◌==◌, arith, List, [], ◌∷◌,
  if◌then◌else◌,
}
use relayvia.Errors.{Result, ok, err}
use relayvia.Db.{Db, Tx, pure, continue, committed, for_each}

-- The state that a transaction commits satisfies `P`.
abbrev pub Commits : {A : Type 0} → (Db → Type 0) → Result (A × Db) → Type 0
Commits P (ok (a, db)) = P db
Commits P (err e) = Unit

module _ {A B : Type 0} (P : Db → Type 0) where
  pub Commits-continue :
      (r : Result (A × Db)) (f : A → Tx B)
      → Commits P r
      → ((a : A) (db : Db) → P db → Commits P (f a db))
      → Commits P (continue r f)
  Commits-continue (ok (a, db)) f h k = k a db h
  Commits-continue (err e) f h k = tt

  pub Commits-then :
      (r : Result (A × Db)) (b : B) → Commits P r → Commits P (continue r (λ _. pure b))
  Commits-then (ok (a, db)) b h = h
  Commits-then (err e) b h = tt

-- What the first call ensures is enough for the second.
pub Commits-after :
    {A B : Type 0} (P Q : Db → Type 0) (r : Result (A × Db)) (f : A → Tx B)
    → Commits P r
    → ((a : A) (db : Db) → P db → Commits Q (f a db))
    → Commits Q (continue r f)
Commits-after P Q (ok (a, db)) f h k = k a db h
Commits-after P Q (err e) f h k = tt

module _ {A : Type 0} (P : Db → Type 0) where
  pub Commits-if :
      (b : Bool) (r s : Result (A × Db))
      → (b ≡ true → Commits P r)
      → (b ≡ false → Commits P s)
      → Commits P (if b then r else s)
  Commits-if true r s h k = h refl
  Commits-if false r s h k = k refl

  pub Commits-if_tx :
      (b : Bool) (m n : Tx A) (db : Db)
      → (b ≡ true → Commits P (m db))
      → (b ≡ false → Commits P (n db))
      → Commits P ((if b then m else n) db)
  Commits-if_tx true m n db h k = h refl
  Commits-if_tx false m n db h k = k refl

  pub Commits-imp :
      (Q : Db → Type 0) (r : Result (A × Db))
      → ((db : Db) → P db → Q db)
      → Commits P r
      → Commits Q r
  Commits-imp Q (ok (a, db)) f h = f db h
  Commits-imp Q (err e) f h = tt

  pub Commits-committed : (r : Result (A × Db)) (db : Db) → P db → Commits P r → P (committed r db)
  Commits-committed (ok (a, db')) db h k = k
  Commits-committed (err e) db h k = h

module _ (P : Db → Type 0) (body : ℕ → Tx (Unit {0}))
    (keep : (k : ℕ) (db : Db) → P db → Commits P (body k db)) where
  pub Commits-for_each : (keys : List ℕ) (db : Db) → P db → Commits P (for_each body keys db)
  unfolding for_each
  Commits-for_each [] db h = h
  Commits-for_each (k ∷ keys) db h =
      Commits-continue P (body k db) (λ _. for_each body keys) (keep k db h)
        (λ _ db' h'. Commits-for_each keys db' h')

-- What is known of a committed state, when the call after it returns a value.
pub Commits-returned :
    {A B : Type 0} (Q : Db → Type 0) (r : Result (A × Db)) (b c : B) (db : Db)
    → Commits Q r
    → continue r (λ _. pure b) ≡ ok (c, db)
    → Q db × (c ≡ b)
Commits-returned Q (ok (a, db')) b c db h e = let same : db' ≡ db = cc in (subst Q same h, cc)
Commits-returned Q (err x) b c db h e = cc

-- The transaction commits, and the state that it commits satisfies `P`.
abbrev pub Returns : {A : Type 0} → (Db → Type 0) → Result (A × Db) → Type 0
Returns P (ok (a, db)) = P db
Returns P (err e) = ⊥

pub Returns-continue :
    {A B : Type 0} (P Q : Db → Type 0) (r : Result (A × Db)) (f : A → Tx B)
    → Returns P r
    → ((a : A) (db : Db) → P db → Returns Q (f a db))
    → Returns Q (continue r f)
Returns-continue P Q (ok (a, db)) f h k = k a db h
Returns-continue P Q (err e) f h k = absurd h

pub Returns-imp :
    {A : Type 0} (P Q : Db → Type 0) (r : Result (A × Db))
    → ((db : Db) → P db → Q db)
    → Returns P r
    → Returns Q r
Returns-imp P Q (ok (a, db)) f h = f db h
Returns-imp P Q (err e) f h = h

-- A loop whose rounds each reach a goal of their own, and undo no goal.
module _ (P : Db → Type 0) (Goal : ℕ → Db → Type 0) (body : ℕ → Tx (Unit {0}))
    (round : (k : ℕ) (db : Db)
      → P db
      → Returns (λ d. P d × Goal k d × ((j : ℕ) → Goal j db → Goal j d)) (body k db)) where
  pub Returns-for_each :
      (keys : List ℕ) (db : Db)
      → P db
      → Returns
          (λ d.
            P d
            × ((j : ℕ) → Goal j db → Goal j d)
            × ((j : ℕ) → any (λ k. k == j) keys ≡ true → Goal j d))
          (for_each body keys db)
  unfolding for_each
  Returns-for_each [] db h = (h, λ j g. g, λ j m. cc)
  Returns-for_each (k ∷ keys) db h =
      Returns-continue (λ d. P d × Goal k d × ((j : ℕ) → Goal j db → Goal j d)) _ (body k db)
        (λ _. for_each body keys) (round k db h)
        (λ _ d (p, done, kept).
          Returns-imp _ _ (for_each body keys d)
            (λ e (p', kept', reached). (
              p',
              λ j g. kept' j (kept j g),
              λ j m. elim (Bool-cases (k == j)) [
                | inl same ↦ kept' j (subst (λ i. Goal i d) (ground arith) done)
                | inr other ↦ reached j (ground arith)
              ],
            ))
            (Returns-for_each keys d p))
