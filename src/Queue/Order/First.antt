-- ===== src/Queue/Order/First.antt =====
-- `order_by(...).limit(1)` of the candidate query: the order of the rows, and the row it takes.
use relayvia.Prelude.{
  ℕ, Bool, true, false, Option, none, some, ◌≡◌, refl, sym, ap, subst, inl, inr, [], ◌∷◌, arith,
  Bool-cases, Memᴰ,
}
use relayvia.Table.{Table}
use relayvia.Db.{ExecutionTask}
use relayvia.Queue.Claim.{precedes, better, first_of_order}

-- `precedes` is a strict order whose incomparable rows form classes.
precedes_weak :
    (a b c : ExecutionTask) → precedes a b ≡ false → precedes b c ≡ false → precedes a c ≡ false
unfolding precedes
precedes_weak a b c h k = ground arith

precedes_asym : (a b : ExecutionTask) → precedes a b ≡ true → precedes b a ≡ false
unfolding precedes
precedes_asym a b h = ground arith

precedes_irrefl : (a : ExecutionTask) → precedes a a ≡ false
unfolding precedes
precedes_irrefl a = ground arith

-- The chosen row is selected, and no selected row comes before it.
abbrev pub Best : (ExecutionTask → Bool) → Table ExecutionTask → Option (ℕ × ExecutionTask) → Type 0
Best p rows none = (j : ℕ) (u : ExecutionTask) → Memᴰ (j, u) rows → p u ≡ false
Best p rows (some (k, t)) =
    Memᴰ (k, t) rows
    × (p t ≡ true)
    × ((j : ℕ) (u : ExecutionTask) → Memᴰ (j, u) rows → p u ≡ true → precedes u t ≡ false)

module _ (p : ExecutionTask → Bool) (k : ℕ) (t : ExecutionTask) (rows : Table ExecutionTask) where
  -- What holds of the new row and of the others holds of all.
  of_rows :
      (Q : ExecutionTask → Type 0)
      → Q t
      → ((j : ℕ) (u : ExecutionTask) → Memᴰ (j, u) rows → Q u)
      → (j : ℕ) (u : ExecutionTask) → Memᴰ (j, u) ((k, t) ∷ rows)
      → Q u
  of_rows Q q h j u (Memᴰ.head e) = subst Q (sym (ap (λ r. r.1) e)) q
  of_rows Q q h j u (Memᴰ.tail m) = h j u m

  better-Best :
      (best : Option (ℕ × ExecutionTask))
      → p t ≡ true
      → Best p rows best
      → Best p ((k, t) ∷ rows) (better k t best)
  better-Best none pt h = (
    Memᴰ.head refl,
    pt,
    of_rows (λ u. p u ≡ true → precedes u t ≡ false) (λ _. precedes_irrefl t)
        (λ j u m pu. absurd (cc (h j u m, pu))),
  )
  better-Best (some (i, b)) pt (at, pb, first) = elim (Bool-cases (precedes b t)) [
    | inl e ↦ rw e (
      Memᴰ.tail at,
      pb,
      of_rows (λ u. p u ≡ true → precedes u b ≡ false) (λ _. precedes_asym b t e) first,
    )
    | inr e ↦ rw e (
      Memᴰ.head refl,
      pt,
      of_rows (λ u. p u ≡ true → precedes u t ≡ false) (λ _. precedes_irrefl t)
          (λ j u m pu. precedes_weak u b t (first j u m pu) e),
    )
  ]

  skipped-Best :
      (best : Option (ℕ × ExecutionTask))
      → p t ≡ false
      → Best p rows best
      → Best p ((k, t) ∷ rows) best
  skipped-Best none pt h = of_rows (λ u. p u ≡ false) pt h
  skipped-Best (some (i, b)) pt (at, pb, first) = (
    Memᴰ.tail at,
    pb,
    of_rows (λ u. p u ≡ true → precedes u b ≡ false) (λ pu. absurd (cc (pt, pu))) first,
  )

pub first_of_order-Best :
    (p : ExecutionTask → Bool) (rows : Table ExecutionTask) → Best p rows (first_of_order p rows)
unfolding first_of_order
first_of_order-Best p [] = λ j u m. elim m [ ]
first_of_order-Best p ((k, t) ∷ rows) = elim (Bool-cases (p t)) [
  | inl e ↦ rw e (better-Best p k t rows (first_of_order p rows) e (first_of_order-Best p rows))
  | inr e ↦ rw e (skipped-Best p k t rows (first_of_order p rows) e (first_of_order-Best p rows))
]
