-- ===== src/Database/Upsert.antt =====
-- What a table holds at a key after an upsert at that key and at another one.
use bell_markets.Prelude.{
  Bool, true, false, List, [], ◌∷◌, some, ◌≡◌, arith, refl, ap, inl, inr, Bool-cases,
}
use bell_markets.Database.{find, upsert, upserted}

module _ {A : Type 0} (matches : A → Bool) (update : A → A) (fresh : A) where
  -- At its key the upsert leaves the row that it returns.
  pub find-upsert :
      ((row : A) → matches row ≡ true → matches (update row) ≡ true)
      → matches fresh ≡ true
      → (rows : List A)
      → find matches (upsert matches update fresh rows)
        ≡ some (upserted update fresh (find matches rows))
  unfolding find upsert
  find-upsert kept holds [] = rw holds refl
  find-upsert kept holds (row ∷ rows) = elim (Bool-cases (matches row)) [
    | inl hit ↦ rw (hit, kept row hit) refl
    | inr miss ↦ rw (miss, miss) (find-upsert kept holds rows)
  ]

  -- A key that neither the fresh row nor the rows in conflict have reads what it read.
  pub find-upsert_other :
      (other : A → Bool)
      → ((row : A) → matches row ≡ true → other row ≡ false)
      → ((row : A) → matches row ≡ true → other (update row) ≡ false)
      → other fresh ≡ false
      → (rows : List A) → find other (upsert matches update fresh rows) ≡ find other rows
  unfolding find upsert
  find-upsert_other other apart updated absent [] = rw absent refl
  find-upsert_other other apart updated absent (row ∷ rows) =
      let rest = find-upsert_other other apart updated absent rows in
      elim (Bool-cases (matches row)) [
        | inl hit ↦ rw (hit, apart row hit, updated row hit) refl
        | inr miss ↦ rw (miss, rest) refl
      ]

-- An update that changes nothing leaves a table with the key as it is.
pub upsert-found :
    {A : Type 0} (matches : A → Bool) (fresh : A) (rows : List A) {row : A}
    → find matches rows ≡ some row
    → upsert matches (λ r. r) fresh rows ≡ rows
unfolding find upsert
upsert-found matches fresh [] found = cc
upsert-found matches fresh (r ∷ rows) {row} found = elim (Bool-cases (matches r)) [
  | inl hit ↦ rw hit refl
  | inr miss ↦
      let rest : find matches rows ≡ some row = rw miss at found in
      rw miss (ap (◌∷◌ r) (upsert-found matches fresh rows rest))
]

-- The row that a key reads has the key.
pub find-matches :
    {A : Type 0} (matches : A → Bool) (rows : List A) {row : A}
    → find matches rows ≡ some row
    → matches row ≡ true
unfolding find
find-matches matches [] found = cc
find-matches matches (r ∷ rows) {row} found = elim (Bool-cases (matches r)) [
  | inl hit ↦ ground arith
  | inr miss ↦
      let rest : find matches rows ≡ some row = rw miss at found in find-matches matches rows rest
]
