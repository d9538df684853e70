-- ===== src/Database.antt =====
-- The statement `INSERT … ON CONFLICT (key) DO UPDATE … RETURNING` of services/automation/src/db/queries.ts
-- on a table kept as the list of its rows, and the `SELECT … WHERE key = …` that reads it. A key is a
-- test on rows.
pub mod Upsert
pub mod Types
pub mod Queries
use bell_markets.Prelude.{ℕ, Bool, true, false, List, [], ◌∷◌, Option, none, some, if◌then◌else◌}

module _ {A : Type 0} where
  -- `rows[0]` of `SELECT … WHERE key = …`
  unfoldable pub find : (A → Bool) → List A → Option A
  find matches [] = none
  find matches (row ∷ rows) = let rest = find matches rows in if matches row then some row else rest

  -- The row in conflict is updated in its place, and the fresh row is appended when there is none.
  unfoldable pub upsert : (A → Bool) → (A → A) → A → List A → List A
  upsert matches update fresh [] = fresh ∷ []
  upsert matches update fresh (row ∷ rows) =
      let rest = upsert matches update fresh rows in
      if matches row then update row ∷ rows else row ∷ rest

  -- The row that the statement returns, from the row that was there.
  abbrev pub upserted : (A → A) → A → Option A → A
  upserted update fresh none = fresh
  upserted update fresh (some row) = update row
