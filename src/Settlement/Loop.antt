-- ===== src/Settlement/Loop.antt =====
-- The loop over the holders: a turn settles a holder, or throws where the database rejects a balance.
use bell_markets.Prelude.{
  ℕ, ◌≡◌, refl, ◌∙◌, true, false, ap, Bool, ◌&&◌, List, [], ◌∷◌, inl, inr, Bool-cases,
  if◌then◌else◌,
}
use bell_markets.Prelude.Result.{ok, throw}
use bell_markets.Prelude.Result.{and_then-ok}
use bell_markets.Bytes.{Bytes}
use bell_markets.Database.Types.{HoldResult, won, lost, abstained, invalid, Tables}
use bell_markets.Database.Queries.{
  takes_balances, write_hold, hold_rejected, insert_user_market_hold, apply_result_to_user_streak,
}
use bell_markets.Settlement.{
  HandleSettleEventInput, TokenHolder, Counts, hold_of, determine_result, count_result,
  settle_holder, settle_holders,
}
use bell_markets.Settlement.Rows.{
  credited, settled, insert_hold-returns, apply_unless_abstained-then,
}

-- Whether a holder's balances are accepted.
abbrev pub takes : (Bytes → Bool) → TokenHolder → Bool
takes accepts holder = takes_balances accepts holder.yes_held holder.no_held

-- A turn of the loop does not throw for a holder whose balances are accepted.
pub settle_holder-eq :
    (input : HandleSettleEventInput) (event : ℕ) (holder : TokenHolder) (counts : Counts)
    (tables : Tables)
    → takes tables.accepts_numeric holder ≡ true
    → settle_holder input event holder counts tables ≡ (
      settled input event holder tables,
      ok (count_result (determine_result input.outcome holder.yes_held holder.no_held) counts),
    )
unfolding settle_holder insert_user_market_hold
settle_holder-eq input event holder counts tables taken =
    let hold = hold_of input event holder in
    let (id, returns) = insert_hold-returns hold tables in
    rw taken (
      and_then-ok (write_hold hold tables) _ returns
      ∙ apply_unless_abstained-then holder.owner_pubkey hold.result input.observed_at
          (write_hold hold tables).0 (count_result hold.result counts))

-- For any other holder it throws, and leaves the tables alone.
pub settle_holder-rejected :
    (input : HandleSettleEventInput) (event : ℕ) (holder : TokenHolder) (counts : Counts)
    (tables : Tables)
    → takes tables.accepts_numeric holder ≡ false
    → settle_holder input event holder counts tables ≡ (tables, throw hold_rejected)
unfolding settle_holder insert_user_market_hold
settle_holder-rejected input event holder counts tables refused = rw refused refl

pub settled-accepts_numeric :
    (input : HandleSettleEventInput) (event : ℕ) (holder : TokenHolder) (tables : Tables)
    → (settled input event holder tables).accepts_numeric ≡ tables.accepts_numeric
unfolding credited write_hold apply_result_to_user_streak
settled-accepts_numeric input event holder tables =
    go (determine_result input.outcome holder.yes_held holder.no_held)
  where
    go :
        (result : HoldResult)
        → (credited holder.owner_pubkey result input.observed_at
            (write_hold (hold_of input event holder) tables).0).accepts_numeric
          ≡ tables.accepts_numeric
    go won = refl
    go lost = refl
    go invalid = refl
    go abstained = refl

-- The holders before the first one whose balances are not accepted, and whether there is none such.
unfoldable pub accepted : (Bytes → Bool) → List TokenHolder → List TokenHolder
accepted accepts [] = []
accepted accepts (holder ∷ holders) =
    let rest = accepted accepts holders in if takes accepts holder then holder ∷ rest else []

unfoldable pub all_accepted : (Bytes → Bool) → List TokenHolder → Bool
all_accepted accepts [] = true
all_accepted accepts (holder ∷ holders) = takes accepts holder && all_accepted accepts holders

-- The tables behind the turns for some holders.
unfoldable pub all_settled : HandleSettleEventInput → ℕ → List TokenHolder → Tables → Tables
all_settled input event [] tables = tables
all_settled input event (holder ∷ holders) tables =
    all_settled input event holders (settled input event holder tables)

pub all_settled-accepts_numeric :
    (input : HandleSettleEventInput) (event : ℕ) (holders : List TokenHolder) (tables : Tables)
    → (all_settled input event holders tables).accepts_numeric ≡ tables.accepts_numeric
unfolding all_settled
all_settled-accepts_numeric input event [] tables = refl
all_settled-accepts_numeric input event (holder ∷ holders) tables =
    all_settled-accepts_numeric input event holders (settled input event holder tables)
    ∙ settled-accepts_numeric input event holder tables

-- The loop settles the holders up to the first that is not accepted.
pub settle_holders-tables :
    (input : HandleSettleEventInput) (event : ℕ) (holders : List TokenHolder) (counts : Counts)
    (tables : Tables)
    → (settle_holders input event holders counts tables).0
      ≡ all_settled input event (accepted tables.accepts_numeric holders) tables
unfolding settle_holders accepted all_settled
settle_holders-tables input event [] counts tables = refl
settle_holders-tables input event (holder ∷ holders) counts tables =
    elim (Bool-cases (takes tables.accepts_numeric holder)) [
      | inl taken ↦
          rw (settle_holder-eq input event holder counts tables taken, taken)
            (settle_holders-tables input event holders _ (settled input event holder tables)
              ∙ ap
                  (λ accepts.
                    all_settled input event (accepted accepts holders)
                      (settled input event holder tables))
                  (settled-accepts_numeric input event holder tables))
      | inr refused ↦
          rw (settle_holder-rejected input event holder counts tables refused, refused) refl
    ]
