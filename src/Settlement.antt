-- ===== src/Settlement.antt =====
-- services/automation/src/indexer/settle-event-handler.ts: what a settled market writes to the tables
-- settle_events, user_market_holds and user_streaks, and what its handler returns. The query for the
-- token holders is a parameter, which may reject; an insertion of the database is rejected only for a
-- balance that a NUMERIC column does not take.
pub mod Rows
pub mod Loop
pub mod History
pub mod Streaks
pub mod Tally
pub mod Keys
pub mod Replay
use bell_markets.Prelude.{
  ℕ, ◌+◌, Bool, true, false, not, ◌&&◌, List, [], ◌∷◌, Option, none, some, length, if◌then◌else◌,
}
use bell_markets.Prelude.Int.{ℤ, is_positive}
use bell_markets.Prelude.Result.{Result, ok, throw}
use bell_markets.Prelude.Result.{and_then}
use bell_markets.Bytes.{Bytes}
use bell_markets.Database.Types.{
  Balance, Outcome, outcome_yes, outcome_no, outcome_invalid, outcome_unsettled, HoldResult, won,
  lost, abstained, invalid, UserMarketHold, UserStreak, Tables, SettleEventInput,
}
use bell_markets.Database.Queries.{
  Failure, Ran, insert_settle_event, insert_user_market_hold, apply_result_to_user_streak,
}

pub record TokenHolder : Type 0 where
  pub owner_pubkey : Bytes
  pub yes_held : Balance
  pub no_held : Balance

pub record HandleSettleEventInput : Type 0 where
  pub market_pubkey : Bytes
  pub yes_mint : Bytes
  pub no_mint : Bytes
  pub ticker : Option Bytes
  pub expiry_unix : ℕ
  pub outcome : Outcome
  pub settle_price : Option Bytes
  pub settle_slot : Option ℕ
  pub tx_sig : Bytes
  pub observed_at : ℕ

pub record HandleSettleEventResult : Type 0 where
  pub settle_event_id : ℕ
  pub holders_processed : ℕ
  pub winners : ℕ
  pub losers : ℕ
  pub invalid_positions : ℕ
  pub abstainers : ℕ

-- `Number.isFinite(y) ? y : 0`, and whether that is above 0.
abbrev is_above_zero : Option ℤ → Bool
is_above_zero none = false
is_above_zero (some y) = is_positive y

abbrev pub is_held : Balance → Bool
is_held balance = is_above_zero balance.number

abbrev decided : Outcome → Bool → Bool → HoldResult
decided outcome_invalid yes_held no_held = invalid
decided outcome_yes yes_held no_held = if yes_held then won else lost
decided outcome_no yes_held no_held = if no_held then won else lost
decided outcome_unsettled yes_held no_held = abstained

unfoldable pub determine_result : Outcome → Balance → Balance → HoldResult
determine_result outcome yes_held no_held =
    if not (is_held yes_held) && not (is_held no_held)
    then abstained
    else decided outcome (is_held yes_held) (is_held no_held)

pub record Counts : Type 0 where
  pub winners : ℕ
  pub losers : ℕ
  pub invalid_positions : ℕ
  pub abstainers : ℕ

-- The `switch` on the result.
unfoldable pub count_result : HoldResult → Counts → Counts
count_result won counts = record counts { winners = counts.winners + 1 }
count_result lost counts = record counts { losers = counts.losers + 1 }
count_result invalid counts = record counts { invalid_positions = counts.invalid_positions + 1 }
count_result abstained counts = record counts { abstainers = counts.abstainers + 1 }

-- `if (result !== "abstained") await applyResultToUserStreak(…)`
abbrev pub apply_unless_abstained : Bytes → HoldResult → ℕ → Tables → Ran (Option UserStreak)
apply_unless_abstained user abstained at tables = (tables, ok none)
apply_unless_abstained user result at tables =
    and_then (apply_result_to_user_streak user result at tables)
      (λ after row. (after, ok (some row)))

-- What `insertUserMarketHold` is given for a holder; the database fills the `id`.
abbrev pub hold_of : HandleSettleEventInput → ℕ → TokenHolder → UserMarketHold
hold_of input event holder = record {
  id = 0;
  settle_event_id = event;
  user_pubkey = holder.owner_pubkey;
  market_pubkey = input.market_pubkey;
  yes_held = holder.yes_held;
  no_held = holder.no_held;
  outcome = input.outcome;
  result = determine_result input.outcome holder.yes_held holder.no_held;
}

-- One turn of the loop over the holders.
unfoldable pub settle_holder :
    HandleSettleEventInput → ℕ → TokenHolder → Counts → Tables → Ran Counts
settle_holder input event holder counts tables =
    let hold = hold_of input event holder in
    and_then (insert_user_market_hold hold tables) (λ held hold_id.
      and_then (apply_unless_abstained holder.owner_pubkey hold.result input.observed_at held)
        (λ after streak. (after, ok (count_result hold.result counts))))

unfoldable pub settle_holders :
    HandleSettleEventInput → ℕ → List TokenHolder → Counts → Tables → Ran Counts
settle_holders input event [] counts tables = (tables, ok counts)
settle_holders input event (holder ∷ holders) counts tables =
    and_then (settle_holder input event holder counts tables)
      (λ after counted. settle_holders input event holders counted after)

abbrev pub no_counts : Counts
no_counts = record { winners = 0; losers = 0; invalid_positions = 0; abstainers = 0 }

abbrev pub answer_of : ℕ → List TokenHolder → Counts → HandleSettleEventResult
answer_of id holders counts = record {
  settle_event_id = id;
  holders_processed = length holders;
  winners = counts.winners;
  losers = counts.losers;
  invalid_positions = counts.invalid_positions;
  abstainers = counts.abstainers;
}

-- The rest of `handleSettleEvent`, from the loop on.
abbrev pub settle_all :
    HandleSettleEventInput → ℕ → Tables → List TokenHolder → Ran HandleSettleEventResult
settle_all input id tables holders =
    and_then (settle_holders input id holders no_counts tables)
      (λ after counts. (after, ok (answer_of id holders counts)))

-- `settleEventInput` of `handleSettleEvent`
abbrev pub settle_event_input : HandleSettleEventInput → SettleEventInput
settle_event_input input = record {
  market_pubkey = input.market_pubkey;
  ticker = input.ticker;
  expiry_unix = input.expiry_unix;
  outcome = input.outcome;
  settle_price = input.settle_price;
  settle_slot = input.settle_slot;
  tx_sig = input.tx_sig;
}

-- `handleSettleEvent`, with what the query for the holders answers.
unfoldable pub handle_settle_event :
    (Bytes → Bytes → Bytes → Option ℕ → Result Failure (List TokenHolder))
    → HandleSettleEventInput
    → Tables
    → Ran HandleSettleEventResult
handle_settle_event fetch_token_holders input tables =
    and_then (insert_settle_event (settle_event_input input) tables) (λ inserted id.
      let fetched =
        fetch_token_holders input.market_pubkey input.yes_mint input.no_mint input.settle_slot in
      and_then (inserted, fetched) (settle_all input id))

-- A webhook delivery: its event, and what the query for the holders answers while it is handled.
pub record Delivery : Type 0 where
  pub input : HandleSettleEventInput
  pub fetch_token_holders : Bytes → Bytes → Bytes → Option ℕ → Result Failure (List TokenHolder)

-- The deliveries are handled one after the other; a throw ends its own delivery only.
unfoldable pub handle_deliveries : List Delivery → Tables → Tables
handle_deliveries [] tables = tables
handle_deliveries (delivery ∷ later) tables =
    handle_deliveries later
      (handle_settle_event delivery.fetch_token_holders delivery.input tables).0
