-- ===== src/Settlement/History.antt =====
-- What user_streaks is to hold, said of the results that a user was credited with, newest first: a
-- streak is read off the list and not kept up with each result.
use bell_markets.Prelude.{
  Bool, ℕ, suc, max, ◌≡◌, refl, List, [], ◌∷◌, Option, none, some, length, if◌then◌else◌, ◌≤◌,
  arith,
}
use bell_markets.Prelude.Result.{Result, ok, throw}
use bell_markets.Bytes.{Bytes, eq_buffer}
use bell_markets.Database.Types.{HoldResult, won, lost, abstained, invalid, UserStreak}
use bell_markets.Database.Queries.{Failure, new_streak, update_streak}
use bell_markets.Settlement.{HandleSettleEventInput, TokenHolder, determine_result, Delivery}
use bell_markets.Settlement.Rows.{applied}
use bell_markets.Settlement.Loop.{accepted}

-- A result other than an abstention, and the time that it was observed at.
pub data Credit : Type 0 where
  win loss refund : ℕ → Credit

-- The wins since the last loss; a refund neither adds nor ends.
unfoldable pub wins_in_a_row : List Credit → ℕ
wins_in_a_row [] = 0
wins_in_a_row (win at ∷ history) = suc (wins_in_a_row history)
wins_in_a_row (loss at ∷ history) = 0
wins_in_a_row (refund at ∷ history) = wins_in_a_row history

-- The longest streak that the history ever had.
unfoldable pub best_in_a_row : List Credit → ℕ
best_in_a_row [] = 0
best_in_a_row (credit ∷ history) = max (best_in_a_row history) (wins_in_a_row (credit ∷ history))

unfoldable pub wins : List Credit → ℕ
wins [] = 0
wins (win at ∷ history) = suc (wins history)
wins (loss at ∷ history) = wins history
wins (refund at ∷ history) = wins history

abbrev pub result_of : Credit → HoldResult
result_of (win at) = won
result_of (loss at) = lost
result_of (refund at) = invalid

abbrev pub time_of : Credit → ℕ
time_of (win at) = at
time_of (loss at) = at
time_of (refund at) = at

-- The row of a user with this history: a user without a credit has none.
unfoldable pub streak_row : Bytes → List Credit → Option UserStreak
streak_row user [] = none
streak_row user (credit ∷ history) = some (record {
  user_pubkey = user;
  current_streak = wins_in_a_row (credit ∷ history);
  longest_streak = best_in_a_row (credit ∷ history);
  total_markets_won = wins (credit ∷ history);
  total_markets_traded = length (credit ∷ history);
  last_result = some (result_of credit);
  last_settle_at = some (time_of credit);
})

abbrev pub add_result : HoldResult → ℕ → List Credit → List Credit
add_result won at history = win at ∷ history
add_result lost at history = loss at ∷ history
add_result invalid at history = refund at ∷ history
add_result abstained at history = history

-- What some holders add to the history of a user: a credit for each of the user's balances.
unfoldable pub add_holders :
    Bytes → HandleSettleEventInput → List TokenHolder → List Credit → List Credit
add_holders user input [] history = history
add_holders user input (holder ∷ holders) history =
    let result = determine_result input.outcome holder.yes_held holder.no_held in
    add_holders user input holders (
      if eq_buffer holder.owner_pubkey user
      then add_result result input.observed_at history
      else history)

-- A delivery credits the holders before the first whose balances the database does not accept.
abbrev pub add_fetched :
    (Bytes → Bool)
    → Bytes
    → HandleSettleEventInput
    → Result Failure (List TokenHolder)
    → List Credit
    → List Credit
add_fetched accepts user input (ok holders) history =
    add_holders user input (accepted accepts holders) history
add_fetched accepts user input (throw e) history = history

unfoldable pub add_deliveries : (Bytes → Bool) → Bytes → List Delivery → List Credit → List Credit
add_deliveries accepts user [] history = history
add_deliveries accepts user (delivery ∷ later) history =
    let input = delivery.input in
    let fetched =
      delivery.fetch_token_holders input.market_pubkey input.yes_mint input.no_mint
        input.settle_slot in
    add_deliveries accepts user later (add_fetched accepts user input fetched history)

-- The upsert of a result turns the row of a history into that of the longer history.
pub applied-streak_row :
    (user : Bytes) (credit : Credit) (history : List Credit)
    → some (applied user (result_of credit) (time_of credit) (streak_row user history))
      ≡ streak_row user (credit ∷ history)
unfolding streak_row wins_in_a_row best_in_a_row wins new_streak update_streak
applied-streak_row user (win at) [] = refl
applied-streak_row user (loss at) [] = refl
applied-streak_row user (refund at) [] = refl
applied-streak_row user (win at) (credit ∷ history) = ground arith
applied-streak_row user (loss at) (credit ∷ history) = ground arith
applied-streak_row user (refund at) (credit ∷ history) = ground arith

pub wins_in_a_row_le : (history : List Credit) → wins_in_a_row history ≤ best_in_a_row history
unfolding wins_in_a_row best_in_a_row
wins_in_a_row_le [] = omega arith
wins_in_a_row_le (credit ∷ history) = ground arith

row_le_wins : (history : List Credit) → wins_in_a_row history ≤ wins history
unfolding wins_in_a_row wins
row_le_wins [] = omega arith
row_le_wins (win at ∷ history) = omega (arith, row_le_wins history)
row_le_wins (loss at ∷ history) = omega arith
row_le_wins (refund at ∷ history) = row_le_wins history

wins_mono : (credit : Credit) (history : List Credit) → wins history ≤ wins (credit ∷ history)
unfolding wins
wins_mono (win at) history = omega arith
wins_mono (loss at) history = omega arith
wins_mono (refund at) history = omega arith

pub best_in_a_row_le : (history : List Credit) → best_in_a_row history ≤ wins history
unfolding best_in_a_row
best_in_a_row_le [] = omega arith
best_in_a_row_le (credit ∷ history) =
    omega
      (arith, best_in_a_row_le history, wins_mono credit history, row_le_wins (credit ∷ history))

pub wins_le : (history : List Credit) → wins history ≤ length history
unfolding wins
wins_le [] = omega arith
wins_le (win at ∷ history) = omega (arith, wins_le history)
wins_le (loss at ∷ history) = omega (arith, wins_le history)
wins_le (refund at ∷ history) = omega (arith, wins_le history)
