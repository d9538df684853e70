-- ===== src/Settlement/Streaks.antt =====
-- user_streaks holds for every user what the user's history says, whatever is delivered.
use bell_markets.Prelude.{
  Bool, ℕ, ◌≤◌, ◌≡◌, refl, sym, subst, ◌∙◌, List, [], ◌∷◌, some, inl, inr, Bool-cases,
  if◌then◌else◌,
}
use bell_markets.Prelude.Result.{Result, ok, throw}
use bell_markets.Prelude.Result.{and_then}
use bell_markets.Bytes.{Bytes, eq_buffer}
use bell_markets.Bytes.Order.{eq_buffer_sound}
use bell_markets.Database.{find}
use bell_markets.Database.Types.{HoldResult, won, lost, abstained, invalid, UserStreak, Tables}
use bell_markets.Database.Queries.{
  has_user, insert_settle_event, write_hold, Failure, apply_result_to_user_streak, Ran,
}
use bell_markets.Settlement.{
  settle_event_input, TokenHolder, HandleSettleEventInput, settle_holders, handle_settle_event,
  Delivery, handle_deliveries, settle_all, no_counts, answer_of, determine_result, hold_of,
}
use bell_markets.Settlement.Rows.{
  credited, settled, find-apply_result, find-apply_result_other, insert_settle_event-returns,
  event_id,
}
use bell_markets.Settlement.Loop.{
  accepted, all_settled, all_settled-accepts_numeric, settle_holders-tables,
}
use mathlib.Core.Option.{some-injective}
use bell_markets.Settlement.History.{
  wins_in_a_row_le, best_in_a_row_le, wins_le, Credit, win, loss, refund, result_of, time_of,
  streak_row, add_result, add_holders, add_fetched, add_deliveries, applied-streak_row,
}

-- The rows are those of the histories.
abbrev pub HoldsHistory : (Bytes → List Credit) → Tables → Type 0
HoldsHistory history tables =
    (user : Bytes) → find (has_user user) tables.user_streaks ≡ streak_row user (history user)

-- One result of one user.
abbrev add_for : Bytes → HoldResult → ℕ → Bytes → List Credit → List Credit
add_for owner result at user history =
    if eq_buffer owner user then add_result result at history else history

credit-HoldsHistory :
    (history : Bytes → List Credit) (owner : Bytes) (credit : Credit) (tables : Tables)
    → HoldsHistory history tables
    → (user : Bytes)
    → find
        (has_user user)
        (apply_result_to_user_streak owner
          (result_of credit)
          (time_of credit)
          tables).0.user_streaks
      ≡ streak_row user (if eq_buffer owner user then credit ∷ history user else history user)
credit-HoldsHistory history owner credit tables before user =
    elim (Bool-cases (eq_buffer owner user)) [
      | inl hit ↦
          let same : owner ≡ user = eq_buffer_sound owner user hit in
          rw (hit, ← same)
            (find-apply_result owner (result_of credit) (time_of credit) tables
              ∙ rw (before owner) (applied-streak_row owner credit (history owner)))
      | inr miss ↦ rw miss (
          find-apply_result_other owner user (result_of credit) (time_of credit) tables miss
          ∙ before user)
    ]

credited-HoldsHistory :
    (history : Bytes → List Credit) (owner : Bytes) (result : HoldResult) (at : ℕ) (tables : Tables)
    → HoldsHistory history tables
    → HoldsHistory
        (λ user. add_for owner result at user (history user))
        (credited owner result at tables)
unfolding credited
credited-HoldsHistory history owner won at tables before =
    credit-HoldsHistory history owner (win at) tables before
credited-HoldsHistory history owner lost at tables before =
    credit-HoldsHistory history owner (loss at) tables before
credited-HoldsHistory history owner invalid at tables before =
    credit-HoldsHistory history owner (refund at) tables before
credited-HoldsHistory history owner abstained at tables before = λ user.
    elim (Bool-cases (eq_buffer owner user)) [
      | inl hit ↦ rw hit (before user)
      | inr miss ↦ rw miss (before user)
    ]

all_settled-HoldsHistory :
    (history : Bytes → List Credit) (input : HandleSettleEventInput) (event : ℕ)
    (holders : List TokenHolder) (tables : Tables)
    → HoldsHistory history tables
    → HoldsHistory
        (λ user. add_holders user input holders (history user))
        (all_settled input event holders tables)
unfolding all_settled add_holders write_hold
all_settled-HoldsHistory history input event [] tables before = before
all_settled-HoldsHistory history input event (holder ∷ holders) tables before =
    let result = determine_result input.outcome holder.yes_held holder.no_held in
    let inserted = (write_hold (hold_of input event holder) tables).0 in
    all_settled-HoldsHistory
      (λ user. add_for holder.owner_pubkey result input.observed_at user (history user)) input event
      holders (settled input event holder tables)
      (credited-HoldsHistory history holder.owner_pubkey result input.observed_at inserted before)

and_then-tables :
    {A B : Type 0} (ran : Ran A) (answer : A → B)
    → (and_then ran (λ after a. (after, ok (answer a)))).0 ≡ ran.0
and_then-tables (tables, ok a) answer = refl
and_then-tables (tables, throw e) answer = refl

-- The tables behind the loop of a settle event, whatever it returns.
settle_all-tables :
    (input : HandleSettleEventInput) (id : ℕ) (holders : List TokenHolder) (tables : Tables)
    → (settle_all input id tables holders).0
      ≡ all_settled input id (accepted tables.accepts_numeric holders) tables
settle_all-tables input id holders tables =
    and_then-tables (settle_holders input id holders no_counts tables) (answer_of id holders)
    ∙ settle_holders-tables input id holders no_counts tables

fetched-HoldsHistory :
    (history : Bytes → List Credit) (input : HandleSettleEventInput) (id : ℕ)
    (fetched : Result Failure (List TokenHolder)) (tables : Tables)
    → HoldsHistory history tables
    → HoldsHistory
        (λ user. add_fetched tables.accepts_numeric user input fetched (history user))
        (and_then (tables, fetched) (settle_all input id)).0
      × ((and_then (tables, fetched) (settle_all input id)).0.accepts_numeric
          ≡ tables.accepts_numeric)
fetched-HoldsHistory history input id (throw e) tables before = (before, refl)
fetched-HoldsHistory history input id (ok holders) tables before =
    let taken = accepted tables.accepts_numeric holders in
    rw (settle_all-tables input id holders tables) (
      all_settled-HoldsHistory history input id taken tables before,
      all_settled-accepts_numeric input id taken tables,
    )

handle_settle_event-HoldsHistory :
    (history : Bytes → List Credit) (delivery : Delivery) (tables : Tables)
    → HoldsHistory history tables
    → HoldsHistory
        (λ user. add_deliveries tables.accepts_numeric user (delivery ∷ []) (history user))
        (handle_settle_event delivery.fetch_token_holders delivery.input tables).0
      × ((handle_settle_event delivery.fetch_token_holders delivery.input tables).0.accepts_numeric
          ≡ tables.accepts_numeric)
unfolding handle_settle_event add_deliveries insert_settle_event
handle_settle_event-HoldsHistory history delivery tables before =
    let input = delivery.input in
    rw (insert_settle_event-returns (settle_event_input input) tables) (
      fetched-HoldsHistory history input (event_id (settle_event_input input) tables)
        (delivery.fetch_token_holders input.market_pubkey input.yes_mint input.no_mint
          input.settle_slot)
        (insert_settle_event (settle_event_input input) tables).0 before)

deliveries-HoldsHistory :
    (accepts : Bytes → Bool) (history : Bytes → List Credit) (deliveries : List Delivery)
    (tables : Tables)
    → tables.accepts_numeric ≡ accepts
    → HoldsHistory history tables
    → HoldsHistory
        (λ user. add_deliveries accepts user deliveries (history user))
        (handle_deliveries deliveries tables)
unfolding handle_deliveries add_deliveries
deliveries-HoldsHistory accepts history [] tables same before = before
deliveries-HoldsHistory accepts history (delivery ∷ later) tables same before =
    let (holds, keeps) = handle_settle_event-HoldsHistory history delivery tables before in
    deliveries-HoldsHistory accepts
      (λ user. add_deliveries accepts user (delivery ∷ []) (history user)) later
      (handle_settle_event delivery.fetch_token_holders delivery.input tables).0 (keeps ∙ same)
      (subst
        (λ taken.
          HoldsHistory (λ user. add_deliveries taken user (delivery ∷ []) (history user))
            (handle_settle_event delivery.fetch_token_holders delivery.input tables).0)
        same holds)

-- Empty tables of a database that accepts these balances.
abbrev pub no_tables : (Bytes → Bool) → Tables
no_tables accepts = record {
  settle_events = [];
  next_event_id = 1;
  user_market_holds = [];
  next_hold_id = 1;
  user_streaks = [];
  accepts_numeric = accepts;
}

pub handle_deliveries-IsStreakHistory :
    (accepts : Bytes → Bool) (deliveries : List Delivery) (user : Bytes)
    → find (has_user user) (handle_deliveries deliveries (no_tables accepts)).user_streaks
      ≡ streak_row user (add_deliveries accepts user deliveries [])
unfolding find streak_row
handle_deliveries-IsStreakHistory accepts deliveries user =
    deliveries-HoldsHistory accepts (λ u. []) deliveries (no_tables accepts) refl (λ u. refl) user

-- A row's streaks and totals fit together.
pub record IsConsistent (row : UserStreak) : Type 0 where
  pub current_le : row.current_streak ≤ row.longest_streak
  pub longest_le : row.longest_streak ≤ row.total_markets_won
  pub won_le : row.total_markets_won ≤ row.total_markets_traded

streak_row-IsConsistent :
    (user : Bytes) (history : List Credit) {row : UserStreak}
    → streak_row user history ≡ some row
    → IsConsistent row
unfolding streak_row
streak_row-IsConsistent user [] is = cc
streak_row-IsConsistent user (credit ∷ history) is =
    subst IsConsistent (some-injective _ _ is) (record {
      current_le = wins_in_a_row_le (credit ∷ history);
      longest_le = best_in_a_row_le (credit ∷ history);
      won_le = wins_le (credit ∷ history);
    })

-- In a row of user_streaks, whatever was delivered, the current streak is at most the longest one,
-- that one at most the number of markets won, and that at most the number of markets traded.
pub handle_deliveries-IsConsistent :
    (accepts : Bytes → Bool) (deliveries : List Delivery) (user : Bytes) (row : UserStreak)
    → find (has_user user) (handle_deliveries deliveries (no_tables accepts)).user_streaks
      ≡ some row
    → IsConsistent row
handle_deliveries-IsConsistent accepts deliveries user row is =
    streak_row-IsConsistent user (add_deliveries accepts user deliveries [])
      (sym (handle_deliveries-IsStreakHistory accepts deliveries user) ∙ is)
