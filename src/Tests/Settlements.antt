-- ===== src/Tests/Settlements.antt =====
-- Settle events handled from empty tables: a win, a retry of it, a refund and a rejected query.
use bell_markets.Prelude.{ℕ, ◌+◌, Bool, not, ◌≡◌, refl, List, [], ◌∷◌, Option, none, some}
use bell_markets.Prelude.Int.{pos, negsuc}
use bell_markets.Prelude.Result.{Result, ok, throw}
use bell_markets.Bytes.{Bytes, eq_buffer}
use bell_markets.Database.{find, upsert}
use bell_markets.Database.Types.{
  Balance, Outcome, outcome_yes, outcome_no, outcome_invalid, invalid, UserStreak, Tables,
}
use bell_markets.Database.Queries.{
  Failure, holders_rejected, has_user, insert_settle_event, insert_user_market_hold, write_hold,
  new_streak, update_streak, apply_result_to_user_streak,
}
use bell_markets.Settlement.{
  TokenHolder, HandleSettleEventInput, Delivery, determine_result, count_result, settle_holder,
  settle_holders, handle_settle_event, handle_deliveries,
}
use bell_markets.Settlement.Streaks.{no_tables, IsConsistent, handle_deliveries-IsConsistent}
use bell_markets.Settlement.Replay.{IsReplayed, handle_settle_event-IsReplayed}

abbrev alice : Bytes
alice = 1 ∷ []

abbrev bob : Bytes
bob = 2 ∷ []

-- A balance of one digit, and one that `Number` cannot read.
abbrev digit : ℕ → Balance
digit n = record { text = (48 + n) ∷ []; number = some (pos n) }

abbrev unreadable : Balance
unreadable = record { text = 120 ∷ []; number = none }

abbrev minus_one : Balance
minus_one = record { text = 45 ∷ 49 ∷ []; number = some (negsuc 0) }

abbrev test_holders : List TokenHolder
test_holders =
    record { owner_pubkey = alice; yes_held = digit 3; no_held = digit 0 }
    ∷ record { owner_pubkey = bob; yes_held = digit 0; no_held = digit 5 }
    ∷ record { owner_pubkey = 3 ∷ []; yes_held = minus_one; no_held = digit 0 }
    ∷ []

-- What a NUMERIC column takes here: anything but the text of the unreadable balance.
abbrev test_accepts : Bytes → Bool
test_accepts text = not (eq_buffer text (120 ∷ []))

abbrev empty_tables : Tables
empty_tables = no_tables test_accepts

abbrev test_event : Outcome → ℕ → HandleSettleEventInput
test_event outcome sig = record {
  market_pubkey = 9 ∷ [];
  yes_mint = 10 ∷ [];
  no_mint = 11 ∷ [];
  ticker = none;
  expiry_unix = 1700000000;
  outcome = outcome;
  settle_price = none;
  settle_slot = some 5;
  tx_sig = sig ∷ [];
  observed_at = 100;
}

abbrev test_fetch : Bytes → Bytes → Bytes → Option ℕ → Result Failure (List TokenHolder)
test_fetch market yes_mint no_mint slot = ok test_holders

abbrev test_delivery : Outcome → ℕ → Delivery
test_delivery outcome sig = record {
  input = test_event outcome sig;
  fetch_token_holders = test_fetch;
}

-- The event of the first delivery, its retry, one whose query is rejected, one where the database
-- rejects a balance before alice's turn, and a refund.
abbrev test_deliveries : List Delivery
test_deliveries =
    test_delivery outcome_yes 1
    ∷ test_delivery outcome_yes 1
    ∷ record {
      input = test_event outcome_no 2;
      fetch_token_holders = λ market yes_mint no_mint slot. throw holders_rejected;
    }
    ∷ record {
      input = test_event outcome_no 4;
      fetch_token_holders = λ market yes_mint no_mint slot.
          ok (
            record { owner_pubkey = bob; yes_held = unreadable; no_held = digit 5 } ∷ test_holders);
    }
    ∷ test_delivery outcome_invalid 3
    ∷ []

-- The retry counts a second win.
abbrev alice_streak : UserStreak
alice_streak = record {
  user_pubkey = alice;
  current_streak = 2;
  longest_streak = 2;
  total_markets_won = 2;
  total_markets_traded = 3;
  last_result = some invalid;
  last_settle_at = some 100;
}

alice_streak_test :
    find (has_user alice) (handle_deliveries test_deliveries empty_tables).user_streaks
    ≡ some alice_streak
unfolding find upsert handle_deliveries handle_settle_event insert_settle_event
    insert_user_market_hold write_hold settle_holders settle_holder determine_result count_result
    apply_result_to_user_streak new_streak update_streak eq_buffer
alice_streak_test = refl

handle_deliveries-IsConsistent_example : IsConsistent alice_streak
handle_deliveries-IsConsistent_example =
    handle_deliveries-IsConsistent test_accepts test_deliveries alice alice_streak alice_streak_test

abbrev handled_once : Tables
handled_once = (handle_settle_event test_fetch (test_event outcome_yes 1) empty_tables).0

handle_settle_event-IsReplayed_example :
    ((handle_settle_event test_fetch (test_event outcome_yes 1) handled_once).1
      ≡ (handle_settle_event test_fetch (test_event outcome_yes 1) empty_tables).1)
    × IsReplayed handled_once
        (handle_settle_event test_fetch (test_event outcome_yes 1) handled_once).0
handle_settle_event-IsReplayed_example =
    handle_settle_event-IsReplayed test_fetch (test_event outcome_yes 1) empty_tables test_holders
      refl
