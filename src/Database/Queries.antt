-- ===== src/Database/Queries.antt =====
-- The insertions of services/automation/src/db/queries.ts that a settle event makes: their throws, what
-- they return and what they leave in the tables.
use bell_markets.Prelude.{if◌then◌else◌, ℕ, suc, ◌+◌, max, Bool, ◌&&◌, Option, none, some, ◌==◌}
use mathlib.Core.Option as Option
use bell_markets.Prelude.Result.{Result, ok, throw}
use bell_markets.Bytes.{Bytes, eq_buffer}
use bell_markets.Database.{find, upsert}
use bell_markets.Database.Types.{
  Balance, HoldResult, won, lost, abstained, invalid, SettleEvent, SettleEventInput, UserMarketHold,
  UserStreak, Tables,
}

-- The keys of the three tables.
abbrev pub has_tx_sig : Bytes → SettleEvent → Bool
has_tx_sig sig row = eq_buffer row.tx_sig sig

abbrev pub has_event_and_user : ℕ → Bytes → UserMarketHold → Bool
has_event_and_user event user row = (row.settle_event_id == event) && eq_buffer row.user_pubkey user

abbrev pub has_user : Bytes → UserStreak → Bool
has_user user row = eq_buffer row.user_pubkey user

-- The throws: an insertion that returned no row, a hold that the database rejects for a balance, and
-- the rejection of the holders' query.
pub data Failure : Type 0 where
  no_event_row no_hold_row no_streak_row hold_rejected holders_rejected : Failure

-- What an async function of this file leaves: the tables, and its value or its throw.
abbrev pub Ran : Type 0 → Type 0
Ran A = Tables × Result Failure A

-- `rows[0]` of what an insertion returned, or the throw.
abbrev pub returned : {E A : Type 0} → Option A → E → Result E A
returned none e = throw e
returned (some row) e = ok row

abbrev pub new_settle_event : SettleEventInput → ℕ → SettleEvent
new_settle_event input next_id = record {
  id = next_id;
  market_pubkey = input.market_pubkey;
  ticker = input.ticker;
  expiry_unix = input.expiry_unix;
  outcome = input.outcome;
  settle_price = input.settle_price;
  settle_slot = input.settle_slot;
  tx_sig = input.tx_sig;
}

-- `insertSettleEvent`
unfoldable pub insert_settle_event : SettleEventInput → Tables → Ran ℕ
insert_settle_event input tables =
    let events =
      upsert (has_tx_sig input.tx_sig) (λ row. row) (new_settle_event input tables.next_event_id)
        tables.settle_events in
    (
      record tables { settle_events = events; next_event_id = suc tables.next_event_id },
      returned (Option.map (λ row. row.id) (find (has_tx_sig input.tx_sig) events)) no_event_row,
    )

-- Whether the NUMERIC columns of user_market_holds take the balances.
abbrev pub takes_balances : (Bytes → Bool) → Balance → Balance → Bool
takes_balances accepts yes_held no_held = accepts yes_held.text && accepts no_held.text

-- The insertion of a hold whose balances are accepted: a row in conflict only takes the new result.
unfoldable pub write_hold : UserMarketHold → Tables → Ran ℕ
write_hold input tables =
    let matches = has_event_and_user input.settle_event_id input.user_pubkey in
    let holds =
      upsert matches (λ row. record row { result = input.result })
        (record input { id = tables.next_hold_id }) tables.user_market_holds in
    (
      record tables { user_market_holds = holds; next_hold_id = suc tables.next_hold_id },
      returned (Option.map (λ row. row.id) (find matches holds)) no_hold_row,
    )

-- `insertUserMarketHold`
unfoldable pub insert_user_market_hold : UserMarketHold → Tables → Ran ℕ
insert_user_market_hold input tables =
    if takes_balances tables.accepts_numeric input.yes_held input.no_held
    then write_hold input tables
    else (tables, throw hold_rejected)

-- The row that `applyResultToUserStreak` inserts for a user without one.
unfoldable pub new_streak : Bytes → HoldResult → ℕ → UserStreak
new_streak user won at = record {
  user_pubkey = user;
  current_streak = 1;
  longest_streak = 1;
  total_markets_won = 1;
  total_markets_traded = 1;
  last_result = some won;
  last_settle_at = some at;
}
new_streak user lost at = record {
  user_pubkey = user;
  current_streak = 0;
  longest_streak = 0;
  total_markets_won = 0;
  total_markets_traded = 1;
  last_result = some lost;
  last_settle_at = some at;
}
new_streak user invalid at = record {
  user_pubkey = user;
  current_streak = 0;
  longest_streak = 0;
  total_markets_won = 0;
  total_markets_traded = 1;
  last_result = some invalid;
  last_settle_at = some at;
}
new_streak user abstained at = record {
  user_pubkey = user;
  current_streak = 0;
  longest_streak = 0;
  total_markets_won = 0;
  total_markets_traded = 0;
  last_result = none;
  last_settle_at = some at;
}

-- `DO UPDATE SET …` of `applyResultToUserStreak`
unfoldable pub update_streak : HoldResult → ℕ → UserStreak → UserStreak
update_streak won at row = record row {
  current_streak = row.current_streak + 1;
  longest_streak = max row.longest_streak (row.current_streak + 1);
  total_markets_won = row.total_markets_won + 1;
  total_markets_traded = row.total_markets_traded + 1;
  last_result = some won;
  last_settle_at = some at;
}
update_streak lost at row = record row {
  current_streak = 0;
  total_markets_traded = row.total_markets_traded + 1;
  last_result = some lost;
  last_settle_at = some at;
}
update_streak invalid at row = record row {
  total_markets_traded = row.total_markets_traded + 1;
  last_result = some invalid;
  last_settle_at = some at;
}
update_streak abstained at row = row

-- `applyResultToUserStreak`
unfoldable pub apply_result_to_user_streak : Bytes → HoldResult → ℕ → Tables → Ran UserStreak
apply_result_to_user_streak user result at tables =
    let streaks =
      upsert (has_user user) (update_streak result at) (new_streak user result at)
        tables.user_streaks in
    (
      record tables { user_streaks = streaks },
      returned (find (has_user user) streaks) no_streak_row,
    )
