-- ===== src/Database/Types.antt =====
-- The row types of services/automation/src/db/types.ts and the tables that hold them. Strings are
-- byte lists and times are numbers; the columns that the database fills from its own clock
-- (observed_at, updated_at) are left out.
use bell_markets.Prelude.{ℕ, Bool, List, Option}
use bell_markets.Prelude.Int.{ℤ}
use bell_markets.Bytes.{Bytes}

pub data Outcome : Type 0 where
  outcome_yes outcome_no outcome_invalid outcome_unsettled : Outcome

pub data HoldResult : Type 0 where
  won lost abstained invalid : HoldResult

pub record SettleEvent : Type 0 where
  pub id : ℕ
  pub market_pubkey : Bytes
  pub ticker : Option Bytes
  pub expiry_unix : ℕ
  pub outcome : Outcome
  pub settle_price : Option Bytes
  pub settle_slot : Option ℕ
  pub tx_sig : Bytes

-- A balance is a string; `number` is what `Number` reads from it, `none` where that is not finite.
pub record Balance : Type 0 where
  pub text : Bytes
  pub number : Option ℤ

pub record UserMarketHold : Type 0 where
  pub id : ℕ
  pub settle_event_id : ℕ
  pub user_pubkey : Bytes
  pub market_pubkey : Bytes
  pub yes_held : Balance
  pub no_held : Balance
  pub outcome : Outcome
  pub result : HoldResult

pub record UserStreak : Type 0 where
  pub user_pubkey : Bytes
  pub current_streak : ℕ
  pub longest_streak : ℕ
  pub total_markets_won : ℕ
  pub total_markets_traded : ℕ
  pub last_result : Option HoldResult
  pub last_settle_at : Option ℕ

-- The database: the tables, and the next number of the two sequences that fill `id`, which an
-- insertion uses up even when its row is in conflict. `accepts_numeric` says which strings a NUMERIC
-- column takes.
pub record Tables : Type 0 where
  pub settle_events : List SettleEvent
  pub next_event_id : ℕ
  pub user_market_holds : List UserMarketHold
  pub next_hold_id : ℕ
  pub user_streaks : List UserStreak
  pub accepts_numeric : Bytes → Bool

-- What `insertSettleEvent` is given.
pub record SettleEventInput : Type 0 where
  pub market_pubkey : Bytes
  pub ticker : Option Bytes
  pub expiry_unix : ℕ
  pub outcome : Outcome
  pub settle_price : Option Bytes
  pub settle_slot : Option ℕ
  pub tx_sig : Bytes
