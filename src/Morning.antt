-- ===== src/Morning.antt =====
-- `runMorningCreateMarkets` of services/automation/src/jobs/morning.ts: the markets of a day are created,
-- one for each strike around the previous close of each ticker. Clients, configuration and the sending
-- of a transaction are parameters; logs and the texts of reasons and errors are left out. Prices are
-- counted as in Grid.antt.
pub mod Created
use bell_markets.Prelude.{
  ℕ, Bool, true, false, not, List, [], ◌∷◌, Option, none, some, map, if◌then◌else◌,
}
use bell_markets.Prelude.Result.{Result, ok, throw, ◌>>=◌, map_result}
use bell_markets.Bytes.{Bytes}
use bell_markets.Grid.{Ticker, mag7, GridError, compute_strikes_for_stock}
use bell_markets.Grid.Update.{UpdateError, scale_strike_to_i64}
use bell_markets.Grid.Phases.{PriceRead}

pub record SendCreateStrikeMarketInput : Type 0 where
  pub ticker : Ticker
  pub strike_price_i64 : ℕ
  pub strike_usd : ℕ
  pub expiry_unix : ℕ
  pub pyth_price_account : Bytes
  pub phoenix_market : Bytes

pub data MorningStatus : Type 0 where
  submitted skipped errored : MorningStatus

-- `errors` has the strikes whose transaction was refused.
pub record TickerOutcome : Type 0 where
  pub ticker : Ticker
  pub status : MorningStatus
  pub previous_close : Option ℕ
  pub strikes : List ℕ
  pub tx_sigs : List Bytes
  pub errors : List ℕ

pub data MorningError : Type 0 where
  clients_failed : MorningError
  strikes_failed : GridError → MorningError
  scale_failed : UpdateError → MorningError

-- `MorningJobDeps` with the configuration: `send` returns a signature, or `none` for an error.
pub record MorningJobDeps : Type 0 where
  pub unit : ℕ
  pub program_id_set : Bool
  pub expiry_unix : ℕ
  pub clients : Result MorningError (Unit {0})
  pub phoenix_market : Ticker → Option Bytes
  pub pyth_price_account : Ticker → Option Bytes
  pub hermes_feed_id : Ticker → Option Bytes
  pub get_previous_close : Ticker → Bytes → Option PriceRead
  pub send : SendCreateStrikeMarketInput → Option Bytes

-- What the loop over the strikes collects, and what it sends.
pub record Sends : Type 0 where
  pub tx_sigs : List Bytes
  pub errors : List ℕ
  pub sent : List SendCreateStrikeMarketInput

pub record MorningTurn : Type 0 where
  pub outcome : TickerOutcome
  pub sent : List SendCreateStrikeMarketInput

abbrev pub plain_outcome : Ticker → MorningStatus → TickerOutcome
plain_outcome ticker status = record {
  ticker = ticker;
  status = status;
  previous_close = none;
  strikes = [];
  tx_sigs = [];
  errors = [];
}

abbrev pub plain_turn : Ticker → MorningStatus → MorningTurn
plain_turn ticker status = record { outcome = plain_outcome ticker status; sent = [] }

abbrev pub scaled_strike : Result UpdateError ℕ → Result MorningError ℕ
scaled_strike (ok n) = ok n
scaled_strike (throw e) = throw (scale_failed e)

abbrev pub strikes_of : Result GridError (List ℕ) → Result MorningError (List ℕ)
strikes_of (ok strikes) = ok strikes
strikes_of (throw e) = throw (strikes_failed e)

-- `if (result.ok) txSigs.push(…) else errors.push(…)`
abbrev pub add_send : SendCreateStrikeMarketInput → Option Bytes → Sends → Sends
add_send input none later = record later {
  errors = input.strike_usd ∷ later.errors;
  sent = input ∷ later.sent;
}
add_send input (some tx_sig) later = record later {
  tx_sigs = tx_sig ∷ later.tx_sigs;
  sent = input ∷ later.sent;
}

-- `errors.length === 0 ? "submitted" : "errored"`
abbrev pub status_of : List ℕ → MorningStatus
status_of [] = submitted
status_of (strike ∷ errors) = errored

module _ (deps : MorningJobDeps) where
  abbrev pub send_input : Ticker → Bytes → Bytes → ℕ → ℕ → SendCreateStrikeMarketInput
  send_input ticker phoenix account strike_usd strike_price_i64 = record {
    ticker = ticker;
    strike_price_i64 = strike_price_i64;
    strike_usd = strike_usd;
    expiry_unix = deps.expiry_unix;
    pyth_price_account = account;
    phoenix_market = phoenix;
  }

  -- The loop over the strikes of a ticker.
  unfoldable pub send_strikes : Ticker → Bytes → Bytes → ℕ → List ℕ → Result MorningError Sends
  send_strikes ticker phoenix account expo [] =
      let nothing : Sends = record { tx_sigs = []; errors = []; sent = [] } in ok nothing
  send_strikes ticker phoenix account expo (strike ∷ strikes) =
      scaled_strike (scale_strike_to_i64 strike 1 expo) >>= λ scaled.
      let input = send_input ticker phoenix account strike scaled in
      send_strikes ticker phoenix account expo strikes >>= λ later.
      ok (add_send input (deps.send input) later)

  -- The turn for a ticker from its previous close on.
  unfoldable pub close_turn : Ticker → Bytes → Bytes → PriceRead → Result MorningError MorningTurn
  close_turn ticker phoenix account read =
      strikes_of (compute_strikes_for_stock deps.unit read.price) >>= λ strikes.
      send_strikes ticker phoenix account read.expo strikes >>= λ sends. ok (record {
        outcome = record {
          ticker = ticker;
          status = status_of sends.errors;
          previous_close = some read.price;
          strikes = strikes;
          tx_sigs = sends.tx_sigs;
          errors = sends.errors;
        };
        sent = sends.sent;
      })

  -- The turn for a ticker, with its market, its account, its feed and its previous close.
  unfoldable pub morning_turn :
      Ticker
      → Option Bytes
      → Option Bytes
      → Option Bytes
      → Option PriceRead
      → Result MorningError MorningTurn
  morning_turn ticker none account feed read = ok (plain_turn ticker skipped)
  morning_turn ticker (some phoenix) none feed read = ok (plain_turn ticker skipped)
  morning_turn ticker (some phoenix) (some account) none read = ok (plain_turn ticker errored)
  morning_turn ticker (some phoenix) (some account) (some feed) none =
      ok (plain_turn ticker errored)
  morning_turn ticker (some phoenix) (some account) (some feed) (some read) =
      close_turn ticker phoenix account read

  abbrev pub close_of : Ticker → Option Bytes → Option PriceRead
  close_of ticker none = none
  close_of ticker (some feed) = deps.get_previous_close ticker feed

  abbrev pub turn_of : Ticker → Result MorningError MorningTurn
  turn_of ticker =
      morning_turn ticker (deps.phoenix_market ticker) (deps.pyth_price_account ticker)
        (deps.hermes_feed_id ticker) (close_of ticker (deps.hermes_feed_id ticker))

  -- `runMorningCreateMarkets`
  unfoldable pub run_morning_create_markets : Result MorningError (List MorningTurn)
  run_morning_create_markets =
      if not deps.program_id_set
      then ok (map (λ ticker. plain_turn ticker skipped) mag7)
      else (deps.clients >>= λ started. map_result turn_of mag7)
