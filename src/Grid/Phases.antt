-- ===== src/Grid/Phases.antt =====
-- The phases of services/automation/src/grid-evolution.ts. The clients, the calendar and the sending
-- of an update are parameters; what is logged is left out, and so are the texts of reasons.
use bell_markets.Prelude.{ℕ, Bool, true, false, not, List, Option, none, some, map, if◌then◌else◌}
use bell_markets.Prelude.Result.{Result, ok, throw, ◌>>=◌, map_result}
use bell_markets.Bytes.{Bytes}
use bell_markets.Grid.{
  Ticker, mag7, ticker_defaults, PhaseLabel, anchor, GridError, compute_strike_grid,
}
use bell_markets.Grid.Update.{UpdateTickerConfigInput, UpdateTickerConfigResult, sent_as, not_sent}

pub data Status : Type 0 where
  updated skipped no_drift stubbed errored : Status

pub record PerTickerOutcome : Type 0 where
  pub ticker : Ticker
  pub status : Status
  pub cap_center : Option ℕ
  pub allowed_strikes : Option (List ℕ)
  pub drift_bps : Option ℕ
  pub tx_sig : Option Bytes

-- What `getPreviousClose` reads.
pub record PriceRead : Type 0 where
  pub price : ℕ
  pub expo : ℕ

-- The fields of `TickerConfigView` that a phase reads.
pub record TickerConfigView : Type 0 where
  pub cap_center : ℕ
  pub allowed_strikes : List ℕ

pub data PhaseError : Type 0 where
  no_trading_day clients_failed config_unreadable : PhaseError
  grid_failed : GridError → PhaseError

-- `GridPhaseDeps` with the configuration and the calendar: `unit` is how many units of a price make a
-- dollar, `next_close` the close of the next trading day, `clients` whether both clients start, and
-- `get_previous_close` is `none` when it throws.
pub record GridPhaseDeps : Type 0 where
  pub unit : ℕ
  pub program_id_set : Bool
  pub next_close : Result PhaseError ℕ
  pub clients : Result PhaseError (Unit {0})
  pub pyth_price_account : Ticker → Option Bytes
  pub hermes_feed_id : Ticker → Option Bytes
  pub get_previous_close : Ticker → Bytes → Option PriceRead
  pub read_ticker_config : Ticker → Bytes → ℕ → Result PhaseError (Option TickerConfigView)
  pub update_fn : UpdateTickerConfigInput → UpdateTickerConfigResult

-- One turn of a phase's loop: what it pushes, and what it sent.
pub record Turn : Type 0 where
  pub outcome : PerTickerOutcome
  pub sent : Option UpdateTickerConfigInput

pub record GridPhaseOutcome : Type 0 where
  pub phase : PhaseLabel
  pub turns : List Turn
  pub stub : Bool
  pub anchored_expiry : Option ℕ

abbrev pub plain_outcome : Ticker → Status → PerTickerOutcome
plain_outcome ticker status = record {
  ticker = ticker;
  status = status;
  cap_center = none;
  allowed_strikes = none;
  drift_bps = none;
  tx_sig = none;
}

abbrev pub plain_turn : Ticker → Status → Turn
plain_turn ticker status = record { outcome = plain_outcome ticker status; sent = none }

-- A throw of the grid's functions is not caught by the loop.
abbrev pub uncaught : {A : Type 0} → Result GridError A → Result PhaseError A
uncaught (ok a) = ok a
uncaught (throw e) = throw (grid_failed e)

abbrev pub status_of : UpdateTickerConfigResult → Status
status_of (sent_as tx_sig) = updated
status_of (not_sent e) = errored

abbrev pub tx_sig_of : UpdateTickerConfigResult → Option Bytes
tx_sig_of (sent_as tx_sig) = some tx_sig
tx_sig_of (not_sent e) = none

-- The outcome of an update that was sent.
abbrev pub updated_turn : GridPhaseDeps → UpdateTickerConfigInput → Option ℕ → Turn
updated_turn deps input drift = record {
  outcome = record {
    ticker = input.ticker;
    status = status_of (deps.update_fn input);
    cap_center = some input.cap_center;
    allowed_strikes = some input.allowed_strikes;
    drift_bps = drift;
    tx_sig = tx_sig_of (deps.update_fn input);
  };
  sent = some input;
}

abbrev pub update_input :
    Ticker → ℕ → List ℕ → PhaseLabel → Bytes → Option ℕ → ℕ → UpdateTickerConfigInput
update_input ticker cap_center allowed_strikes phase account expiry_unix expo = record {
  ticker = ticker;
  cap_center = cap_center;
  allowed_strikes = allowed_strikes;
  deviation_cap_bps = (ticker_defaults ticker).default_deviation_cap_bps;
  tick_size_usd = (ticker_defaults ticker).strike_tick_size_usd;
  threshold_bps = (ticker_defaults ticker).wild_swing_threshold_bps;
  phase = phase;
  pyth_price_account = account;
  expiry_unix = expiry_unix;
  expo = expo;
}

module _ (deps : GridPhaseDeps) where
  -- The turn of `runAnchorPhase` for a ticker, with its account, its feed and its price.
  unfoldable pub anchor_turn :
      ℕ → Ticker → Option Bytes → Option Bytes → Option PriceRead → Result PhaseError Turn
  anchor_turn expiry ticker none feed price = ok (plain_turn ticker skipped)
  anchor_turn expiry ticker (some account) none price = ok (plain_turn ticker errored)
  anchor_turn expiry ticker (some account) (some feed) none = ok (plain_turn ticker errored)
  anchor_turn expiry ticker (some account) (some feed) (some read) = do
    strikes ←
        uncaught
          (compute_strike_grid deps.unit read.price (ticker_defaults ticker).strike_tick_size_usd)
    ok (
        updated_turn deps
          (update_input ticker read.price strikes anchor account (some expiry) read.expo) none)

  -- `getPreviousClose` for a ticker with a feed.
  abbrev pub price_of : Ticker → Option Bytes → Option PriceRead
  price_of ticker none = none
  price_of ticker (some feed) = deps.get_previous_close ticker feed

  -- `stubAllTickers`
  abbrev pub stub_all_tickers : List Turn
  stub_all_tickers = map (λ ticker. plain_turn ticker stubbed) mag7

  -- `runAnchorPhase`
  unfoldable pub run_anchor_phase : Result PhaseError GridPhaseOutcome
  run_anchor_phase =
      let stubbed_outcome : GridPhaseOutcome = record {
        phase = anchor;
        turns = stub_all_tickers;
        stub = true;
        anchored_expiry = none;
      } in
      if not deps.program_id_set
      then ok stubbed_outcome
      else (deps.next_close >>= λ expiry. deps.clients >>= λ started.
          map_result
            (λ ticker.
              anchor_turn expiry ticker (deps.pyth_price_account ticker)
                (deps.hermes_feed_id ticker) (price_of ticker (deps.hermes_feed_id ticker)))
            mag7
          >>= λ turns. ok (record {
            phase = anchor;
            turns = turns;
            stub = false;
            anchored_expiry = some expiry;
          }))
