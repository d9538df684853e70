-- ===== src/Grid/WildSwing.antt =====
-- `runWildSwingPhase` of services/automation/src/grid-evolution.ts.
use bell_markets.Prelude.{
  ℕ, ◌+◌, ◌*◌, Bool, true, false, not, ◌&&◌, List, [], Option, none, some, leb, if◌then◌else◌,
}
use bell_markets.Prelude.Result.{Result, ok, throw, ◌>>=◌, map_result}
use bell_markets.Bytes.{Bytes}
use bell_markets.Grid.{
  Ticker, mag7, ticker_defaults, PhaseLabel, ah, pm, drift_bps, expanded_strike_grid,
}
use bell_markets.Grid.Phases.{
  skipped, errored, no_drift, PriceRead, TickerConfigView, PhaseError, GridPhaseDeps, Turn,
  GridPhaseOutcome, plain_turn, uncaught, updated_turn, update_input, stub_all_tickers, price_of,
}

-- The phases `"ah" | "pm"`.
pub data SwingPhase : Type 0 where
  after_hours pre_market : SwingPhase

abbrev pub label_of : SwingPhase → PhaseLabel
label_of after_hours = ah
label_of pre_market = pm

-- `isInPhaseWindow`, with whether the day is a trading day and the hour and minute in New York.
unfoldable pub is_in_phase_window : Bool → ℕ → ℕ → SwingPhase → Bool
is_in_phase_window trading_day hh mm after_hours =
    trading_day && leb (16 * 60 + 30) (hh * 60 + mm) && leb (hh * 60 + mm) (20 * 60)
is_in_phase_window trading_day hh mm pre_market =
    trading_day && leb (4 * 60) (hh * 60 + mm) && leb (hh * 60 + mm) (9 * 60)

abbrev pub no_drift_turn : Ticker → ℕ → ℕ → Turn
no_drift_turn ticker cap_center drift = record {
  outcome = record {
    ticker = ticker;
    status = no_drift;
    cap_center = some cap_center;
    allowed_strikes = none;
    drift_bps = some drift;
    tx_sig = none;
  };
  sent = none;
}

module _ (deps : GridPhaseDeps) (phase : SwingPhase) where
  -- The turn from the test of the drift on.
  unfoldable pub drift_turn :
      Ticker → Bytes → PriceRead → TickerConfigView → ℕ → Result PhaseError Turn
  drift_turn ticker account read current drift =
      if leb drift (ticker_defaults ticker).wild_swing_threshold_bps
      then ok (no_drift_turn ticker current.cap_center drift)
      else (uncaught (
            expanded_strike_grid deps.unit read.price (ticker_defaults ticker).strike_tick_size_usd
              current.allowed_strikes)
          >>= λ expanded. ok (
              updated_turn deps
                (update_input ticker read.price expanded (label_of phase) account none read.expo)
                (some drift)))

  -- The turn from the answer of `readFn` on.
  unfoldable pub view_turn :
      Ticker
      → Bytes
      → PriceRead
      → Result PhaseError (Option TickerConfigView)
      → Result PhaseError Turn
  view_turn ticker account read (throw e) = ok (plain_turn ticker errored)
  view_turn ticker account read (ok none) = ok (plain_turn ticker skipped)
  view_turn ticker account read (ok (some current)) =
      uncaught (drift_bps read.price current.cap_center) >>= λ drift.
      drift_turn ticker account read current drift

  -- The turn for a ticker, with its account, its feed and its price.
  unfoldable pub swing_turn :
      Ticker → Option Bytes → Option Bytes → Option PriceRead → Result PhaseError Turn
  swing_turn ticker none feed price = ok (plain_turn ticker skipped)
  swing_turn ticker (some account) none price = ok (plain_turn ticker errored)
  swing_turn ticker (some account) (some feed) none = ok (plain_turn ticker errored)
  swing_turn ticker (some account) (some feed) (some read) =
      view_turn ticker account read (deps.read_ticker_config ticker account read.expo)

  abbrev pub turn_of : Ticker → Result PhaseError Turn
  turn_of ticker =
      swing_turn ticker (deps.pyth_price_account ticker) (deps.hermes_feed_id ticker)
        (price_of deps ticker (deps.hermes_feed_id ticker))

  abbrev swing_outcome : List Turn → Bool → GridPhaseOutcome
  swing_outcome turns stub = record {
    phase = label_of phase;
    turns = turns;
    stub = stub;
    anchored_expiry = none;
  }

  -- `runWildSwingPhase`, with the answer of `isInPhaseWindow`.
  unfoldable pub run_wild_swing_phase : Bool → Result PhaseError GridPhaseOutcome
  run_wild_swing_phase in_window =
      if not in_window
      then ok (swing_outcome [] false)
      else (if not deps.program_id_set
          then ok (swing_outcome (stub_all_tickers deps) true)
          else (deps.clients >>= λ started.
              map_result turn_of mag7 >>= λ turns. ok (swing_outcome turns false)))
