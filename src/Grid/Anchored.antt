-- ===== src/Grid/Anchored.antt =====
-- The anchor phase goes through all tickers and anchors every one that it can read.
use bell_markets.Prelude.{
  if_not-true, ℕ, ◌<◌, ◌≡◌, refl, ◌∙◌, arith, true, false, List, [], ◌∷◌, Option, none, some,
}
use bell_markets.Prelude.Result.{Result, ok, >>=-ok, map_result}
use bell_markets.Bytes.{Bytes}
use bell_markets.Grid.{
  compute_strike_grid, Ticker, aapl, msft, googl, amzn, nvda, meta, tsla, mag7, ticker_defaults,
  anchor,
}
use bell_markets.Grid.Updated.{IsUpdate, updated_turn-IsUpdate}
use bell_markets.Grid.Strikes.{IsGrid, compute_strike_grid-IsGrid}
use bell_markets.Grid.Phases.{
  skipped, errored, PriceRead, PhaseError, GridPhaseDeps, Turn, GridPhaseOutcome, plain_turn,
  updated_turn, update_input, anchor_turn, price_of, run_anchor_phase,
}

tick-positive : (ticker : Ticker) → 0 < (ticker_defaults ticker).strike_tick_size_usd
unfolding ticker_defaults
tick-positive aapl = omega arith
tick-positive msft = omega arith
tick-positive googl = omega arith
tick-positive amzn = omega arith
tick-positive nvda = omega arith
tick-positive meta = omega arith
tick-positive tsla = omega arith

-- What a turn of `runAnchorPhase` is.
pub data IsAnchorTurn (deps : GridPhaseDeps) (expiry : ℕ) : Ticker → Turn → Type 0 where
  skips :
      (ticker : Ticker)
      → deps.pyth_price_account ticker ≡ none
      → IsAnchorTurn deps expiry ticker (plain_turn ticker skipped)
  fails :
      (ticker : Ticker)
      → price_of deps ticker (deps.hermes_feed_id ticker) ≡ none
      → IsAnchorTurn deps expiry ticker (plain_turn ticker errored)
  -- The grid around the price is sent, with the price as its centre.
  anchors :
      (ticker : Ticker) (account : Bytes) (read : PriceRead) (strikes : List ℕ)
      → deps.pyth_price_account ticker ≡ some account
      → price_of deps ticker (deps.hermes_feed_id ticker) ≡ some read
      → compute_strike_grid deps.unit read.price (ticker_defaults ticker).strike_tick_size_usd
        ≡ ok strikes
      → IsGrid deps.unit read.price (ticker_defaults ticker).strike_tick_size_usd strikes
      → (turn : Turn) → turn.outcome.drift_bps ≡ none
      → IsUpdate deps ticker read.price strikes anchor account (some expiry) read.expo turn
      → IsAnchorTurn deps expiry ticker turn

-- One turn for each ticker, in order.
abbrev pub AreAnchorTurns : GridPhaseDeps → ℕ → List Ticker → List Turn → Type 0
AreAnchorTurns deps expiry [] [] = Unit
AreAnchorTurns deps expiry [] (turn ∷ turns) = ⊥
AreAnchorTurns deps expiry (ticker ∷ tickers) [] = ⊥
AreAnchorTurns deps expiry (ticker ∷ tickers) (turn ∷ turns) =
    IsAnchorTurn deps expiry ticker turn × AreAnchorTurns deps expiry tickers turns

module _ (deps : GridPhaseDeps) (expiry : ℕ) (units : 0 < deps.unit)
    (prices : (ticker : Ticker) (read : PriceRead)
      → price_of deps ticker (deps.hermes_feed_id ticker) ≡ some read
      → 0 < read.price) where
  anchor_turn-IsAnchorTurn :
      (ticker : Ticker) (account feed : Option Bytes) (price : Option PriceRead)
      → deps.pyth_price_account ticker ≡ account
      → deps.hermes_feed_id ticker ≡ feed
      → price_of deps ticker (deps.hermes_feed_id ticker) ≡ price
      → (turn : Turn) × (anchor_turn deps expiry ticker account feed price ≡ ok turn)
        × IsAnchorTurn deps expiry ticker turn
  unfolding anchor_turn
  anchor_turn-IsAnchorTurn ticker none feed price a f p = (_, refl, skips ticker a)
  anchor_turn-IsAnchorTurn ticker (some account) none price a f p =
      (_, refl, fails ticker (rw f refl))
  anchor_turn-IsAnchorTurn ticker (some account) (some feed) none a f p = (_, refl, fails ticker p)
  anchor_turn-IsAnchorTurn ticker (some account) (some feed) (some read) a f p =
      let tick = (ticker_defaults ticker).strike_tick_size_usd in
      let (strikes, returns, is) =
        compute_strike_grid-IsGrid deps.unit read.price tick units (prices ticker read p)
          (tick-positive ticker) in
      (
        updated_turn deps
            (update_input ticker read.price strikes anchor account (some expiry) read.expo) none,
        rw returns refl,
        anchors ticker account read strikes a p returns is _ refl (
            updated_turn-IsUpdate deps ticker read.price strikes anchor account (some expiry)
              read.expo none),
      )

  abbrev turn_for : Ticker → Result PhaseError Turn
  turn_for ticker =
      anchor_turn deps expiry ticker (deps.pyth_price_account ticker) (deps.hermes_feed_id ticker)
        (price_of deps ticker (deps.hermes_feed_id ticker))

  turns-AreAnchorTurns :
      (tickers : List Ticker)
      → (turns : List Turn) × (map_result turn_for tickers ≡ ok turns)
        × AreAnchorTurns deps expiry tickers turns
  unfolding map_result
  turns-AreAnchorTurns [] = ([], refl, tt)
  turns-AreAnchorTurns (ticker ∷ tickers) =
      let (turn, first, is) =
        anchor_turn-IsAnchorTurn ticker (deps.pyth_price_account ticker)
          (deps.hermes_feed_id ticker) (price_of deps ticker (deps.hermes_feed_id ticker)) refl refl
          refl in
      let (turns, rest, are) = turns-AreAnchorTurns tickers in
      (turn ∷ turns, rw (first, rest) refl, (is, are))

-- With a program configured, a next trading day, clients that start and prices above 0, the anchor
-- phase returns, with that day's close. It has one turn for each of the seven tickers in order: a
-- ticker with an account and a price has the grid that is computed around the price sent, with the
-- price as its centre and the close as its expiry, whatever became of the others; one without an account is
-- skipped, and one without a price is errored.
pub run_anchor_phase-returns :
    (deps : GridPhaseDeps) (expiry : ℕ)
    → deps.program_id_set ≡ true
    → deps.next_close ≡ ok expiry
    → deps.clients ≡ ok tt
    → 0 < deps.unit
    → ((ticker : Ticker) (read : PriceRead)
        → price_of deps ticker (deps.hermes_feed_id ticker) ≡ some read
        → 0 < read.price)
    → (outcome : GridPhaseOutcome) × (run_anchor_phase deps ≡ ok outcome)
      × (outcome.anchored_expiry ≡ some expiry)
      × AreAnchorTurns deps expiry mag7 outcome.turns
unfolding run_anchor_phase
run_anchor_phase-returns deps expiry configured closes starts units prices =
    let (turns, run, are) = turns-AreAnchorTurns deps expiry units prices mag7 in
    (
      record { phase = anchor; turns = turns; stub = false; anchored_expiry = some expiry },
      if_not-true deps.program_id_set _ _ configured
          ∙ >>=-ok deps.next_close _ closes
          ∙ >>=-ok deps.clients _ starts
          ∙ >>=-ok (map_result (turn_for deps expiry units prices) mag7) _ run,
      refl,
      are,
    )
