-- ===== src/Grid/Drift.antt =====
-- When a phase sends an update, and which one.
use bell_markets.Prelude.{
  if_not-true, ℕ, ◌≤◌, ◌<◌, ◌≡◌, ◌⊎◌, refl, sym, ◌∙◌, subst, arith, true, List, [], ◌∷◌, Option,
  none, some, leb, inl, inr, Bool-cases,
}
use bell_markets.Prelude.Result.{Result, ok, throw, map_result, >>=-eq-ok, ok_injective}
use bell_markets.Bytes.{Bytes}
use bell_markets.Grid.{
  Ticker, mag7, ticker_defaults, drift_bps, expanded_strike_grid, compute_strike_grid, GridError,
}
use bell_markets.Grid.Updated.{IsUpdate, updated_turn-IsUpdate}
use bell_markets.Grid.Expanded.{IsExpanded, expanded_strike_grid-IsExpanded}
use bell_markets.Grid.Phases.{
  skipped, errored, PriceRead, TickerConfigView, PhaseError, GridPhaseDeps, Turn, GridPhaseOutcome,
  plain_turn, uncaught, price_of,
}
use bell_markets.Grid.WildSwing.{
  SwingPhase, label_of, no_drift_turn, drift_turn, view_turn, swing_turn, turn_of,
  run_wild_swing_phase,
}

uncaught-ok : {A : Type 0} (m : Result GridError A) {a : A} → uncaught m ≡ ok a → m ≡ ok a
uncaught-ok (ok b) e = ground arith
uncaught-ok (throw err) e = cc

module _ (deps : GridPhaseDeps) (phase : SwingPhase) (ticker : Ticker) where
  abbrev threshold : ℕ
  threshold = (ticker_defaults ticker).wild_swing_threshold_bps

  -- What the turn of a ticker with this price and this configuration does.
  pub record IsSwing (account : Bytes) (read : PriceRead) (current : TickerConfigView) (turn : Turn)
      : Type 0 where
    pub drift : ℕ
    pub is_drift : drift_bps read.price current.cap_center ≡ ok drift
    -- Up to the threshold nothing is sent; above it the union of the configured strikes and the grid
    -- around the price is.
    pub decides :
        ((drift ≤ threshold) × (turn ≡ no_drift_turn ticker current.cap_center drift))
        ⊎ ((threshold < drift)
            × ((fresh : List ℕ) × (expanded : List ℕ) × (compute_strike_grid deps.unit read.price
                    (ticker_defaults ticker).strike_tick_size_usd
                  ≡ ok fresh)
                × IsExpanded current.allowed_strikes fresh expanded
                × (turn.outcome.drift_bps ≡ some drift)
                × IsUpdate deps ticker read.price expanded
                    (label_of phase)
                    account
                    none
                    read.expo
                    turn))

  drift_turn-decides :
      (account : Bytes) (read : PriceRead) (current : TickerConfigView) (drift : ℕ) {turn : Turn}
      → drift_bps read.price current.cap_center ≡ ok drift
      → drift_turn deps phase ticker account read current drift ≡ ok turn
      → IsSwing account read current turn
  unfolding drift_turn
  drift_turn-decides account read current drift is_drift e =
      let price = read.price in
      let tick = (ticker_defaults ticker).strike_tick_size_usd in
      let existing = current.allowed_strikes in
      elim (Bool-cases (leb drift threshold)) [
        | inl below ↦ record {
          drift = drift;
          is_drift = is_drift;
          decides = inl (ground arith, sym (ok_injective _ (rw below at e) refl));
        }
        | inr above ↦
            let run = rw above at e in
            let (expanded, caught, returns) =
              >>=-eq-ok (uncaught (expanded_strike_grid deps.unit price tick existing)) _ run in
            let (fresh, is_fresh, is_expanded) =
              expanded_strike_grid-IsExpanded deps.unit price tick existing
                (uncaught-ok _ caught) in
            record {
              drift = drift;
              is_drift = is_drift;
              decides = inr (
                ground arith,
                (
                  fresh,
                  expanded,
                  is_fresh,
                  is_expanded,
                  subst (λ (t : Turn). t.outcome.drift_bps ≡ some drift)
                      (ok_injective _ returns refl) refl,
                  subst
                      (IsUpdate deps ticker price expanded (label_of phase) account none read.expo)
                      (ok_injective _ returns refl)
                      (updated_turn-IsUpdate deps ticker price expanded (label_of phase) account
                        none read.expo (some drift)),
                ),
              );
            }
      ]

-- What a turn of `runWildSwingPhase` is.
pub data IsTurn (deps : GridPhaseDeps) (phase : SwingPhase) : Ticker → Turn → Type 0 where
  -- The ticker has no account, or its configuration does not exist.
  skips :
      (ticker : Ticker)
      → (deps.pyth_price_account ticker ≡ none)
        ⊎ ((account : Bytes) × (read : PriceRead) × (deps.pyth_price_account ticker ≡ some account)
            × (price_of deps ticker (deps.hermes_feed_id ticker) ≡ some read)
            × (deps.read_ticker_config ticker account read.expo ≡ ok none))
      → IsTurn deps phase ticker (plain_turn ticker skipped)
  -- The feed, the price or the configuration could not be read.
  fails :
      (ticker : Ticker)
      → (price_of deps ticker (deps.hermes_feed_id ticker) ≡ none)
        ⊎ ((account : Bytes) × (read : PriceRead) × (error : PhaseError) × (deps.pyth_price_account
                ticker
              ≡ some account)
            × (price_of deps ticker (deps.hermes_feed_id ticker) ≡ some read)
            × (deps.read_ticker_config ticker account read.expo ≡ throw error))
      → IsTurn deps phase ticker (plain_turn ticker errored)
  -- The price and the configuration were read.
  reads :
      (ticker : Ticker) (account : Bytes) (read : PriceRead) (current : TickerConfigView)
      (turn : Turn)
      → deps.pyth_price_account ticker ≡ some account
      → price_of deps ticker (deps.hermes_feed_id ticker) ≡ some read
      → deps.read_ticker_config ticker account read.expo ≡ ok (some current)
      → IsSwing deps phase ticker account read current turn
      → IsTurn deps phase ticker turn

module _ (deps : GridPhaseDeps) (phase : SwingPhase) where
  view_turn-IsTurn :
      (ticker : Ticker) (account : Bytes) (read : PriceRead)
      (view : Result PhaseError (Option TickerConfigView)) {turn : Turn}
      → deps.pyth_price_account ticker ≡ some account
      → price_of deps ticker (deps.hermes_feed_id ticker) ≡ some read
      → deps.read_ticker_config ticker account read.expo ≡ view
      → view_turn deps phase ticker account read view ≡ ok turn
      → IsTurn deps phase ticker turn
  unfolding view_turn
  view_turn-IsTurn ticker account read (throw err) a p v e =
      subst (IsTurn deps phase ticker) (ok_injective _ e refl)
        (fails ticker (inr (account, read, err, a, p, v)))
  view_turn-IsTurn ticker account read (ok none) a p v e =
      subst (IsTurn deps phase ticker) (ok_injective _ e refl)
        (skips ticker (inr (account, read, a, p, v)))
  view_turn-IsTurn ticker account read (ok (some current)) {turn} a p v e =
      let (drift, caught, run) =
        >>=-eq-ok (uncaught (drift_bps read.price current.cap_center)) _ e in
      reads ticker account read current turn a p v
        (drift_turn-decides deps phase ticker account read current drift (uncaught-ok _ caught) run)

  swing_turn-IsTurn :
      (ticker : Ticker) (account feed : Option Bytes) (price : Option PriceRead) {turn : Turn}
      → deps.pyth_price_account ticker ≡ account
      → deps.hermes_feed_id ticker ≡ feed
      → price_of deps ticker (deps.hermes_feed_id ticker) ≡ price
      → swing_turn deps phase ticker account feed price ≡ ok turn
      → IsTurn deps phase ticker turn
  unfolding swing_turn
  swing_turn-IsTurn ticker none feed price a f p e =
      subst (IsTurn deps phase ticker) (ok_injective _ e refl) (skips ticker (inl a))
  swing_turn-IsTurn ticker (some account) none price a f p e =
      subst (IsTurn deps phase ticker) (ok_injective _ e refl) (fails ticker (inl (rw f refl)))
  swing_turn-IsTurn ticker (some account) (some feed) none a f p e =
      subst (IsTurn deps phase ticker) (ok_injective _ e refl) (fails ticker (inl p))
  swing_turn-IsTurn ticker (some account) (some feed) (some read) a f p e =
      view_turn-IsTurn ticker account read (deps.read_ticker_config ticker account read.expo) a p
        refl e

  -- One turn for each ticker, in order.
  abbrev pub AreTurns : List Ticker → List Turn → Type 0
  AreTurns [] [] = Unit
  AreTurns [] (turn ∷ turns) = ⊥
  AreTurns (ticker ∷ tickers) [] = ⊥
  AreTurns (ticker ∷ tickers) (turn ∷ turns) =
      IsTurn deps phase ticker turn × AreTurns tickers turns

  turns-AreTurns :
      (tickers : List Ticker) {turns : List Turn}
      → map_result (turn_of deps phase) tickers ≡ ok turns
      → AreTurns tickers turns
  unfolding map_result
  turns-AreTurns [] e = subst (AreTurns []) (ok_injective _ e refl) tt
  turns-AreTurns (ticker ∷ tickers) e =
      let (turn, first, rest) = >>=-eq-ok (turn_of deps phase ticker) _ e in
      let (turns, later, returns) = >>=-eq-ok (map_result (turn_of deps phase) tickers) _ rest in
      subst (AreTurns (ticker ∷ tickers)) (ok_injective _ returns refl) (
        swing_turn-IsTurn ticker (deps.pyth_price_account ticker) (deps.hermes_feed_id ticker)
            (price_of deps ticker (deps.hermes_feed_id ticker)) refl refl refl first,
        turns-AreTurns tickers later,
      )

-- When a wild-swing phase returns inside its window, with a program configured, it has one turn for
-- each of the seven tickers in order. A ticker whose price and configuration are read gets an
-- update exactly if the drift from the configured centre exceeds the ticker's threshold, and the
-- update re-centres on the price and allows exactly the configured strikes and the fresh grid around
-- the price. Nothing is sent for any other ticker: it is skipped only without an account or a
-- configuration, and errored only when the price or the configuration could not be read.
pub run_wild_swing_phase-AreTurns :
    (deps : GridPhaseDeps) (phase : SwingPhase) (outcome : GridPhaseOutcome)
    → deps.program_id_set ≡ true
    → run_wild_swing_phase deps phase true ≡ ok outcome
    → AreTurns deps phase mag7 outcome.turns
unfolding run_wild_swing_phase
run_wild_swing_phase-AreTurns deps phase outcome configured e =
    let run = sym (if_not-true deps.program_id_set _ _ configured) ∙ e in
    let (started, starts, rest) = >>=-eq-ok deps.clients _ run in
    let (turns, are, returns) = >>=-eq-ok (map_result (turn_of deps phase) mag7) _ rest in
    subst (λ o. AreTurns deps phase mag7 o.turns) (ok_injective _ returns refl)
      (turns-AreTurns deps phase mag7 are)
