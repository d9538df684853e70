-- ===== src/Tests/Grids.antt =====
-- The grid around some prices, a wild swing and the call that it sends.
use bell_markets.Prelude.{ℕ, ◌≡◌, refl, subst, ◌<◌, arith, true, List, [], ◌∷◌, none, some}
use bell_markets.Prelude.Result.{Result, ok, map_result}
use bell_markets.Grid.{
  Ticker, aapl, mag7, ticker_defaults, ah, compute_strike_grid, expanded_strike_grid,
  compute_strikes_for_stock, round_to_tick, round_ratio, strike_rounding_usd, drift_bps,
}
use bell_markets.Grid.Sets.{elem, filter, distinct, sort, insert_ascending}
use bell_markets.Grid.Strikes.{IsGrid, compute_strike_grid-IsGrid}
use bell_markets.Grid.Expanded.{
  IsExpanded, compute_strikes_for_stock-eq_grid, expanded_strike_grid-IsExpanded,
}
use bell_markets.Grid.Update.{
  UpdateTickerConfigInput, UpdateTickerConfigCall, BellMarketsAnchorClient, update_ticker_config,
  default_update_ticker_config_tx, sent_as, scale_strike_to_i64,
}
use bell_markets.Grid.Sent.{IsCall, default_update_ticker_config_tx-IsCall}
use bell_markets.Grid.Phases.{
  GridPhaseDeps, GridPhaseOutcome, PriceRead, update_input, price_of, run_anchor_phase,
}
use mathlib.Core.Option.{some-injective}
use bell_markets.Grid.Anchored.{AreAnchorTurns, run_anchor_phase-returns}
use bell_markets.Grid.WildSwing.{
  after_hours, drift_turn, view_turn, swing_turn, run_wild_swing_phase,
}
use bell_markets.Grid.Drift.{AreTurns, run_wild_swing_phase-AreTurns}

-- A dollar has 100 units here: the grid around $437 with a tick of $2.
compute_strike_grid-IsGrid_example :
    (grid : List ℕ) × (compute_strike_grid 100 43700 2 ≡ ok grid) × IsGrid 100 43700 2 grid
compute_strike_grid-IsGrid_example =
    compute_strike_grid-IsGrid 100 43700 2 (omega arith) (omega arith) (omega arith)

grid_test : compute_strike_grid 100 43700 2 ≡ ok (398 ∷ 410 ∷ 424 ∷ 438 ∷ 450 ∷ 464 ∷ 476 ∷ [])
unfolding compute_strike_grid round_to_tick round_ratio map_result elem filter distinct sort
    insert_ascending
grid_test = refl

compute_strikes_for_stock-eq_grid_example :
    (strikes : List ℕ) × (compute_strikes_for_stock 100 23000 ≡ ok strikes)
    × (compute_strike_grid 100 23000 strike_rounding_usd ≡ ok strikes)
compute_strikes_for_stock-eq_grid_example =
    compute_strikes_for_stock-eq_grid 100 23000 (omega arith) (omega arith)

-- The existing 400 stays.
abbrev test_expanded : List ℕ
test_expanded = 398 ∷ 400 ∷ 410 ∷ 424 ∷ 438 ∷ 450 ∷ 464 ∷ 476 ∷ []

expanded_test : expanded_strike_grid 100 43700 2 (400 ∷ 410 ∷ []) ≡ ok test_expanded
unfolding expanded_strike_grid compute_strike_grid round_to_tick round_ratio map_result filter
    distinct sort insert_ascending
expanded_test = refl

expanded_strike_grid-IsExpanded_example :
    (fresh : List ℕ) × (compute_strike_grid 100 43700 2 ≡ ok fresh)
    × IsExpanded (400 ∷ 410 ∷ []) fresh test_expanded
expanded_strike_grid-IsExpanded_example =
    expanded_strike_grid-IsExpanded 100 43700 2 (400 ∷ 410 ∷ []) expanded_test

abbrev test_client : BellMarketsAnchorClient
test_client = record {
  program = ok true;
  program_id = 1 ∷ [];
  admin = 2 ∷ [];
  system_program = 3 ∷ [];
  find_program_address = λ seeds program. program;
  rpc = λ call. ok (7 ∷ []);
}

abbrev test_input : UpdateTickerConfigInput
test_input = update_input aapl 23000 (209 ∷ 230 ∷ 251 ∷ []) ah (4 ∷ []) none 5

sent_test : default_update_ticker_config_tx 100 test_client test_input ≡ sent_as (7 ∷ [])
unfolding default_update_ticker_config_tx update_ticker_config scale_strike_to_i64 map_result
    round_ratio ticker_defaults
sent_test = refl

default_update_ticker_config_tx-IsCall_example :
    (call : UpdateTickerConfigCall) × (test_client.rpc call ≡ ok (7 ∷ []))
    × IsCall 100 test_client test_input call
default_update_ticker_config_tx-IsCall_example =
    default_update_ticker_config_tx-IsCall 100 test_client test_input (7 ∷ []) sent_test

-- Every price is $437 and every centre $400, so the drift is 925 basis points.
abbrev test_deps : GridPhaseDeps
test_deps = record {
  unit = 100;
  program_id_set = true;
  next_close = ok 1700000000;
  clients = ok tt;
  pyth_price_account = λ ticker. some (4 ∷ []);
  hermes_feed_id = λ ticker. some (5 ∷ []);
  get_previous_close = λ ticker feed. some (record { price = 43700; expo = 5 });
  read_ticker_config =
      λ ticker account expo. ok (some (record { cap_center = 40000; allowed_strikes = 400 ∷ [] }));
  update_fn = default_update_ticker_config_tx 100 test_client;
}

abbrev value_of : {E A : Type 0} → Result E A → A → A
value_of (ok a) default = a
value_of e default = default

abbrev no_outcome : GridPhaseOutcome
no_outcome = record { phase = ah; turns = []; stub = true; anchored_expiry = none }

abbrev test_outcome : GridPhaseOutcome
test_outcome = value_of (run_wild_swing_phase test_deps after_hours true) no_outcome

swing_test : run_wild_swing_phase test_deps after_hours true ≡ ok test_outcome
unfolding run_wild_swing_phase map_result swing_turn view_turn drift_turn drift_bps ticker_defaults
    expanded_strike_grid compute_strike_grid round_to_tick round_ratio filter distinct sort
    insert_ascending
swing_test = refl

run_wild_swing_phase-AreTurns_example : AreTurns test_deps after_hours mag7 test_outcome.turns
run_wild_swing_phase-AreTurns_example =
    run_wild_swing_phase-AreTurns test_deps after_hours test_outcome refl swing_test

positive_prices :
    (ticker : Ticker) (read : PriceRead)
    → price_of test_deps ticker (test_deps.hermes_feed_id ticker) ≡ some read
    → 0 < read.price
positive_prices ticker read e =
    subst (λ (r : PriceRead). 0 < r.price) (some-injective _ _ e) (omega arith)

run_anchor_phase-returns_example :
    (outcome : GridPhaseOutcome) × (run_anchor_phase test_deps ≡ ok outcome)
    × (outcome.anchored_expiry ≡ some 1700000000)
    × AreAnchorTurns test_deps 1700000000 mag7 outcome.turns
run_anchor_phase-returns_example =
    run_anchor_phase-returns test_deps 1700000000 refl refl refl (omega arith) positive_prices
