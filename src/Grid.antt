-- ===== src/Grid.antt =====
-- services/automation/src/ticker-config.ts and strike-calc.ts: the strikes that are listed around a
-- price. A price is a whole number of units, of which `unit` make a dollar, and a strike a whole
-- number of dollars; the quotients of the code are exact here, where it computes them with
-- floating-point numbers. The prices and tick sizes of the model are not negative: the code throws
-- on a negative one as on 0.
pub mod Sets
pub mod Rounding
pub mod Strikes
pub mod Expanded
pub mod Update
pub mod Phases
pub mod Updated
pub mod WildSwing
pub mod Drift
pub mod Anchored
pub mod Sent
use bell_markets.Prelude.{
  ℕ, ◌+◌, ◌-◌, ◌*◌, ◌/◌, Bool, List, [], ◌∷◌, ◌++◌, ltb, ◌==◌, if◌then◌else◌,
}
use bell_markets.Prelude.Result.{Result, ok, ◌>>=◌, ◌>>◌, throw_if, map_result}
use bell_markets.Grid.Sets.{filter, distinct, sort}

pub data Ticker : Type 0 where
  aapl msft googl amzn nvda meta tsla : Ticker

-- `MAG7`
abbrev pub mag7 : List Ticker
mag7 = aapl ∷ msft ∷ googl ∷ amzn ∷ nvda ∷ meta ∷ tsla ∷ []

pub record TickerDefaults : Type 0 where
  pub default_deviation_cap_bps : ℕ
  pub strike_tick_size_usd : ℕ
  pub wild_swing_threshold_bps : ℕ

abbrev high_volatility : TickerDefaults
high_volatility = record {
  default_deviation_cap_bps = 3000;
  strike_tick_size_usd = 5;
  wild_swing_threshold_bps = 800;
}

abbrev low_volatility : TickerDefaults
low_volatility = record {
  default_deviation_cap_bps = 1500;
  strike_tick_size_usd = 1;
  wild_swing_threshold_bps = 400;
}

-- `TICKER_DEFAULTS`
unfoldable pub ticker_defaults : Ticker → TickerDefaults
ticker_defaults nvda = high_volatility
ticker_defaults meta = high_volatility
ticker_defaults tsla = high_volatility
ticker_defaults amzn = record {
  default_deviation_cap_bps = 2000;
  strike_tick_size_usd = 2;
  wild_swing_threshold_bps = 600;
}
ticker_defaults aapl = low_volatility
ticker_defaults msft = low_volatility
ticker_defaults googl = low_volatility

pub data PhaseLabel : Type 0 where
  anchor ah pm earnings_pre earnings_restore : PhaseLabel

-- The throws of the two files, by what is wrong.
pub data GridError : Type 0 where
  tick_not_positive price_not_positive strike_not_positive : GridError
  step_not_positive previous_close_not_positive : GridError

-- `Math.round(n / d)`: a half is rounded up.
unfoldable pub round_ratio : ℕ → ℕ → ℕ
round_ratio n d = (2 * n + d) / (2 * d)

-- `roundToTick(n / d, tickSize)`
unfoldable pub round_to_tick : ℕ → ℕ → ℕ → Result GridError ℕ
round_to_tick n d tick_size = do
  throw_if (tick_size == 0) tick_not_positive
  ok (round_ratio n (d * tick_size) * tick_size)

-- 1 + each of the offsets, in hundredths, and the 1 of the price itself.
abbrev pub grid_percents : List ℕ
grid_percents = 91 ∷ 94 ∷ 97 ∷ 103 ∷ 106 ∷ 109 ∷ 100 ∷ []

-- `Array.from(new Set(candidates.filter((s) => s > 0))).sort((a, b) => a - b)`
abbrev pub unique_strikes : List ℕ → List ℕ
unique_strikes candidates = sort (distinct (filter (λ s. ltb 0 s) candidates))

-- `computeStrikeGrid`
unfoldable pub compute_strike_grid : ℕ → ℕ → ℕ → Result GridError (List ℕ)
compute_strike_grid unit cap_center tick_size = do
  throw_if (cap_center == 0) price_not_positive
  candidates ←
      map_result (λ percent. round_to_tick (cap_center * percent) (100 * unit) tick_size)
        grid_percents
  ok (unique_strikes candidates)

-- `|a - b|`
abbrev pub distance : ℕ → ℕ → ℕ
distance a b = (a - b) + (b - a)

-- `driftBps`
unfoldable pub drift_bps : ℕ → ℕ → Result GridError ℕ
drift_bps spot cap_center = do
  throw_if (cap_center == 0) price_not_positive
  ok (round_ratio (distance spot cap_center * 10000) cap_center)

-- `expandedStrikeGrid`
unfoldable pub expanded_strike_grid : ℕ → ℕ → ℕ → List ℕ → Result GridError (List ℕ)
expanded_strike_grid unit new_spot tick_size existing_strikes = do
  fresh ← compute_strike_grid unit new_spot tick_size
  ok (sort (filter (λ s. ltb 0 s) (distinct (existing_strikes ++ fresh))))

-- `phaseLabelToOnChainCode`
unfoldable pub phase_label_to_on_chain_code : PhaseLabel → ℕ
phase_label_to_on_chain_code anchor = 0
phase_label_to_on_chain_code ah = 1
phase_label_to_on_chain_code pm = 2
phase_label_to_on_chain_code earnings_pre = 3
phase_label_to_on_chain_code earnings_restore = 4

-- `STRIKE_ROUNDING_USD`
abbrev pub strike_rounding_usd : ℕ
strike_rounding_usd = 10

-- `roundToNearest(n / d, step)` of strike-calc.ts
unfoldable pub round_to_nearest : ℕ → ℕ → ℕ → Result GridError ℕ
round_to_nearest n d step = do
  throw_if (step == 0) step_not_positive
  ok (round_ratio n (d * step) * step)

-- `STRIKE_PERCENT_OFFSETS` of types.ts: 1 + each of the offsets, in hundredths.
abbrev pub strike_percent_offsets : List ℕ
strike_percent_offsets = 91 ∷ 94 ∷ 97 ∷ 103 ∷ 106 ∷ 109 ∷ []

-- `computeStrikesForStock` of strike-calc.ts
unfoldable pub compute_strikes_for_stock : ℕ → ℕ → Result GridError (List ℕ)
compute_strikes_for_stock unit previous_close = do
  throw_if (previous_close == 0) previous_close_not_positive
  candidates ←
      map_result
        (λ percent. round_to_nearest (previous_close * percent) (100 * unit) strike_rounding_usd)
        strike_percent_offsets
  close_strike ← round_to_nearest previous_close unit strike_rounding_usd
  ok (sort (distinct (filter (λ s. ltb 0 s) (candidates ++ (close_strike ∷ [])))))
