-- ===== src/Distribution.antt =====
-- services/automation/src/indexer/distribute-v2.ts, with the tables of distribute.ts and merkle-v2.ts:
-- how the reward pool of a period is split over four metrics and ten ranks; Distribution/Run.antt has
-- the run itself. Amounts are counted in cents and in base units (millionths), both whole: from the
-- whole cents of the pool on, the floating-point numbers of the code hold the same values as long as
-- the cents times 10,000 stay below 2^53.
pub mod Run
pub mod Places
pub mod Conserves
use bell_markets.Prelude.{
  ℕ, zero, suc, ◌+◌, ◌*◌, ◌/◌, Bool, true, false, not, List, [], ◌∷◌, ◌++◌, ◌==◌, Option, none,
  some, get_elem?, if◌then◌else◌,
}
use bell_markets.Prelude.Result.{Result, ok, ◌>>=◌, ◌>>◌, throw_if}
use bell_markets.Bytes.{Bytes}

pub data MetricId : Type 0 where
  metric_absolute_profit metric_win_streak metric_win_rate metric_roi : MetricId

abbrev pub ordered_metrics : List MetricId
ordered_metrics = metric_absolute_profit ∷ metric_win_streak ∷ metric_win_rate ∷ metric_roi ∷ []

abbrev pub default_distribution_bps : List ℕ
default_distribution_bps = 2500 ∷ 1800 ∷ 1200 ∷ 1000 ∷ 800 ∷ 700 ∷ 600 ∷ 500 ∷ 500 ∷ 400 ∷ []

unfoldable pub default_metric_pool_split_bps : MetricId → ℕ
default_metric_pool_split_bps metric_absolute_profit = 6000
default_metric_pool_split_bps metric_win_streak = 2000
default_metric_pool_split_bps metric_win_rate = 1500
default_metric_pool_split_bps metric_roi = 500

pub record MetricLeaderboardEntry : Type 0 where
  pub recipient : Bytes
  pub rank : ℕ
  pub amount_base_units : ℕ

pub data Status : Type 0 where
  distributed rolled_over errored stubbed : Status

pub record MultiMetricDistributePosition : Type 0 where
  pub metric_id : MetricId
  pub rank : ℕ
  pub user_pubkey : Option Bytes
  pub amount_base_units : ℕ
  pub status : Status

-- `DEFAULT_DISTRIBUTION_BPS[i] ?? 0`
abbrev or_zero : Option ℕ → ℕ
or_zero none = 0
or_zero (some n) = n

abbrev pub distribution_bps : ℕ → ℕ
distribution_bps i = or_zero (get_elem? default_distribution_bps i)

abbrev pub position_amount : ℕ → ℕ → ℕ
position_amount pool i = pool * distribution_bps i / 10000

unfoldable pub assign_from : ℕ → ℕ → List MetricLeaderboardEntry → List MetricLeaderboardEntry
assign_from pool i [] = []
assign_from pool i (entry ∷ entries) =
    record {
      recipient = entry.recipient;
      rank = entry.rank;
      amount_base_units = position_amount pool i;
    }
    ∷ assign_from pool (i + 1) entries

unfoldable pub assign_amounts_to_ranks :
    List MetricLeaderboardEntry → ℕ → List MetricLeaderboardEntry
assign_amounts_to_ranks entries pool = assign_from pool 0 entries

-- `usdcDollarsToBaseUnits` of a number of cents.
abbrev pub cents_to_base_units : ℕ → ℕ
cents_to_base_units cents = cents * 10000

-- `Math.floor((totalPoolCents * split[m]) / 10000)`, in base units.
unfoldable pub metric_balance : (MetricId → ℕ) → ℕ → MetricId → ℕ
metric_balance split total_pool_cents metric =
    cents_to_base_units (total_pool_cents * split metric / 10000)

abbrev pub sum_over : (MetricId → ℕ) → List MetricId → ℕ
sum_over f [] = 0
sum_over f (metric ∷ metrics) = f metric + sum_over f metrics
