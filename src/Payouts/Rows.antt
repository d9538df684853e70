-- ===== src/Payouts/Rows.antt =====
-- The tables leaderboard_snapshots and distributions, and the insertions into them of
-- services/automation/src/db/queries.ts. Columns that the database fills from its own clock are left out, and
-- amounts are in cents.
use bell_markets.Prelude.{ℕ, suc, Bool, true, false, ◌&&◌, List, Option, none, some, ◌==◌}
use bell_markets.Prelude.Result.{Result}
use mathlib.Core.Option as Option
use bell_markets.Bytes.{Bytes}
use bell_markets.Database.{find, upsert}
use bell_markets.Database.Queries.{returned}
use bell_markets.Leaderboard.{LeaderboardEntry, LeaderboardError}

pub data PeriodKind : Type 0 where
  weekly monthly : PeriodKind

abbrev pub same_kind : PeriodKind → PeriodKind → Bool
same_kind weekly weekly = true
same_kind monthly monthly = true
same_kind _ _ = false

pub record LeaderboardSnapshot : Type 0 where
  pub id : ℕ
  pub period_kind : PeriodKind
  pub period_id : ℕ
  pub period_start : ℕ
  pub period_end : ℕ
  pub merkle_root : Option (List ℕ)
  pub arweave_tx_id : Option Bytes
  pub committed_tx_sig : Option Bytes
  pub participants_count : ℕ
  pub full_leaderboard_json : List LeaderboardEntry

pub record DistributionRow : Type 0 where
  pub id : ℕ
  pub snapshot_id : ℕ
  pub position : ℕ
  pub user_pubkey : Option (List ℕ)
  pub amount_cents : ℕ
  pub tx_sig : Option Bytes
  pub merkle_proof : Option (List (List ℕ))

pub record RewardTables : Type 0 where
  pub leaderboard_snapshots : List LeaderboardSnapshot
  pub next_snapshot_id : ℕ
  pub distributions : List DistributionRow
  pub next_distribution_id : ℕ

-- The throws of a period's distribution.
pub data PayoutError : Type 0 where
  no_snapshot_row no_distribution_row pool_unreadable upload_failed : PayoutError
  tree_failed : LeaderboardError → PayoutError

abbrev pub has_period : PeriodKind → ℕ → LeaderboardSnapshot → Bool
has_period kind period_id row = same_kind row.period_kind kind && (row.period_id == period_id)

abbrev pub has_place : ℕ → ℕ → DistributionRow → Bool
has_place snapshot_id position row = (row.snapshot_id == snapshot_id) && (row.position == position)

abbrev pub coalesce : {A : Type 0} → Option A → Option A → Option A
coalesce none b = b
coalesce (some a) b = some a

-- `insertSnapshot`; the database fills the `id` of the row that it is given.
unfoldable pub insert_snapshot :
    LeaderboardSnapshot → RewardTables → RewardTables × Result PayoutError LeaderboardSnapshot
insert_snapshot input tables =
    let snapshots =
      upsert (has_period input.period_kind input.period_id)
        (λ row. record row {
          merkle_root = coalesce input.merkle_root row.merkle_root;
          arweave_tx_id = coalesce input.arweave_tx_id row.arweave_tx_id;
          committed_tx_sig = coalesce input.committed_tx_sig row.committed_tx_sig;
        })
        (record input { id = tables.next_snapshot_id }) tables.leaderboard_snapshots in
    (
      record tables {
        leaderboard_snapshots = snapshots;
        next_snapshot_id = suc tables.next_snapshot_id;
      },
      returned (find (has_period input.period_kind input.period_id) snapshots) no_snapshot_row,
    )

-- `insertDistribution`
unfoldable pub insert_distribution :
    DistributionRow → RewardTables → RewardTables × Result PayoutError ℕ
insert_distribution input tables =
    let rows =
      upsert (has_place input.snapshot_id input.position)
        (λ row. record row { tx_sig = coalesce input.tx_sig row.tx_sig })
        (record input { id = tables.next_distribution_id }) tables.distributions in
    (
      record tables {
        distributions = rows;
        next_distribution_id = suc tables.next_distribution_id;
      },
      returned (Option.map (λ row. row.id) (find (has_place input.snapshot_id input.position) rows))
          no_distribution_row,
    )
