-- ===== src/Payouts/Run.antt =====
-- `runDistributeForPeriod` of services/automation/src/indexer/distribute.ts: its steps put together.
use bell_markets.Prelude.{ℕ, List, Option, none}
use bell_markets.Prelude.Result.{Result, ok, and_then}
use bell_markets.Bytes.{Bytes}
use bell_markets.Leaderboard.{LeaderboardEntry, LeaderboardMerkleTree}
use bell_markets.Payouts.{apply_deterministic_tiebreaker, position_amounts}
use bell_markets.Payouts.Rows.{LeaderboardSnapshot, RewardTables, PayoutError, insert_snapshot}
use bell_markets.Payouts.Period.{
  DistributeForPeriodDeps, PositionOutcome, pay_positions, winners_tree, root_of, snapshot_input,
  commit,
}

pub record DistributeOutcome : Type 0 where
  pub snapshot : LeaderboardSnapshot
  pub per_position : List PositionOutcome
  pub pool_balance_cents : ℕ
  pub rolled_over_cents : ℕ
  pub commit_tx_sig : Option Bytes
  pub arweave_tx_id : Bytes

module _ (deps : DistributeForPeriodDeps) where
  -- `sortedTop`
  abbrev pub sorted_top : List LeaderboardEntry
  sorted_top = apply_deterministic_tiebreaker deps.shuffle deps.top_entries

  -- Step 8, the positions, and the returned outcome.
  unfoldable pub pay_step :
      ℕ
      → Option LeaderboardMerkleTree
      → Bytes
      → LeaderboardSnapshot
      → RewardTables
      → Option Bytes
      → RewardTables × Result PayoutError DistributeOutcome
  pay_step pool_cents tree arweave_tx_id snapshot tables commit_tx_sig =
      and_then
        (pay_positions deps snapshot.id tree sorted_top (position_amounts pool_cents) 0 10 tables)
        (λ after paid.
          let outcome : DistributeOutcome = record {
            snapshot = record snapshot { committed_tx_sig = commit_tx_sig };
            per_position = paid.per_position;
            pool_balance_cents = pool_cents;
            rolled_over_cents = paid.rolled_over_cents;
            commit_tx_sig = commit_tx_sig;
            arweave_tx_id = arweave_tx_id;
          } in
          (after, ok outcome))

  -- Step 7, the commitment of the root.
  unfoldable pub commit_step :
      ℕ
      → Option LeaderboardMerkleTree
      → Bytes
      → RewardTables
      → LeaderboardSnapshot
      → RewardTables × Result PayoutError DistributeOutcome
  commit_step pool_cents tree arweave_tx_id tables snapshot =
      and_then (commit deps (root_of deps tree) arweave_tx_id sorted_top tables)
        (pay_step pool_cents tree arweave_tx_id snapshot)

  -- Step 6, the snapshot.
  unfoldable pub snapshot_step :
      ℕ
      → Option LeaderboardMerkleTree
      → RewardTables
      → Bytes
      → RewardTables × Result PayoutError DistributeOutcome
  snapshot_step pool_cents tree tables arweave_tx_id =
      and_then
        (insert_snapshot (snapshot_input deps (root_of deps tree) arweave_tx_id none sorted_top)
          tables)
        (commit_step pool_cents tree arweave_tx_id)

  -- Step 5, the upload.
  unfoldable pub upload_step :
      ℕ
      → RewardTables
      → Option LeaderboardMerkleTree
      → RewardTables × Result PayoutError DistributeOutcome
  upload_step pool_cents tables tree =
      and_then (tables, deps.upload (root_of deps tree) sorted_top) (snapshot_step pool_cents tree)

  -- Step 4, the tree.
  unfoldable pub tree_step : RewardTables → ℕ → RewardTables × Result PayoutError DistributeOutcome
  tree_step tables pool_cents =
      and_then (tables, winners_tree deps sorted_top (position_amounts pool_cents))
        (upload_step pool_cents)

  -- `runDistributeForPeriod`
  unfoldable pub run_distribute_for_period :
      RewardTables → RewardTables × Result PayoutError DistributeOutcome
  run_distribute_for_period tables =
      and_then (tables, deps.read_pool_balance deps.period.kind) tree_step
