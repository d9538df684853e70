-- ===== src/Distribution/Run.antt =====
-- `runMultiMetricDistribute` of services/automation/src/indexer/distribute-v2.ts. The leaderboards, the
-- pool's balance with its reading as a floating-point number, the upload, the snapshot's insertions,
-- the commitment of the root and the call of the program are parameters, and so is SHA-256; the rows
-- of distributions, whose insertions never stop the run, and the logs are left out.
use bell_markets.Prelude.{
  ℕ, zero, suc, ◌+◌, Bool, true, false, not, List, [], ◌∷◌, ◌++◌, ◌==◌, Option, none, some,
  get_elem?, length, if◌then◌else◌,
}
use bell_markets.Prelude.Result.{Result, ok, throw, ◌>>=◌, ◌>>◌, throw_if}
use bell_markets.Bytes.{Bytes}
use bell_markets.Distribution.{
  MetricId, ordered_metrics, MetricLeaderboardEntry, MultiMetricDistributePosition, Status,
  distributed, rolled_over, errored, stubbed, position_amount, assign_amounts_to_ranks,
  metric_balance, sum_over,
}
use bell_markets.MetricTree.{
  MultiMetricMerkleTree, MetricTreeError, build_multi_metric_merkle_tree, metric_proof_for,
}

-- What the call of the program answers: `refused` with whether the error says that the program is
-- not there yet.
pub data DistributeAnswer : Type 0 where
  paid : DistributeAnswer
  refused : Bool → DistributeAnswer

-- What a run throws: its own errors, the tree's, and those of what it calls.
pub data DistributeError : Type 0 where
  bad_split : ℕ → DistributeError
  tree_error : MetricTreeError → DistributeError
  leaderboards_rejected pool_rejected pool_not_a_number upload_rejected : DistributeError
  snapshot_rejected commit_rejected call_rejected : DistributeError

-- What `distributeFn` is given for a position.
pub record DistributeInput : Type 0 where
  pub metric_id : MetricId
  pub recipient : Bytes
  pub position : ℕ
  pub amount_base_units : ℕ
  pub merkle_proof_hex : List (List ℕ)

-- `MultiMetricDistributeDeps`. `floor_cents` is `Math.floor(Number(s) * 100)`, computed in floating
-- point; the commitment answers whether it succeeded, and a snapshot's insertion is told so.
pub record MultiMetricDistributeDeps : Type 0 where
  pub sha256 : Bytes → Bytes
  pub period_id : ℕ
  pub period_type : ℕ
  pub split : MetricId → ℕ
  pub top_n : ℕ
  pub fetch_leaderboards : Result DistributeError (MetricId → List MetricLeaderboardEntry)
  pub read_pool_balance : Result DistributeError Bytes
  pub floor_cents : Bytes → Result DistributeError ℕ
  pub upload : Option (List ℕ) → Result DistributeError Bytes
  pub insert_snapshot : Option (List ℕ) → Bytes → Bool → Result DistributeError (Unit {0})
  pub commit_leaderboard_root : List ℕ → Bytes → Result DistributeError Bool
  pub distribute_rewards : DistributeInput → Result DistributeError DistributeAnswer

abbrev tree_result : {A : Type 0} → Result MetricTreeError A → Result DistributeError A
tree_result (ok a) = ok a
tree_result (throw e) = throw (tree_error e)

abbrev pub status_of : DistributeAnswer → Status
status_of paid = distributed
status_of (refused true) = stubbed
status_of (refused false) = errored

-- `totalLeafCount`
unfoldable pub total_leaf_count : (MetricId → List MetricLeaderboardEntry) → List MetricId → ℕ
total_leaf_count entries [] = 0
total_leaf_count entries (metric ∷ metrics) =
    length (entries metric) + total_leaf_count entries metrics

-- `tree && merkleRootHex ? tree.proofFor(metricId, rank) : []`
abbrev pub proof_of :
    Option MultiMetricMerkleTree → MetricId → ℕ → Result DistributeError (List (List ℕ))
proof_of none metric rank = ok []
proof_of (some tree) metric rank = tree_result (metric_proof_for tree metric rank)

-- What one turn of the inner loop records at rank `i + 1`, and what it adds to the roll-over.
pub record Turn : Type 0 where
  pub position : MultiMetricDistributePosition
  pub rolled : ℕ

pub record Payout : Type 0 where
  pub per_position : List MultiMetricDistributePosition
  pub rolled_over_base_units : ℕ

module _ (deps : MultiMetricDistributeDeps) where
  -- The tree over the entries of all metrics, when there are any.
  unfoldable pub tree_of :
      (MetricId → List MetricLeaderboardEntry)
      → Result DistributeError (Option MultiMetricMerkleTree)
  tree_of entries =
      if total_leaf_count entries ordered_metrics == 0
      then ok none
      else (tree_result (
            build_multi_metric_merkle_tree deps.sha256 (λ metric. some (entries metric))
              deps.period_id deps.period_type)
          >>= λ tree. ok (some tree))

  abbrev pub root_of : Option MultiMetricMerkleTree → Option (List ℕ)
  root_of none = none
  root_of (some tree) = some tree.root

  unfoldable pub pay_position :
      Option MultiMetricMerkleTree
      → MetricId
      → ℕ
      → ℕ
      → Option MetricLeaderboardEntry
      → Result DistributeError Turn
  pay_position tree metric pool i none = ok (record {
    position = record {
      metric_id = metric;
      rank = i + 1;
      user_pubkey = none;
      amount_base_units = position_amount pool i;
      status = rolled_over;
    };
    rolled = position_amount pool i;
  })
  pay_position tree metric pool i (some entry) = proof_of tree metric (i + 1) >>= λ proof.
      deps.distribute_rewards (record {
        metric_id = metric;
        recipient = entry.recipient;
        position = i + 1;
        amount_base_units = entry.amount_base_units;
        merkle_proof_hex = proof;
      })
      >>= λ answer. ok (record {
        position = record {
          metric_id = metric;
          rank = i + 1;
          user_pubkey = some entry.recipient;
          amount_base_units = entry.amount_base_units;
          status = status_of answer;
        };
        rolled = 0;
      })

  -- `left` turns of the inner loop, from rank `i + 1` on.
  unfoldable pub pay_ranks :
      Option MultiMetricMerkleTree
      → MetricId
      → ℕ
      → List MetricLeaderboardEntry
      → ℕ
      → ℕ
      → Result DistributeError Payout
  pay_ranks tree metric pool entries i zero =
      let nothing : Payout = record { per_position = []; rolled_over_base_units = 0 } in ok nothing
  pay_ranks tree metric pool entries i (suc left) =
      pay_position tree metric pool i (get_elem? entries i) >>= λ turn.
      pay_ranks tree metric pool entries (i + 1) left >>= λ rest.
      let all : Payout = record {
        per_position = turn.position ∷ rest.per_position;
        rolled_over_base_units = turn.rolled + rest.rolled_over_base_units;
      } in
      ok all

  unfoldable pub pay_metrics :
      Option MultiMetricMerkleTree
      → (MetricId → List MetricLeaderboardEntry)
      → (MetricId → ℕ)
      → List MetricId
      → Result DistributeError Payout
  pay_metrics tree entries balance [] =
      let nothing : Payout = record { per_position = []; rolled_over_base_units = 0 } in ok nothing
  pay_metrics tree entries balance (metric ∷ metrics) =
      pay_ranks tree metric (balance metric) (entries metric) 0 deps.top_n >>= λ here.
      pay_metrics tree entries balance metrics >>= λ rest.
      let all : Payout = record {
        per_position = here.per_position ++ rest.per_position;
        rolled_over_base_units = here.rolled_over_base_units + rest.rolled_over_base_units;
      } in
      ok all

  -- Step 6: a committed root writes the snapshot again.
  unfoldable pub commit : Option (List ℕ) → Bytes → Result DistributeError (Unit {0})
  commit none arweave_tx_id = ok tt
  commit (some root) arweave_tx_id =
      deps.commit_leaderboard_root root arweave_tx_id >>= λ committed.
      if committed then deps.insert_snapshot (some root) arweave_tx_id true else ok tt

  -- `assignAmountsToRanks` for a metric.
  abbrev pub entries_of :
      (MetricId → List MetricLeaderboardEntry) → ℕ → MetricId → List MetricLeaderboardEntry
  entries_of leaderboard cents metric =
      assign_amounts_to_ranks (leaderboard metric) (metric_balance deps.split cents metric)

  -- `runMultiMetricDistribute`
  unfoldable pub run_multi_metric_distribute : Result DistributeError Payout
  run_multi_metric_distribute = do
    throw_if (not (sum_over deps.split ordered_metrics == 10000))
        (bad_split (sum_over deps.split ordered_metrics))
    leaderboard ← deps.fetch_leaderboards
    total_pool ← deps.read_pool_balance
    cents ← deps.floor_cents total_pool
    tree ← tree_of (entries_of leaderboard cents)
    arweave_tx_id ← deps.upload (root_of tree)
    deps.insert_snapshot (root_of tree) arweave_tx_id false
    commit (root_of tree) arweave_tx_id
    pay_metrics tree (entries_of leaderboard cents) (metric_balance deps.split cents)
        ordered_metrics
