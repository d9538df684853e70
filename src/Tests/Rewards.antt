-- ===== src/Tests/Rewards.antt =====
-- A distribution, projected fees and runs of the retry loop.
use bell_markets.Prelude.{
  ℕ, ◌+◌, ◌*◌, ◌≤◌, ◌≡◌, refl, arith, true, replicate, List, [], ◌∷◌, some, leb, if◌then◌else◌,
}
use bell_markets.Prelude.Int.{pos, pos_part}
use bell_markets.Fees.{ProjectMintFeeParams, project_mint_fee, tier_for_volume, fee_bps_for_tier}
use bell_markets.Fees.Bounds.{
  IsProjection, project_mint_fee-IsProjection, project_mint_fee_antitone, with_volume,
}
use bell_markets.Retry.{
  Attempt, resolves, rejects, World, RetryResult, success, after_attempt, retry_loop,
  retry_until_deadline,
}
use bell_markets.Retry.Outcome.{IsOutcome, retry_until_deadline-IsOutcome}
use bell_markets.Retry.Fuel.{retry_until_deadline-returns}
use bell_markets.Prelude.Result.{Result, ok, throw}
use bell_markets.Bytes.{copy_at, le_bytes, le_buffer}
use bell_markets.Base58.{decode_pubkey, decode_bytes, digits_from, count_leading}
use bell_markets.Merkle.{layers_from, next_layer, hash_sorted_pair, generate_sorted_pair_proof}
use bell_markets.MetricTree.{
  metric_code, leaf_message_v2, hash_leaf_v2, metric_leaves, leaves_of_metric, collect_leaves,
  build_layers_v2, build_multi_metric_merkle_tree, metric_proof_for, metric_proof_bytes_for,
  index_map_get, has_key,
}
use bell_markets.Distribution.{
  MetricId, metric_absolute_profit, metric_win_streak, metric_win_rate, metric_roi,
  MetricLeaderboardEntry, default_metric_pool_split_bps, assign_from, assign_amounts_to_ranks,
  metric_balance,
}
use bell_markets.Distribution.Run.{
  paid, MultiMetricDistributeDeps, DistributeError, Payout, run_multi_metric_distribute, tree_of,
  total_leaf_count, commit, pay_metrics, pay_ranks, pay_position,
}
use bell_markets.Distribution.Conserves.{Settles, run_multi_metric_distribute-Settles}
use bell_markets.Tests.Trees.{test_sha}

abbrev test_fee : ProjectMintFeeParams
test_fee = record {
  amount_micros = 5000000;
  config_mint_fee_bps = 200;
  user_mint_volume_30d_micros = 0;
  creator_rebate_applies = true;
  config_creator_rebate_bps = 2500;
}

project_mint_fee-IsFee_example : (fee : ℕ) × IsProjection test_fee fee
project_mint_fee-IsFee_example = project_mint_fee-IsProjection test_fee (omega arith)

-- Three quarters of 2% of $5.
project_mint_fee_test : (project_mint_fee test_fee).fee_micros ≡ pos 75000
unfolding project_mint_fee tier_for_volume fee_bps_for_tier
project_mint_fee_test = refl

project_mint_fee_antitone_example :
    pos_part (project_mint_fee (with_volume test_fee 2000000000)).fee_micros
    ≤ pos_part (project_mint_fee test_fee).fee_micros
project_mint_fee_antitone_example =
    project_mint_fee_antitone test_fee 2000000000 (omega arith) (omega arith)

-- A clock that gains 10 ms a reading, and a function that fails twice.
abbrev test_attempt : ℕ → Attempt ℕ ℕ
test_attempt n = if leb 3 n then resolves 99 else rejects n

abbrev test_world : World ℕ ℕ
test_world = record {
  clock = λ k. 1000 + 10 * k;
  attempt = test_attempt;
  should_retry = λ error n. true;
  interval_ms = 10;
  deadline_ms = 70;
}

abbrev test_run : retry_until_deadline test_world 4 ≡ some (success 99 3 60)
unfolding retry_until_deadline retry_loop after_attempt
test_run = refl

retry_until_deadline-IsOutcome_example : IsOutcome test_world (success 99 3 60)
retry_until_deadline-IsOutcome_example = retry_until_deadline-IsOutcome test_world 4 test_run

retry_until_deadline-returns_example :
    (result : RetryResult ℕ ℕ) × (retry_until_deadline test_world 71 ≡ some result)
retry_until_deadline-returns_example =
    retry_until_deadline-returns test_world
      (record {
        forward = λ k. omega arith;
        sleeps = λ n error positive rejected retry early. omega arith;
      })
      (omega arith)

-- One winner of the first metric; every other rank rolls over. The pool of "123.45" has 12345 cents.
abbrev test_leaderboard : MetricId → List MetricLeaderboardEntry
test_leaderboard metric_absolute_profit =
    record { recipient = replicate 32 49; rank = 1; amount_base_units = 0 } ∷ []
test_leaderboard metric_win_streak = []
test_leaderboard metric_win_rate = []
test_leaderboard metric_roi = []

abbrev test_multi_deps : MultiMetricDistributeDeps
test_multi_deps = record {
  sha256 = test_sha;
  period_id = 9;
  period_type = 0;
  split = default_metric_pool_split_bps;
  top_n = 10;
  fetch_leaderboards = ok test_leaderboard;
  read_pool_balance = ok (49 ∷ 50 ∷ 51 ∷ 46 ∷ 52 ∷ 53 ∷ []);
  floor_cents = λ s. ok 12345;
  upload = λ root. ok (7 ∷ []);
  insert_snapshot = λ root tx_id committed. ok tt;
  commit_leaderboard_root = λ root tx_id. ok true;
  distribute_rewards = λ input. ok paid;
}

abbrev no_payout : Payout
no_payout = record { per_position = []; rolled_over_base_units = 0 }

abbrev payout_of : Result DistributeError Payout → Payout
payout_of (ok payout) = payout
payout_of (throw e) = no_payout

abbrev test_payout : Payout
test_payout = payout_of (run_multi_metric_distribute test_multi_deps)

multi_paid : run_multi_metric_distribute test_multi_deps ≡ ok test_payout
unfolding run_multi_metric_distribute default_metric_pool_split_bps tree_of total_leaf_count commit
    pay_metrics pay_ranks pay_position assign_amounts_to_ranks assign_from metric_balance
    metric_proof_for metric_proof_bytes_for index_map_get has_key generate_sorted_pair_proof
    build_multi_metric_merkle_tree collect_leaves leaves_of_metric metric_leaves hash_leaf_v2
    leaf_message_v2 metric_code build_layers_v2 layers_from next_layer hash_sorted_pair
    decode_pubkey decode_bytes digits_from count_leading copy_at le_bytes le_buffer
multi_paid = refl

run_multi_metric_distribute-Settles_example : Settles test_multi_deps test_payout
run_multi_metric_distribute-Settles_example =
    run_multi_metric_distribute-Settles test_multi_deps refl multi_paid
