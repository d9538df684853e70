-- ===== src/Tests/Metrics.antt =====
-- A tree over one winner of each of two metrics, over the stand-in for SHA-256.
use bell_markets.Prelude.{ℕ, ◌≡◌, refl, List, [], ◌∷◌, some, none, replicate, arith}
use bell_markets.Prelude.Result.{ok}
use bell_markets.Bytes.{Bytes, alloc, copy_at, le_bytes, le_buffer, hex}
use bell_markets.Base58.{decode_pubkey, decode_bytes, digits_from, count_leading}
use bell_markets.Merkle.{layers_from, next_layer, hash_sorted_pair}
use bell_markets.Distribution.{
  MetricId, metric_absolute_profit, metric_win_streak, metric_win_rate, metric_roi,
}
use bell_markets.MetricTree.{
  MultiMetricLeaf, MultiMetricMerkleTree, MultiMetricLeaderboard, metric_code, leaf_message_v2,
  hash_leaf_v2, metric_leaves, leaves_of_metric, collect_leaves, build_layers_v2,
  build_multi_metric_merkle_tree,
}
use bell_markets.MetricTree.Provable.{HasMetricProof, build_multi_metric_merkle_tree-HasMetricProof}
use bell_markets.MetricTree.Encoding.{SameLeaf, leaf_message_v2_injective}
use bell_markets.Tests.Trees.{test_sha}

abbrev metric_board : MultiMetricLeaderboard
metric_board metric_absolute_profit =
    some (record { recipient = replicate 32 49; rank = 1; amount_base_units = 500 } ∷ [])
metric_board metric_win_streak =
    some (record { recipient = replicate 32 49; rank = 1; amount_base_units = 70 } ∷ [])
metric_board metric_win_rate = some []
metric_board metric_roi = none

abbrev metric_leaf : MetricId → ℕ → MultiMetricLeaf
metric_leaf metric amount = record {
  metric_id = metric;
  rank = 1;
  recipient = replicate 32 49;
  amount_base_units = amount;
  leaf_bytes = test_sha (leaf_message_v2 (alloc 32) (metric_code metric) 1 amount 9 0);
  leaf_hex = hex (test_sha (leaf_message_v2 (alloc 32) (metric_code metric) 1 amount 9 0));
}

abbrev metric_root : Bytes
metric_root = 64 ∷ 47 ∷ replicate 30 0

abbrev metric_layers : List (List Bytes)
metric_layers =
    ((metric_leaf metric_absolute_profit 500).leaf_bytes
      ∷ (metric_leaf metric_win_streak 70).leaf_bytes
      ∷ [])
    ∷ (metric_root ∷ [])
    ∷ []

abbrev metric_tree : MultiMetricMerkleTree
metric_tree = record {
  root = hex metric_root;
  root_bytes = metric_root;
  leaves = metric_leaf metric_absolute_profit 500 ∷ metric_leaf metric_win_streak 70 ∷ [];
  leaf_count = 2;
  layers = metric_layers;
}

metric_built : build_multi_metric_merkle_tree test_sha metric_board 9 0 ≡ ok metric_tree
unfolding build_multi_metric_merkle_tree collect_leaves leaves_of_metric metric_leaves hash_leaf_v2
    leaf_message_v2 metric_code build_layers_v2 layers_from next_layer hash_sorted_pair
    decode_pubkey decode_bytes digits_from count_leading copy_at le_bytes le_buffer
metric_built = refl

build_multi_metric_merkle_tree-HasMetricProof_example :
    HasMetricProof test_sha metric_tree metric_win_streak 1
build_multi_metric_merkle_tree-HasMetricProof_example =
    build_multi_metric_merkle_tree-HasMetricProof test_sha metric_board 9 0 metric_tree 1
      (metric_leaf metric_win_streak 70) metric_built refl

leaf_message_v2_injective_example : SameLeaf (alloc 32) (alloc 32) 3 3 1 1 500 500 9 9 1 1
leaf_message_v2_injective_example =
    leaf_message_v2_injective (alloc 32) (alloc 32) 3 3 1 1 500 500 9 9 1 1 refl refl (omega arith)
      (omega arith) (omega arith) (omega arith) refl
