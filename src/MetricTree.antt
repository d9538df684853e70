-- ===== src/MetricTree.antt =====
-- services/automation/src/indexer/merkle-v2.ts: the tree over the leaves of four metrics. Its layers,
-- proofs and verifier are the code of merkle.ts again, except that the layers of no leaves are not an
-- error. A metric's rank and amount are natural numbers.
pub mod Encoding
pub mod Sizes
pub mod Provable
use bell_markets.Prelude.{
  ℕ, suc, ◌+◌, ◌^◌, Bool, true, false, not, ◌&&◌, ◌||◌, List, [], ◌∷◌, ◌++◌, Option, none, some,
  length, map, get_elem?, ltb, leb, ◌==◌, if◌then◌else◌,
}
use bell_markets.Prelude.Result.{Result, ok, throw, ◌>>=◌, ◌>>◌, throw_if, or_throw}
use bell_markets.Bytes.{Bytes, alloc, copy_at, le_bytes, hex}
use bell_markets.Base58.{PubkeyError, decode_pubkey}
use bell_markets.Merkle.{TreeError, layers_from, generate_sorted_pair_proof, last_layer}
use bell_markets.Distribution.{
  MetricId, metric_absolute_profit, metric_win_streak, metric_win_rate, metric_roi,
  MetricLeaderboardEntry, ordered_metrics,
}

-- `METRIC_ABSOLUTE_PROFIT` to `METRIC_ROI`
unfoldable pub metric_code : MetricId → ℕ
metric_code metric_absolute_profit = 0
metric_code metric_win_streak = 1
metric_code metric_win_rate = 2
metric_code metric_roi = 3

pub data MetricTreeError : Type 0 where
  pubkey : PubkeyError → MetricTreeError
  recipient_size metric_range rank_range amount_range period_range period_type_range :
      MetricTreeError
  too_many_ranks no_leaves no_such_leaf no_root : MetricTreeError
  tree : TreeError → MetricTreeError

abbrev pub wrap : {E A : Type 0} → (E → MetricTreeError) → Result E A → Result MetricTreeError A
wrap f (ok a) = ok a
wrap f (throw e) = throw (f e)

-- The writes of `hashLeafV2` into its 47 bytes.
unfoldable pub leaf_message_v2 : Bytes → ℕ → ℕ → ℕ → ℕ → ℕ → Bytes
leaf_message_v2 recipient metric rank amount period_id period_type =
    let buf = copy_at (alloc 47) 0 recipient in
    let buf1 = copy_at buf 32 (metric ∷ []) in
    let buf2 = copy_at buf1 33 (rank ∷ []) in
    let buf3 = copy_at buf2 34 (le_bytes 8 amount) in
    let buf4 = copy_at buf3 42 (le_bytes 4 period_id) in copy_at buf4 46 (period_type ∷ [])

pub record MultiMetricLeaf : Type 0 where
  pub metric_id : MetricId
  pub rank : ℕ
  pub recipient : Bytes
  pub amount_base_units : ℕ
  pub leaf_bytes : Bytes
  pub leaf_hex : List ℕ

-- The closures `proofFor` and `proofBytesFor` are functions of the tree, which keeps its layers.
pub record MultiMetricMerkleTree : Type 0 where
  pub root : List ℕ
  pub root_bytes : Bytes
  pub leaves : List MultiMetricLeaf
  pub leaf_count : ℕ
  pub layers : List (List Bytes)

-- Each metric's ranked list, or none.
abbrev pub MultiMetricLeaderboard : Type 0
MultiMetricLeaderboard = MetricId → Option (List MetricLeaderboardEntry)

module _ (sha256 : Bytes → Bytes) where
  -- `hashLeafV2` of a base58 recipient.
  unfoldable pub hash_leaf_v2 : Bytes → ℕ → ℕ → ℕ → ℕ → ℕ → Result MetricTreeError Bytes
  hash_leaf_v2 recipient metric rank amount period_id period_type = do
    bytes ← wrap pubkey (decode_pubkey recipient)
    throw_if (not (length bytes == 32)) recipient_size
    throw_if (not (leb metric 3)) metric_range
    throw_if (ltb rank 1 || ltb 255 rank) rank_range
    throw_if (leb (2 ^ 64) amount) amount_range
    throw_if (leb (2 ^ 32) period_id) period_range
    throw_if (not (period_type == 0) && not (period_type == 1)) period_type_range
    ok (sha256 (leaf_message_v2 bytes metric rank amount period_id period_type))

  -- The inner loop over the entries of a metric.
  unfoldable pub metric_leaves :
      ℕ → ℕ → MetricId → List MetricLeaderboardEntry → Result MetricTreeError (List MultiMetricLeaf)
  metric_leaves period_id period_type metric [] = ok []
  metric_leaves period_id period_type metric (entry ∷ entries) = do
    throw_if (ltb entry.rank 1 || ltb 32 entry.rank) rank_range
    digest ←
        hash_leaf_v2 entry.recipient (metric_code metric) entry.rank entry.amount_base_units
          period_id period_type
    rest ← metric_leaves period_id period_type metric entries
    ok (
        record {
          metric_id = metric;
          rank = entry.rank;
          recipient = entry.recipient;
          amount_base_units = entry.amount_base_units;
          leaf_bytes = digest;
          leaf_hex = hex digest;
        }
        ∷ rest)

  -- `if (!entries) continue`, and the bound on the number of entries.
  unfoldable pub leaves_of_metric :
      ℕ
      → ℕ
      → MetricId
      → Option (List MetricLeaderboardEntry)
      → Result MetricTreeError (List MultiMetricLeaf)
  leaves_of_metric period_id period_type metric none = ok []
  leaves_of_metric period_id period_type metric (some entries) = do
    throw_if (ltb 32 (length entries)) too_many_ranks
    metric_leaves period_id period_type metric entries

  unfoldable pub collect_leaves :
      ℕ → ℕ → MultiMetricLeaderboard → List MetricId → Result MetricTreeError (List MultiMetricLeaf)
  collect_leaves period_id period_type leaderboard [] = ok []
  collect_leaves period_id period_type leaderboard (metric ∷ metrics) = do
    here ← leaves_of_metric period_id period_type metric (leaderboard metric)
    rest ← collect_leaves period_id period_type leaderboard metrics
    ok (here ++ rest)

  -- `buildSortedPairTreeLayers`, on fuel that Merkle/Layers.antt shows to be enough.
  unfoldable pub build_layers_v2 : List Bytes → Result TreeError (List (List Bytes))
  build_layers_v2 leaves = layers_from sha256 (suc (length leaves)) leaves

  unfoldable pub build_multi_metric_merkle_tree :
      MultiMetricLeaderboard → ℕ → ℕ → Result MetricTreeError MultiMetricMerkleTree
  build_multi_metric_merkle_tree leaderboard period_id period_type = do
    leaves ← collect_leaves period_id period_type leaderboard ordered_metrics
    throw_if (length leaves == 0) no_leaves
    layers ← wrap tree (build_layers_v2 (map (λ (l : MultiMetricLeaf). l.leaf_bytes) leaves))
    root ← or_throw (get_elem? (last_layer layers) 0) no_root
    ok (record {
      root = hex root;
      root_bytes = root;
      leaves = leaves;
      leaf_count = length leaves;
      layers = layers;
    })

-- Whether a leaf has the key `${metric}-${rank}`.
unfoldable pub has_key : MetricId → ℕ → MultiMetricLeaf → Bool
has_key metric rank leaf = (metric_code leaf.metric_id == metric_code metric) && (leaf.rank == rank)

-- `indexMap.get(key)`, where the leaves were set in order, from the index `idx` on: the last one stays.
unfoldable pub index_map_get : MetricId → ℕ → ℕ → List MultiMetricLeaf → Option ℕ
index_map_get metric rank idx [] = none
index_map_get metric rank idx (leaf ∷ leaves) = elim (index_map_get metric rank (idx + 1) leaves) [
  | some later ↦ some later
  | none ↦ if has_key metric rank leaf then some idx else none
]

unfoldable pub metric_proof_bytes_for :
    MultiMetricMerkleTree → MetricId → ℕ → Result MetricTreeError (List Bytes)
metric_proof_bytes_for t metric rank = do
  idx ← or_throw (index_map_get metric rank 0 t.leaves) no_such_leaf
  or_throw (generate_sorted_pair_proof t.layers idx) no_such_leaf

-- `proofFor`
unfoldable pub metric_proof_for :
    MultiMetricMerkleTree → MetricId → ℕ → Result MetricTreeError (List (List ℕ))
metric_proof_for t metric rank =
    metric_proof_bytes_for t metric rank >>= λ proof. ok (map hex proof)
