-- ===== src/Leaderboard.antt =====
-- services/automation/src/indexer/merkle.ts, lines 36 to 57 and 259 to 335: the period's leaderboard
-- tree. The closures `proofFor` and `proofBytesFor` are functions of the tree, which keeps the layers
-- that they close over.
pub mod Leaf
pub mod Encoding
pub mod Accepted
pub mod Built
pub mod Provable
pub mod Lines
pub mod Claims
use bell_markets.Prelude.{
  ℕ, suc, ◌+◌, ◌-◌, Bool, not, ◌&&◌, List, [], ◌∷◌, Option, none, some, length, map, get_elem?, ltb,
  leb, ◌==◌,
}
use bell_markets.Prelude.Result.{Result, ok, throw, ◌>>=◌, ◌>>◌, throw_if, or_throw}
use bell_markets.Prelude.Int.{ℤ, pos}
use bell_markets.Bytes.{Bytes, hex}
use bell_markets.Base58.{PubkeyError, decode_pubkey}
use bell_markets.Merkle.{
  TreeError, build_sorted_pair_tree_layers, generate_sorted_pair_proof, last_layer,
}
use bell_markets.Leaderboard.Leaf.{LeafError, bad_pubkey, raw, hash_leaf, distribution_slots}

-- db/types.ts
pub record LeaderboardEntry : Type 0 where
  pub user_pubkey : List ℕ
  pub current_streak : ℕ
  pub longest_streak : ℕ
  pub total_markets_traded : ℕ
  pub total_markets_won : ℕ

pub record LeaderboardLeaf : Type 0 where
  pub position : ℕ
  pub recipient : List ℕ
  pub recipient_bytes : Bytes
  pub amount : ℤ
  pub leaf_bytes : Bytes
  pub leaf_hex : List ℕ

pub record LeaderboardMerkleTree : Type 0 where
  pub root : List ℕ
  pub root_bytes : Bytes
  pub leaves : List LeaderboardLeaf
  pub layers : List (List Bytes)

pub data LeaderboardError : Type 0 where
  no_entries too_many_entries amounts_mismatch bad_position : LeaderboardError
  bad_leaf : LeafError → LeaderboardError
  bad_tree : TreeError → LeaderboardError
  -- A read of `undefined`.
  undefined : LeaderboardError

abbrev pub wrap_error :
    {E A : Type 0} → (E → LeaderboardError) → Result E A → Result LeaderboardError A
wrap_error f (ok a) = ok a
wrap_error f (throw e) = throw (f e)

module _ (sha256 : Bytes → Bytes) where
  -- The body of `entries.map`.
  unfoldable pub make_leaf :
      ℤ → ℕ → ℕ → LeaderboardEntry → ℤ → Result LeaderboardError LeaderboardLeaf
  make_leaf period_id period_type position entry amount = do
    bytes ← wrap_error (λ e. bad_leaf (bad_pubkey e)) (decode_pubkey entry.user_pubkey)
    digest ←
        wrap_error bad_leaf
          (hash_leaf sha256 (raw bytes) (pos position) period_id period_type amount)
    ok (record {
      position = position;
      recipient = entry.user_pubkey;
      recipient_bytes = bytes;
      amount = amount;
      leaf_bytes = digest;
      leaf_hex = hex digest;
    })

  -- `entries.map((entry, idx) => …)` from the index `idx` on, with `amounts[idx]!`.
  unfoldable pub leaves_from :
      ℤ → ℕ → ℕ → List LeaderboardEntry → List ℤ → Result LeaderboardError (List LeaderboardLeaf)
  leaves_from period_id period_type idx [] amounts = ok []
  leaves_from period_id period_type idx (entry ∷ entries) [] = throw undefined
  leaves_from period_id period_type idx (entry ∷ entries) (amount ∷ amounts) = do
    leaf ← make_leaf period_id period_type (idx + 1) entry amount
    leaves ← leaves_from period_id period_type (idx + 1) entries amounts
    ok (leaf ∷ leaves)

  unfoldable pub build_leaderboard_merkle_tree :
      List LeaderboardEntry → ℤ → ℕ → List ℤ → Result LeaderboardError LeaderboardMerkleTree
  build_leaderboard_merkle_tree entries period_id period_type amounts = do
    throw_if (length entries == 0) no_entries
    throw_if (ltb distribution_slots (length entries)) too_many_entries
    throw_if (not (length amounts == length entries)) amounts_mismatch
    leaves ← leaves_from period_id period_type 0 entries amounts
    layers ←
        wrap_error bad_tree (
          build_sorted_pair_tree_layers sha256 (map (λ (l : LeaderboardLeaf). l.leaf_bytes) leaves))
    root ← or_throw (get_elem? (last_layer layers) 0) undefined
    ok (record { root = hex root; root_bytes = root; leaves = leaves; layers = layers })

unfoldable pub proof_bytes_for : LeaderboardMerkleTree → ℕ → Result LeaderboardError (List Bytes)
proof_bytes_for tree position = do
  throw_if (not (leb 1 position && leb position (length tree.leaves))) bad_position
  or_throw (generate_sorted_pair_proof tree.layers (position - 1)) undefined

unfoldable pub proof_for : LeaderboardMerkleTree → ℕ → Result LeaderboardError (List (List ℕ))
unfolding proof_bytes_for
proof_for tree position = do proof ← proof_bytes_for tree position; ok (map hex proof)
