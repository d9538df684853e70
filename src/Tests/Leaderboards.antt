-- ===== src/Tests/Leaderboards.antt =====
-- Leaderboards of one and two entries, over the stand-in for SHA-256.
use bell_markets.Prelude.{
  ℕ, suc, zero, ◌<◌, ◌≡◌, refl, subst, sym, ◌∙◌, arith, true, [], ◌∷◌, length, replicate,
}
use mathlib.Core.Option.{some-injective}
use bell_markets.Prelude.Int.{pos}
use bell_markets.Prelude.Result.{ok}
use bell_markets.Bytes.{Bytes, alloc, copy_at, eq_buffer, le_bytes, hex}
use bell_markets.Base58.{
  decode_pubkey, decode_bytes, digits_from, count_leading, base58_lookup, index_of, convert,
  mul_add, push_carry,
}
use bell_markets.Merkle.{layers_from, build_sorted_pair_tree_layers, climb, verify_leaf_proof}
use bell_markets.Merkle.Nodes.{Hashed, as_payload, as_claimed, as_pair, as_step}
use bell_markets.Leaderboard.{
  LeaderboardEntry, LeaderboardLeaf, LeaderboardMerkleTree, make_leaf, leaves_from,
  build_leaderboard_merkle_tree,
}
use bell_markets.Leaderboard.Leaf.{raw, leaf_message, hash_leaf, recipient_bytes, is_position}
use bell_markets.Leaderboard.Encoding.{SameFields, leaf_message_injective}
use bell_markets.Leaderboard.Accepted.{FitsLeaf, IsLeafHash, hash_leaf_sound, hash_leaf_complete}
use bell_markets.Leaderboard.Provable.{HasProof, build_leaderboard_merkle_tree-HasProof}
use bell_markets.Leaderboard.Lines.{payloads}
use bell_markets.Leaderboard.Claims.{IsListed, verify_leaf_proof-IsListed}
use bell_markets.Tests.Trees.{test_sha, test_sha-Is32}

-- The system program's key, "1" thirty-two times.
abbrev test_entry : LeaderboardEntry
test_entry = record {
  user_pubkey = replicate 32 49;
  current_streak = 3;
  longest_streak = 4;
  total_markets_traded = 9;
  total_markets_won = 6;
}

abbrev test_message : Bytes
test_message = leaf_message (alloc 32) 1 7 0 500

abbrev test_leaf : LeaderboardLeaf
test_leaf = record {
  position = 1;
  recipient = replicate 32 49;
  recipient_bytes = alloc 32;
  amount = pos 500;
  leaf_bytes = test_sha test_message;
  leaf_hex = hex (test_sha test_message);
}

abbrev test_tree : LeaderboardMerkleTree
test_tree = record {
  root = hex (test_sha test_message);
  root_bytes = test_sha test_message;
  leaves = test_leaf ∷ [];
  layers = (test_sha test_message ∷ []) ∷ [];
}

test_fits : FitsLeaf (alloc 32) 1 7 0 500
test_fits = omega arith

test_hash :
    hash_leaf test_sha (raw (alloc 32)) (pos 1) (pos 7) 0 (pos 500) ≡ ok (test_sha test_message)
unfolding hash_leaf recipient_bytes is_position
test_hash = refl

test_built :
    build_leaderboard_merkle_tree test_sha (test_entry ∷ []) (pos 7) 0 (pos 500 ∷ []) ≡ ok test_tree
unfolding build_leaderboard_merkle_tree leaves_from make_leaf hash_leaf recipient_bytes is_position
    decode_pubkey decode_bytes digits_from count_leading base58_lookup index_of convert mul_add
    push_carry build_sorted_pair_tree_layers layers_from
test_built = refl

build_leaderboard_merkle_tree-HasProof_example :
    (length test_tree.leaves ≡ 1) × HasProof test_sha test_tree 1
build_leaderboard_merkle_tree-HasProof_example =
    build_leaderboard_merkle_tree-HasProof test_sha (test_entry ∷ []) (pos 7) 0 (pos 500 ∷ [])
      test_tree 1 test_built (omega arith) (omega arith)

one-Hashed :
    (x : Bytes)
    → Hashed test_sha (payloads (pos 7) 0 test_tree.leaves) test_tree.layers test_message [] x
    → x ≡ test_message
one-Hashed x (as_payload zero at) = sym (some-injective _ _ at)
one-Hashed x (as_payload (suc i) at) = cc
one-Hashed x (as_claimed e) = e
one-Hashed x (as_pair zero layer at wide hashed) =
    let narrow : 1 < 1 = subst (λ l. 1 < length l) (sym (some-injective _ _ at)) wide in
    absurd (omega (arith, narrow))
one-Hashed x (as_pair (suc k) layer at wide hashed) = cc
one-Hashed x (as_step h) = absurd h

test_accepted : verify_leaf_proof test_sha (test_sha test_message) [] test_tree.root_bytes ≡ true
unfolding verify_leaf_proof climb eq_buffer leaf_message copy_at le_bytes
test_accepted = refl

verify_leaf_proof-IsListed_example :
    IsListed (test_entry ∷ []) (pos 500 ∷ []) (alloc 32) 1 500
    × (◌≡◌ {A = ℕ} 7 7)
    × (◌≡◌ {A = ℕ} 0 0)
verify_leaf_proof-IsListed_example =
    verify_leaf_proof-IsListed test_sha (test_entry ∷ []) 7 0 (pos 500 ∷ []) test_tree (alloc 32) 1
      7 0 500 [] test_sha-Is32 test_built test_fits
      (λ x y hx hy e. one-Hashed x hx ∙ sym (one-Hashed y hy)) tt test_accepted

leaf_message_injective_example : SameFields (alloc 32) (alloc 32) 1 1 7 7 0 0 500 500
leaf_message_injective_example =
    leaf_message_injective (alloc 32) (alloc 32) 1 1 7 7 0 0 500 500 refl refl (omega arith)
      (omega arith) (omega arith) (omega arith) refl

hash_leaf_sound_example :
    IsLeafHash test_sha (raw (alloc 32)) (pos 1) (pos 7) 0 (pos 500) (test_sha test_message)
hash_leaf_sound_example =
    hash_leaf_sound test_sha (raw (alloc 32)) (pos 1) (pos 7) 0 (pos 500) (test_sha test_message)
      test_hash

hash_leaf_complete_example :
    hash_leaf test_sha (raw (alloc 32)) (pos 1) (pos 7) 0 (pos 500) ≡ ok (test_sha test_message)
unfolding recipient_bytes
hash_leaf_complete_example =
    hash_leaf_complete test_sha (raw (alloc 32)) (alloc 32) 1 7 0 500 refl test_fits
