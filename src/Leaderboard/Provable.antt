-- ===== src/Leaderboard/Provable.antt =====
-- Every position of a leaderboard tree has a proof that the verifier accepts.
use bell_markets.Prelude.{
  ℕ, zero, suc, ◌+◌, ◌-◌, ◌≤◌, ◌≡◌, refl, ap, true, List, [], ◌∷◌, length, arith, some, get_elem?,
  get_elem?-lt,
}
use bell_markets.Prelude.Result.{ok, >>=-eq-ok}
use bell_markets.Prelude.Int.{ℤ}
use bell_markets.Bytes.{Bytes}
use bell_markets.Merkle.{generate_sorted_pair_proof, last_layer, verify_leaf_proof}
use bell_markets.Merkle.Completeness.{build-IsProvable}
use bell_markets.Leaderboard.Built.{leaf_digests, build_leaderboard_merkle_tree-IsBuilt}
use bell_markets.Leaderboard.{
  LeaderboardEntry, LeaderboardLeaf, LeaderboardMerkleTree, make_leaf, leaves_from,
  build_leaderboard_merkle_tree, proof_bytes_for,
}

length-leaf_digests : (leaves : List LeaderboardLeaf) → length (leaf_digests leaves) ≡ length leaves
length-leaf_digests [] = refl
length-leaf_digests (l ∷ leaves) = ap suc (length-leaf_digests leaves)

get_elem?-leaf_digests :
    (leaves : List LeaderboardLeaf) (i : ℕ) {leaf : LeaderboardLeaf}
    → get_elem? leaves i ≡ some leaf
    → get_elem? (leaf_digests leaves) i ≡ some leaf.leaf_bytes
get_elem?-leaf_digests [] i e = cc
get_elem?-leaf_digests (l ∷ leaves) zero e = ground arith
get_elem?-leaf_digests (l ∷ leaves) (suc i) e = get_elem?-leaf_digests leaves i e

module _ (sha256 : Bytes → Bytes) where
  pub length-leaves_from :
      (period_id : ℤ) (period_type idx : ℕ) (entries : List LeaderboardEntry) (amounts : List ℤ)
      (leaves : List LeaderboardLeaf)
      → leaves_from sha256 period_id period_type idx entries amounts ≡ ok leaves
      → length leaves ≡ length entries
  unfolding leaves_from
  length-leaves_from period_id t idx [] amounts leaves e = ground arith
  length-leaves_from period_id t idx (entry ∷ entries) [] leaves e = cc
  length-leaves_from period_id t idx (entry ∷ entries) (amount ∷ amounts) leaves e =
      let (leaf, made, e1) = >>=-eq-ok (make_leaf sha256 period_id t (idx + 1) entry amount) _ e in
      let (rest, more, e2) =
        >>=-eq-ok (leaves_from sha256 period_id t (idx + 1) entries amounts) _ e1 in
      ground (arith, length-leaves_from period_id t (idx + 1) entries amounts rest more)

-- A position of a tree, with its leaf and a proof that the verifier accepts.
pub record HasProof (sha256 : Bytes → Bytes) (tree : LeaderboardMerkleTree) (position : ℕ)
    : Type 0 where
  pub leaf : LeaderboardLeaf
  pub proof : List Bytes
  pub listed : get_elem? tree.leaves (position - 1) ≡ some leaf
  pub given : proof_bytes_for tree position ≡ ok proof
  pub accepted : verify_leaf_proof sha256 leaf.leaf_bytes proof tree.root_bytes ≡ true
  pub short : length proof ≤ 4

same_root :
    (layer : List Bytes) (root root' : Bytes)
    → layer ≡ root ∷ []
    → get_elem? layer 0 ≡ some root'
    → root ≡ root'
same_root layer root root' e h = ground arith

module _ (sha256 : Bytes → Bytes) where
  -- For every tree that `buildLeaderboardMerkleTree` returns and every position from 1 to the number
  -- of entries: the tree has as many leaves as there are entries, and `proofBytesFor` returns a proof
  -- of at most 4 hashes that `verifyLeafProof` accepts for that position's leaf against the root.
  pub build_leaderboard_merkle_tree-HasProof :
      (entries : List LeaderboardEntry) (period_id : ℤ) (period_type : ℕ) (amounts : List ℤ)
      (tree : LeaderboardMerkleTree) (position : ℕ)
      → build_leaderboard_merkle_tree sha256 entries period_id period_type amounts ≡ ok tree
      → 1 ≤ position
      → position ≤ length entries
      → (length tree.leaves ≡ length entries) × HasProof sha256 tree position
  unfolding proof_bytes_for
  build_leaderboard_merkle_tree-HasProof entries period_id t amounts tree position e low high =
      let b = build_leaderboard_merkle_tree-IsBuilt sha256 entries period_id t amounts tree e in
      let count = length-leaves_from sha256 period_id t 0 entries amounts tree.leaves b.made in
      let (leaf, listed) = get_elem?-lt tree.leaves (position - 1) (omega arith) in
      let p =
        build-IsProvable sha256 (leaf_digests tree.leaves) (position - 1) 4 leaf.leaf_bytes
          (omega arith) (omega (arith, length-leaf_digests tree.leaves, b.few_entries))
          (get_elem?-leaf_digests tree.leaves (position - 1) listed) in
      let layers : p.layers ≡ tree.layers = ground (arith, p.built, b.layered) in
      let root : p.root ≡ tree.root_bytes =
        same_root (last_layer tree.layers) p.root tree.root_bytes (rw layers at p.is_root)
          b.rooted in
      let generated : generate_sorted_pair_proof tree.layers (position - 1) ≡ some p.proof =
        rw layers at p.generated in
      (
        count,
        record {
          leaf = leaf;
          proof = p.proof;
          listed = listed;
          given = ground arith;
          accepted = rw root at p.accepted;
          short = p.short;
        },
      )
