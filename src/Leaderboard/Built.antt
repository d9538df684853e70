-- ===== src/Leaderboard/Built.antt =====
-- What a leaderboard tree that was returned is made of.
use bell_markets.Prelude.{
  ℕ, ◌≤◌, ◌≡◌, not, List, length, ltb, ◌==◌, arith, Option, some, none, map, get_elem?,
}
use bell_markets.Prelude.Result.{Result, ok, throw, throw_if, or_throw, >>=-eq-ok}
use bell_markets.Prelude.Int.{ℤ}
use bell_markets.Bytes.{Bytes, hex}
use bell_markets.Merkle.{build_sorted_pair_tree_layers, last_layer}
use bell_markets.Leaderboard.Leaf.{distribution_slots}
use bell_markets.Leaderboard.{
  LeaderboardEntry, LeaderboardLeaf, LeaderboardMerkleTree, LeaderboardError, no_entries,
  too_many_entries, amounts_mismatch, bad_tree, undefined, wrap_error, leaves_from,
  build_leaderboard_merkle_tree,
}

abbrev pub leaf_digests : List LeaderboardLeaf → List Bytes
leaf_digests leaves = map (λ (l : LeaderboardLeaf). l.leaf_bytes) leaves

pub record IsBuilt (sha256 : Bytes → Bytes) (entries : List LeaderboardEntry) (period_id : ℤ)
    (period_type : ℕ) (amounts : List ℤ) (tree : LeaderboardMerkleTree) : Type 0 where
  pub some_entry : 1 ≤ length entries
  pub few_entries : length entries ≤ distribution_slots
  pub one_amount_each : length amounts ≡ length entries
  pub made : leaves_from sha256 period_id period_type 0 entries amounts ≡ ok tree.leaves
  pub layered : build_sorted_pair_tree_layers sha256 (leaf_digests tree.leaves) ≡ ok tree.layers
  pub rooted : get_elem? (last_layer tree.layers) 0 ≡ some tree.root_bytes
  pub rendered : tree.root ≡ hex tree.root_bytes

pub wrap_error-ok :
    {E A : Type 0} (f : E → LeaderboardError) (r : Result E A) {a : A}
    → wrap_error f r ≡ ok a
    → r ≡ ok a
wrap_error-ok f (ok a) h = ground arith
wrap_error-ok f (throw e) h = cc

or_throw-ok : {E A : Type 0} (o : Option A) (e : E) {a : A} → or_throw o e ≡ ok a → o ≡ some a
or_throw-ok (some a) e h = ground arith
or_throw-ok none e h = cc

module _ (sha256 : Bytes → Bytes) where
  pub build_leaderboard_merkle_tree-IsBuilt :
      (entries : List LeaderboardEntry) (period_id : ℤ) (period_type : ℕ) (amounts : List ℤ)
      (tree : LeaderboardMerkleTree)
      → build_leaderboard_merkle_tree sha256 entries period_id period_type amounts ≡ ok tree
      → IsBuilt sha256 entries period_id period_type amounts tree
  unfolding build_leaderboard_merkle_tree
  build_leaderboard_merkle_tree-IsBuilt entries period_id period_type amounts tree e =
      let (_, g0, e0) = >>=-eq-ok (throw_if (length entries == 0) no_entries) _ e in
      let (_, g1, e1) =
        >>=-eq-ok (throw_if (ltb distribution_slots (length entries)) too_many_entries) _ e0 in
      let (_, g2, e2) =
        >>=-eq-ok (throw_if (not (length amounts == length entries)) amounts_mismatch) _ e1 in
      let (leaves, made, e3) =
        >>=-eq-ok (leaves_from sha256 period_id period_type 0 entries amounts) _ e2 in
      let (layers, built, e4) =
        >>=-eq-ok (wrap_error bad_tree (build_sorted_pair_tree_layers sha256 (leaf_digests leaves)))
          _ e3 in
      let (root, is_root, e5) =
        >>=-eq-ok (or_throw (get_elem? (last_layer layers) 0) undefined) _ e4 in
      let layered = wrap_error-ok bad_tree _ built in
      let rooted = or_throw-ok _ undefined is_root in
      record {
        some_entry = ground arith;
        few_entries = ground arith;
        one_amount_each = ground arith;
        made = ground arith;
        layered = ground arith;
        rooted = ground arith;
        rendered = ground arith;
      }
