-- ===== src/MetricTree/Provable.antt =====
-- Every metric and rank of a tree that was built has a proof.
use bell_markets.Prelude.{
  ℕ, suc, ◌<◌, false, ◌≤◌, ◌≡◌, refl, ap, subst, zero, ◌∙◌, true, List, [], ◌∷◌, Option, none, some,
  length, get_elem?, map, arith, ◌==◌,
}
use mathlib.Core.Option.{some-injective}
use bell_markets.Prelude.Result.{Result, ok, throw, throw_if, or_throw, ok_injective, >>=-eq-ok}
use bell_markets.Bytes.{Bytes}
use bell_markets.Merkle.{generate_sorted_pair_proof, verify_leaf_proof, last_layer}
use bell_markets.Merkle.Completeness.{build-ok, build-IsProvable, nonempty}
use bell_markets.Distribution.{MetricId, ordered_metrics}
use bell_markets.MetricTree.{
  MultiMetricLeaf, MultiMetricMerkleTree, MultiMetricLeaderboard, collect_leaves, build_layers_v2,
  build_multi_metric_merkle_tree, has_key, index_map_get, metric_proof_bytes_for, MetricTreeError,
  no_leaves, no_root, tree, wrap,
}
use bell_markets.MetricTree.Sizes.{length-collect_leaves, index_map_get-IsFound}

abbrev pub metric_digests : List MultiMetricLeaf → List Bytes
metric_digests leaves = map (λ (l : MultiMetricLeaf). l.leaf_bytes) leaves

length-metric_digests :
    (leaves : List MultiMetricLeaf) → length (metric_digests leaves) ≡ length leaves
length-metric_digests [] = refl
length-metric_digests (l ∷ leaves) = ap suc (length-metric_digests leaves)

get_elem?-metric_digests :
    (leaves : List MultiMetricLeaf) (i : ℕ) {leaf : MultiMetricLeaf}
    → get_elem? leaves i ≡ some leaf
    → get_elem? (metric_digests leaves) i ≡ some leaf.leaf_bytes
get_elem?-metric_digests [] i e = cc
get_elem?-metric_digests (l ∷ leaves) zero e =
    ap some (ap (λ (x : MultiMetricLeaf). x.leaf_bytes) (some-injective _ _ e))
get_elem?-metric_digests (l ∷ leaves) (suc i) e = get_elem?-metric_digests leaves i e

wrap-ok :
    {E A : Type 0} (f : E → MetricTreeError) (r : Result E A) {a : A} → wrap f r ≡ ok a → r ≡ ok a
wrap-ok f (ok a) h = ground arith
wrap-ok f (throw e) h = cc

or_throw-some :
    {A : Type 0} (o : Option A) (e : MetricTreeError) {a : A} → or_throw o e ≡ ok a → o ≡ some a
or_throw-some (some a) e h = ground arith
or_throw-some none e h = cc

has_own_key : (leaf : MultiMetricLeaf) → has_key leaf.metric_id leaf.rank leaf ≡ true
unfolding has_key
has_own_key leaf = ground arith

same_metric_root :
    (layer : List Bytes) (root root' : Bytes)
    → layer ≡ root ∷ []
    → get_elem? layer 0 ≡ some root'
    → root ≡ root'
same_metric_root layer root root' e h = ground arith

-- What a tree that was returned is made of.
pub record IsMetricTree (sha256 : Bytes → Bytes) (t : MultiMetricMerkleTree) : Type 0 where
  pub few : length t.leaves ≤ 128
  pub layered : build_layers_v2 sha256 (metric_digests t.leaves) ≡ ok t.layers
  pub rooted : get_elem? (last_layer t.layers) 0 ≡ some t.root_bytes

-- A proof for a metric and a rank, with the leaf that it is for.
pub record HasMetricProof (sha256 : Bytes → Bytes) (t : MultiMetricMerkleTree) (metric : MetricId)
    (rank : ℕ) : Type 0 where
  pub leaf : MultiMetricLeaf
  pub index : ℕ
  pub proof : List Bytes
  pub listed : get_elem? t.leaves index ≡ some leaf
  pub keyed : has_key metric rank leaf ≡ true
  pub final :
      (k : ℕ) (other : MultiMetricLeaf)
      → index < k
      → get_elem? t.leaves k ≡ some other
      → has_key metric rank other ≡ false
  pub given : metric_proof_bytes_for t metric rank ≡ ok proof
  pub accepted : verify_leaf_proof sha256 leaf.leaf_bytes proof t.root_bytes ≡ true
  pub short : length proof ≤ 7

module _ (sha256 : Bytes → Bytes) where
  build_multi_metric_merkle_tree-IsMetricTree :
      (leaderboard : MultiMetricLeaderboard) (period_id period_type : ℕ) (t : MultiMetricMerkleTree)
      → build_multi_metric_merkle_tree sha256 leaderboard period_id period_type ≡ ok t
      → IsMetricTree sha256 t
  unfolding build_multi_metric_merkle_tree
  build_multi_metric_merkle_tree-IsMetricTree leaderboard period_id period_type t e =
      let (leaves, made, e1) =
        >>=-eq-ok (collect_leaves sha256 period_id period_type leaderboard ordered_metrics) _ e in
      let (_, some_leaf, e2) = >>=-eq-ok (throw_if (length leaves == 0) no_leaves) _ e1 in
      let (layers, built, e3) =
        >>=-eq-ok (wrap tree (build_layers_v2 sha256 (metric_digests leaves))) _ e2 in
      let (root, is_root, e4) =
        >>=-eq-ok (or_throw (get_elem? (last_layer layers) 0) no_root) _ e3 in
      subst (IsMetricTree sha256) (ok_injective _ e4 refl) (record {
        few =
            length-collect_leaves sha256 period_id period_type leaderboard ordered_metrics leaves
              made;
        layered = wrap-ok tree _ built;
        rooted = or_throw-some _ no_root is_root;
      })

  -- For every tree that is built, and every leaf of it: `proofBytesFor` the leaf's metric and rank
  -- returns a proof of at most 7 hashes, which the verifier accepts against the root for the last leaf
  -- of the tree with that metric and rank.
  pub build_multi_metric_merkle_tree-HasMetricProof :
      (leaderboard : MultiMetricLeaderboard) (period_id period_type : ℕ) (t : MultiMetricMerkleTree)
      (i : ℕ) (leaf : MultiMetricLeaf)
      → build_multi_metric_merkle_tree sha256 leaderboard period_id period_type ≡ ok t
      → get_elem? t.leaves i ≡ some leaf
      → HasMetricProof sha256 t leaf.metric_id leaf.rank
  unfolding metric_proof_bytes_for build_layers_v2
  build_multi_metric_merkle_tree-HasMetricProof leaderboard period_id period_type t i leaf e at =
      let b = build_multi_metric_merkle_tree-IsMetricTree leaderboard period_id period_type t e in
      let f = index_map_get-IsFound leaf.metric_id leaf.rank 0 i t.leaves at (has_own_key leaf) in
      let p =
        build-IsProvable sha256 (metric_digests t.leaves) f.index 7 f.found.leaf_bytes (omega arith)
          (omega (arith, length-metric_digests t.leaves, b.few))
          (get_elem?-metric_digests t.leaves f.index f.listed) in
      let got : index_map_get leaf.metric_id leaf.rank 0 t.leaves ≡ some f.index =
        f.got ∙ ap some (omega arith) in
      let digest_at = get_elem?-metric_digests t.leaves f.index f.listed in
      let (layers, looped, layered) =
        build-ok sha256 (metric_digests t.leaves)
          (nonempty sha256 (metric_digests t.leaves) f.index digest_at) in
      let whole : p.layers ≡ t.layers = ground (arith, p.built, b.layered, looped, layered) in
      let root : p.root ≡ t.root_bytes =
        same_metric_root (last_layer t.layers) p.root t.root_bytes (rw whole at p.is_root)
          b.rooted in
      let generated : generate_sorted_pair_proof t.layers f.index ≡ some p.proof =
        rw whole at p.generated in
      record {
        leaf = f.found;
        index = f.index;
        proof = p.proof;
        listed = f.listed;
        keyed = f.keyed;
        final = f.final;
        given = rw (got, generated);
        accepted = rw root at p.accepted;
        short = p.short;
      }
