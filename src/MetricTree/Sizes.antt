-- ===== src/MetricTree/Sizes.antt =====
-- A tree over four metrics has at most 128 leaves, and its index finds every leaf's metric and rank.
use bell_markets.Prelude.{
  ℕ, zero, suc, ◌+◌, ◌*◌, ◌≤◌, ◌<◌, ◌≡◌, refl, ap, sym, ◌∙◌, true, false, Bool-cases, ◌||◌, ltb,
  List, [], ◌∷◌, ◌++◌, Option, none, some, Option-cases, length, length-append, get_elem?, inl, inr,
  arith,
}
use mathlib.Core.Option.{some-injective}
use bell_markets.Prelude.Result.{ok, throw_if, >>=-eq-ok}
use bell_markets.Bytes.{Bytes}
use bell_markets.Distribution.{MetricId, MetricLeaderboardEntry}
use bell_markets.MetricTree.{
  metric_code, MultiMetricLeaf, MultiMetricLeaderboard, hash_leaf_v2, metric_leaves,
  leaves_of_metric, collect_leaves, has_key, index_map_get, rank_range, too_many_ranks,
}

module _ (sha256 : Bytes → Bytes) (period_id period_type : ℕ) where
  length-metric_leaves :
      (metric : MetricId) (entries : List MetricLeaderboardEntry) (leaves : List MultiMetricLeaf)
      → metric_leaves sha256 period_id period_type metric entries ≡ ok leaves
      → length leaves ≡ length entries
  unfolding metric_leaves
  length-metric_leaves metric [] leaves e = ground arith
  length-metric_leaves metric (entry ∷ entries) leaves e =
      let (_, _, e1) =
        >>=-eq-ok (throw_if (ltb entry.rank 1 || ltb 32 entry.rank) rank_range) _ e in
      let (digest, _, e2) =
        >>=-eq-ok
          (hash_leaf_v2 sha256 entry.recipient (metric_code metric) entry.rank
            entry.amount_base_units period_id period_type)
          _ e1 in
      let (rest, more, e3) =
        >>=-eq-ok (metric_leaves sha256 period_id period_type metric entries) _ e2 in
      ground (arith, length-metric_leaves metric entries rest more)

  length-leaves_of_metric :
      (metric : MetricId) (entries : Option (List MetricLeaderboardEntry))
      (leaves : List MultiMetricLeaf)
      → leaves_of_metric sha256 period_id period_type metric entries ≡ ok leaves
      → length leaves ≤ 32
  unfolding leaves_of_metric
  length-leaves_of_metric metric none leaves e = ground arith
  length-leaves_of_metric metric (some entries) leaves e =
      let (_, few, e1) = >>=-eq-ok (throw_if (ltb 32 (length entries)) too_many_ranks) _ e in
      ground (arith, length-metric_leaves metric entries leaves e1)

  pub length-collect_leaves :
      (leaderboard : MultiMetricLeaderboard) (metrics : List MetricId)
      (leaves : List MultiMetricLeaf)
      → collect_leaves sha256 period_id period_type leaderboard metrics ≡ ok leaves
      → length leaves ≤ 32 * length metrics
  unfolding collect_leaves
  length-collect_leaves leaderboard [] leaves e = ground arith
  length-collect_leaves leaderboard (metric ∷ metrics) leaves e =
      let (here, made, e1) =
        >>=-eq-ok (leaves_of_metric sha256 period_id period_type metric (leaderboard metric)) _ e in
      let (rest, more, e2) =
        >>=-eq-ok (collect_leaves sha256 period_id period_type leaderboard metrics) _ e1 in
      let h = length-leaves_of_metric metric (leaderboard metric) here made in
      let ih = length-collect_leaves leaderboard metrics rest more in
      let whole : here ++ rest ≡ leaves = ground arith in
      omega (arith, ap length whole, length-append here rest, h, ih)

-- What the index finds for a key.
pub record IsFound (metric : MetricId) (rank idx : ℕ) (leaves : List MultiMetricLeaf) : Type 0 where
  pub index : ℕ
  pub found : MultiMetricLeaf
  pub got : index_map_get metric rank idx leaves ≡ some (idx + index)
  pub listed : get_elem? leaves index ≡ some found
  pub keyed : has_key metric rank found ≡ true
  -- No later leaf has the key.
  pub final :
      (k : ℕ) (other : MultiMetricLeaf)
      → index < k
      → get_elem? leaves k ≡ some other
      → has_key metric rank other ≡ false

-- One leaf before: what is found among the later ones is found.
IsFound-later :
    (metric : MetricId) (rank idx : ℕ) (l : MultiMetricLeaf) (leaves : List MultiMetricLeaf)
    → IsFound metric rank (idx + 1) leaves
    → IsFound metric rank idx (l ∷ leaves)
unfolding index_map_get
IsFound-later metric rank idx l leaves f = record {
  index = suc f.index;
  found = f.found;
  got = rw f.got (ap some (omega arith));
  listed = f.listed;
  keyed = f.keyed;
  final = λ k other after at. final_later f.final k other after at;
}
  where
    final_later :
        {i : ℕ}
        → ((k : ℕ) (other : MultiMetricLeaf)
            → i < k
            → get_elem? leaves k ≡ some other
            → has_key metric rank other ≡ false)
        → (k : ℕ) (other : MultiMetricLeaf) → suc i < k
        → get_elem? (l ∷ leaves) k ≡ some other
        → has_key metric rank other ≡ false
    final_later final zero other after at = absurd (omega (arith, after))
    final_later final (suc k) other after at = final k other (omega (arith, after)) at

-- Nothing is found where no leaf has the key.
index_map_get-absent :
    (metric : MetricId) (rank idx k : ℕ) (leaves : List MultiMetricLeaf) {other : MultiMetricLeaf}
    → index_map_get metric rank idx leaves ≡ none
    → get_elem? leaves k ≡ some other
    → has_key metric rank other ≡ false
unfolding index_map_get
index_map_get-absent metric rank idx k [] absent at = cc
index_map_get-absent metric rank idx k (l ∷ leaves) absent at =
    elim (Option-cases (index_map_get metric rank (idx + 1) leaves)) [
      | inl later ↦ elim (Bool-cases (has_key metric rank l)) [
        | inl key ↦ let h = rw (later, key) at absent in cc
        | inr miss ↦
            absent_at (λ j x is. index_map_get-absent metric rank (idx + 1) j leaves later is) k
              miss at
      ]
      | inr (j, later) ↦ let h = rw later at absent in cc
    ]
  where
    absent_at :
        ((j : ℕ) (x : MultiMetricLeaf)
          → get_elem? leaves j ≡ some x
          → has_key metric rank x ≡ false)
        → (k : ℕ) {other : MultiMetricLeaf} → has_key metric rank l ≡ false
        → get_elem? (l ∷ leaves) k ≡ some other
        → has_key metric rank other ≡ false
    absent_at later zero miss at = ap (has_key metric rank) (sym (some-injective _ _ at)) ∙ miss
    absent_at later (suc k) {other} miss at = later k other at

-- Without one among the later ones, a leaf with the key is found itself.
IsFound-here :
    (metric : MetricId) (rank idx : ℕ) (l : MultiMetricLeaf) (leaves : List MultiMetricLeaf)
    → index_map_get metric rank (idx + 1) leaves ≡ none
    → has_key metric rank l ≡ true
    → IsFound metric rank idx (l ∷ leaves)
unfolding index_map_get
IsFound-here metric rank idx l leaves later key = record {
  index = 0;
  found = l;
  got = rw (later, key) (ap some (omega arith));
  listed = refl;
  keyed = key;
  final = λ k other after at. final_here k other after at;
}
  where
    final_here :
        (k : ℕ) (other : MultiMetricLeaf)
        → 0 < k
        → get_elem? (l ∷ leaves) k ≡ some other
        → has_key metric rank other ≡ false
    final_here zero other after at = absurd (omega (arith, after))
    final_here (suc k) other after at = index_map_get-absent metric rank (idx + 1) k leaves later at

index_map_get_sound :
    (metric : MetricId) (rank idx : ℕ) (leaves : List MultiMetricLeaf) {j : ℕ}
    → index_map_get metric rank idx leaves ≡ some j
    → IsFound metric rank idx leaves
unfolding index_map_get
index_map_get_sound metric rank idx [] e = cc
index_map_get_sound metric rank idx (l ∷ leaves) e =
    elim (Option-cases (index_map_get metric rank (idx + 1) leaves)) [
      | inl later ↦ elim (Bool-cases (has_key metric rank l)) [
        | inl key ↦ IsFound-here metric rank idx l leaves later key
        | inr other ↦ let h = rw (later, other) at e in cc
      ]
      | inr (j', later) ↦
          IsFound-later metric rank idx l leaves
            (index_map_get_sound metric rank (idx + 1) leaves later)
    ]

pub index_map_get-IsFound :
    (metric : MetricId) (rank idx i : ℕ) (leaves : List MultiMetricLeaf) {leaf : MultiMetricLeaf}
    → get_elem? leaves i ≡ some leaf
    → has_key metric rank leaf ≡ true
    → IsFound metric rank idx leaves
index_map_get-IsFound metric rank idx i [] at key = cc
index_map_get-IsFound metric rank idx zero (l ∷ leaves) at key =
    elim (Option-cases (index_map_get metric rank (idx + 1) leaves)) [
      | inl later ↦
          let same = some-injective _ _ at in
          IsFound-here metric rank idx l leaves later (ap (has_key metric rank) same ∙ key)
      | inr (j, later) ↦
          IsFound-later metric rank idx l leaves
            (index_map_get_sound metric rank (idx + 1) leaves later)
    ]
index_map_get-IsFound metric rank idx (suc i) (l ∷ leaves) at key =
    IsFound-later metric rank idx l leaves
      (index_map_get-IsFound metric rank (idx + 1) i leaves at key)
