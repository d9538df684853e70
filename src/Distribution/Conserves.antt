-- ===== src/Distribution/Conserves.antt =====
-- The split of the pool loses nothing but the cents that do not divide.
use bell_markets.Prelude.{
  ℕ, ◌+◌, ◌*◌, ◌/◌, ◌<◌, ◌≤◌, ◌≡◌, refl, subst, ap, ap₂, sym, ◌∙◌, false, not, List, [], ◌∷◌, ◌++◌,
  ◌==◌, Option, arith,
}
use bell_markets.Prelude.Result.{ok, throw_if, throw_if-ok, ok_injective, >>=-eq-ok}
use bell_markets.Bytes.{Bytes}
use bell_markets.MetricTree.{MultiMetricMerkleTree}
use bell_markets.Distribution.{
  MetricId, ordered_metrics, MetricLeaderboardEntry, MultiMetricDistributePosition,
  assign_amounts_to_ranks, metric_balance, sum_over,
}
use bell_markets.Distribution.Run.{
  MultiMetricDistributeDeps, tree_of, Payout, pay_ranks, pay_metrics, entries_of, root_of, commit,
  run_multi_metric_distribute, bad_split,
}
use bell_markets.Distribution.Places.{
  sum_amounts, sum_rolled, sum_shares, ArePlaces, sum-ArePlaces, pay_ranks-ArePaid,
}

-- Ten ranks share the whole of a metric's balance, which is a whole number of cents.
sum_shares-ten : (cents : ℕ) → sum_shares (cents * 10000) 0 10 ≡ cents * 10000
sum_shares-ten cents = omega arith

sum_amounts-append :
    (ps qs : List MultiMetricDistributePosition)
    → (sum_amounts (ps ++ qs) ≡ sum_amounts ps + sum_amounts qs)
      × (sum_rolled (ps ++ qs) ≡ sum_rolled ps + sum_rolled qs)
sum_amounts-append [] qs = (omega arith, omega arith)
sum_amounts-append (p ∷ ps) qs =
    let ih = sum_amounts-append ps qs in (omega (arith, ih.0), omega (arith, ih.1))

module _ (split : MetricId → ℕ) (cents : ℕ) where
  metric_balance-shared :
      (metric : MetricId)
      → sum_shares (metric_balance split cents metric) 0 10 ≡ metric_balance split cents metric
  unfolding metric_balance
  metric_balance-shared metric = sum_shares-ten (cents * split metric / 10000)

  metric_balances-pool :
      not (sum_over split ordered_metrics == 10000) ≡ false
      → (sum_over (metric_balance split cents) ordered_metrics ≤ cents * 10000)
        × (cents * 10000 < sum_over (metric_balance split cents) ordered_metrics + 4 * 10000)
  unfolding metric_balance
  metric_balances-pool whole =
      let sums : sum_over split ordered_metrics ≡ 10000 = ground arith in
      let shares : cents * sum_over split ordered_metrics ≡ cents * 10000 =
        ap (λ s. cents * s) sums in
      (grind arith, grind arith)

module _ (deps : MultiMetricDistributeDeps) (tree : Option MultiMetricMerkleTree)
    (leaderboard : MetricId → List MetricLeaderboardEntry) (cents : ℕ) where
  -- Ten positions for each metric, in order.
  abbrev pub AreShared : List MetricId → List MultiMetricDistributePosition → Type 0
  AreShared [] positions = positions ≡ []
  AreShared (metric ∷ metrics) positions =
      (here : List MultiMetricDistributePosition) × (later : List MultiMetricDistributePosition)
      × (positions ≡ here ++ later)
      × ArePlaces deps tree metric (metric_balance deps.split cents metric) (leaderboard metric) 0
          10 here
      × AreShared metrics later

  sum-AreShared :
      (metrics : List MetricId) (positions : List MultiMetricDistributePosition)
      → AreShared metrics positions
      → sum_amounts positions ≡ sum_over (metric_balance deps.split cents) metrics
  sum-AreShared [] positions are = rw are refl
  sum-AreShared (metric ∷ metrics) positions (here, later, joined, places, are) =
      let balance = metric_balance deps.split cents metric in
      ap sum_amounts joined
      ∙ (sum_amounts-append here later).0
      ∙ ap₂ ◌+◌
          (sum-ArePlaces deps tree metric balance (leaderboard metric) 0 10 here places
            ∙ metric_balance-shared deps.split cents metric)
          (sum-AreShared metrics later are)

  abbrev AreSettled : List MetricId → Payout → Type 0
  AreSettled metrics payout =
      AreShared metrics payout.per_position
      × (sum_rolled payout.per_position ≡ payout.rolled_over_base_units)

  pay_metrics-AreSettled :
      (metrics : List MetricId) {payout : Payout}
      → deps.top_n ≡ 10
      → pay_metrics deps tree
          (entries_of deps leaderboard cents)
          (metric_balance deps.split cents)
          metrics
        ≡ ok payout
      → AreSettled metrics payout
  unfolding pay_metrics
  pay_metrics-AreSettled [] ten e = subst (AreSettled []) (ok_injective _ e refl) (refl, refl)
  pay_metrics-AreSettled (metric ∷ metrics) ten e =
      let balance = metric_balance deps.split cents metric in
      let (here, first, e1) =
        >>=-eq-ok
          (pay_ranks deps tree metric balance (assign_amounts_to_ranks (leaderboard metric) balance)
            0 deps.top_n)
          _ e in
      let (rest, later, e2) =
        >>=-eq-ok
          (pay_metrics deps tree (entries_of deps leaderboard cents)
            (metric_balance deps.split cents) metrics)
          _ e1 in
      let (places, rolled) = pay_ranks-ArePaid deps tree metric balance (leaderboard metric) 0 10 (
        subst
          (λ n.
            pay_ranks deps tree metric balance
              (assign_amounts_to_ranks (leaderboard metric) balance) 0 n
            ≡ ok here)
          ten first) in
      let (shared, sums) = pay_metrics-AreSettled metrics ten later in
      subst (AreSettled (metric ∷ metrics)) (ok_injective _ e2 refl) (
        (here.per_position, rest.per_position, refl, places, shared),
        (sum_amounts-append here.per_position rest.per_position).1 ∙ ap₂ ◌+◌ rolled sums,
      )

-- What a distribution over ten ranks does with the pool.
pub record Settles (deps : MultiMetricDistributeDeps) (payout : Payout) : Type 0 where
  pub leaderboard : MetricId → List MetricLeaderboardEntry
  pub total_pool : Bytes
  pub cents : ℕ
  pub tree : Option MultiMetricMerkleTree
  pub fetched : deps.fetch_leaderboards ≡ ok leaderboard
  pub pool_read : deps.read_pool_balance ≡ ok total_pool
  pub floored : deps.floor_cents total_pool ≡ ok cents
  pub built : tree_of deps (entries_of deps leaderboard cents) ≡ ok tree
  pub shared : AreShared deps tree leaderboard cents ordered_metrics payout.per_position
  pub rolls_over : payout.rolled_over_base_units ≡ sum_rolled payout.per_position
  pub within : sum_amounts payout.per_position ≤ cents * 10000
  pub nearly_all : cents * 10000 < sum_amounts payout.per_position + 4 * 10000

-- When a distribution over ten ranks returns, it has ten positions for each of the four metrics, in
-- order: each has its share of the metric's balance, and the line of the leaderboard at its rank was
-- called to be paid that amount with the tree's proof, the status being the answer; a rank without
-- a line is rolled over. What rolls over is the sum of those positions. All positions together never
-- exceed the whole cents that `Math.floor(Number(pool) * 100)` gives, and leave less than four of
-- these cents.
pub run_multi_metric_distribute-Settles :
    (deps : MultiMetricDistributeDeps) {payout : Payout}
    → deps.top_n ≡ 10
    → run_multi_metric_distribute deps ≡ ok payout
    → Settles deps payout
unfolding run_multi_metric_distribute
run_multi_metric_distribute-Settles deps ten e =
    let (_, whole, e1) =
      >>=-eq-ok
        (throw_if (not (sum_over deps.split ordered_metrics == 10000))
          (bad_split (sum_over deps.split ordered_metrics)))
        _ e in
    let (leaderboard, fetched, e2) = >>=-eq-ok deps.fetch_leaderboards _ e1 in
    let (total_pool, pool_read, e3) = >>=-eq-ok deps.read_pool_balance _ e2 in
    let (cents, floored, e4) = >>=-eq-ok (deps.floor_cents total_pool) _ e3 in
    let (tree, built, e5) = >>=-eq-ok (tree_of deps (entries_of deps leaderboard cents)) _ e4 in
    let (tx_id, uploaded, e6) = >>=-eq-ok (deps.upload (root_of deps tree)) _ e5 in
    let (_, inserted, e7) = >>=-eq-ok (deps.insert_snapshot (root_of deps tree) tx_id false) _ e6 in
    let (_, committed, e8) = >>=-eq-ok (commit deps (root_of deps tree) tx_id) _ e7 in
    let (shared, rolled) =
      pay_metrics-AreSettled deps tree leaderboard cents ordered_metrics ten e8 in
    let sums = sum-AreShared deps tree leaderboard cents ordered_metrics _ shared in
    let pool = metric_balances-pool deps.split cents (throw_if-ok _ whole) in
    record {
      leaderboard = leaderboard;
      total_pool = total_pool;
      cents = cents;
      tree = tree;
      fetched = fetched;
      pool_read = pool_read;
      floored = floored;
      built = built;
      shared = shared;
      rolls_over = sym rolled;
      within = omega (arith, sums, pool.0);
      nearly_all = omega (arith, sums, pool.1);
    }
