-- ===== src/Payouts/Paid.antt =====
-- What a distribution that returns has paid and recorded.
use bell_markets.Prelude.{ℕ, ◌+◌, ◌≤◌, ◌≡◌, refl, ◌∙◌, subst, arith, List, Option, map}
use bell_markets.Prelude.Result.{ok, and_then-elim, ok_injective}
use bell_markets.Bytes.{Bytes}
use bell_markets.Leaderboard.{LeaderboardEntry, LeaderboardMerkleTree}
use bell_markets.Payouts.{apply_deterministic_tiebreaker, position_amounts}
use bell_markets.Payouts.Amounts.{sum, position_amounts-near_pool}
use bell_markets.Payouts.Rows.{RewardTables, LeaderboardSnapshot}
use bell_markets.Payouts.Period.{
  DistributeForPeriodDeps, PositionOutcome, winners_tree, pay_positions,
}
use bell_markets.Payouts.Recorded.{AreRecorded, pay_positions-AreRecorded}
use bell_markets.Payouts.Run.{
  sorted_top, pay_step, commit_step, snapshot_step, upload_step, tree_step, DistributeOutcome,
  run_distribute_for_period,
}
use bell_markets.Payouts.Outcomes.{
  AreOutcomes, unclaimed, amounts_from, sum-AreOutcomes, pay_positions-AreOutcomes,
}

-- What a distribution that returns promises.
pub record IsPayout (deps : DistributeForPeriodDeps) (after : RewardTables)
    (outcome : DistributeOutcome) : Type 0 where
  pub pool_read : deps.read_pool_balance deps.period.kind ≡ ok outcome.pool_balance_cents
  pub tree : Option LeaderboardMerkleTree
  pub built :
      winners_tree deps (sorted_top deps) (position_amounts outcome.pool_balance_cents) ≡ ok tree
  pub places :
      AreOutcomes deps tree
        (apply_deterministic_tiebreaker deps.shuffle deps.top_entries)
        (position_amounts outcome.pool_balance_cents)
        0
        10
        outcome.per_position
  pub rolls_over :
      outcome.rolled_over_cents
      ≡ unclaimed deps tree
          (apply_deterministic_tiebreaker deps.shuffle deps.top_entries)
          (position_amounts outcome.pool_balance_cents)
          0
          10
  pub at_least :
      outcome.pool_balance_cents
      ≤ sum (map (λ (o : PositionOutcome). o.amount_cents) outcome.per_position) + 5
  pub at_most :
      sum (map (λ (o : PositionOutcome). o.amount_cents) outcome.per_position)
      ≤ outcome.pool_balance_cents + 5
  pub recorded : AreRecorded after outcome.snapshot.id 0 outcome.per_position

-- The amounts of the ten positions are all that there are.
amounts_from-all :
    (deps : DistributeForPeriodDeps) (tree : Option LeaderboardMerkleTree)
    (entries : List LeaderboardEntry) (pool_cents : ℕ)
    → amounts_from deps tree entries (position_amounts pool_cents) 0 10
      ≡ sum (position_amounts pool_cents)
unfolding amounts_from position_amounts
amounts_from-all deps tree entries pool_cents = omega arith

module _ (deps : DistributeForPeriodDeps) {outcome : DistributeOutcome} where
  pay_step-IsPayout :
      (pool_cents : ℕ) (tree : Option LeaderboardMerkleTree) (tx_id : Bytes)
      (snapshot : LeaderboardSnapshot) (tables : RewardTables) (signed : Option Bytes)
      → deps.read_pool_balance deps.period.kind ≡ ok pool_cents
      → winners_tree deps (sorted_top deps) (position_amounts pool_cents) ≡ ok tree
      → (pay_step deps pool_cents tree tx_id snapshot tables signed).1 ≡ ok outcome
      → IsPayout deps (pay_step deps pool_cents tree tx_id snapshot tables signed).0 outcome
  unfolding pay_step
  pay_step-IsPayout pool_cents tree tx_id snapshot tables signed reads builds e =
      let entries = sorted_top deps in
      let amounts = position_amounts pool_cents in
      let pays = pay_positions deps snapshot.id tree entries amounts 0 10 tables in
      and_then-elim (IsPayout deps) pays _
        (λ paid are_paid is.
          let (places, rolls) =
            pay_positions-AreOutcomes deps snapshot.id tree entries amounts 0 10 tables are_paid in
          let total =
            sum-AreOutcomes deps tree entries amounts 0 10 paid.per_position places
            ∙ amounts_from-all deps tree entries pool_cents in
          let (ten, at_least, at_most) = position_amounts-near_pool pool_cents in
          subst (IsPayout deps pays.0) (ok_injective _ is refl) (record {
            pool_read = reads;
            tree = tree;
            built = builds;
            places = places;
            rolls_over = rolls;
            at_least = omega (arith, at_least, total);
            at_most = omega (arith, at_most, total);
            recorded =
                pay_positions-AreRecorded deps snapshot.id tree entries amounts 0 10 tables
                  are_paid;
          }))
        e

  snapshot_step-IsPayout :
      (pool_cents : ℕ) (tree : Option LeaderboardMerkleTree) (tables : RewardTables) (tx_id : Bytes)
      → deps.read_pool_balance deps.period.kind ≡ ok pool_cents
      → winners_tree deps (sorted_top deps) (position_amounts pool_cents) ≡ ok tree
      → (snapshot_step deps pool_cents tree tables tx_id).1 ≡ ok outcome
      → IsPayout deps (snapshot_step deps pool_cents tree tables tx_id).0 outcome
  unfolding snapshot_step commit_step
  snapshot_step-IsPayout pool_cents tree tables tx_id reads builds e =
      and_then-elim (IsPayout deps) _ (commit_step deps pool_cents tree tx_id)
        (λ snapshot inserts e1.
          and_then-elim (IsPayout deps) _ (pay_step deps pool_cents tree tx_id snapshot)
            (λ signed commits e2.
              pay_step-IsPayout pool_cents tree tx_id snapshot _ signed reads builds e2)
            e1)
        e

  tree_step-IsPayout :
      (tables : RewardTables) (pool_cents : ℕ)
      → deps.read_pool_balance deps.period.kind ≡ ok pool_cents
      → (tree_step deps tables pool_cents).1 ≡ ok outcome
      → IsPayout deps (tree_step deps tables pool_cents).0 outcome
  unfolding tree_step upload_step
  tree_step-IsPayout tables pool_cents reads e =
      and_then-elim (IsPayout deps) _ (upload_step deps pool_cents)
        (λ tree builds e1.
          and_then-elim (IsPayout deps) _ (snapshot_step deps pool_cents tree)
            (λ tx_id uploads e2.
              snapshot_step-IsPayout pool_cents tree tables tx_id reads builds e2)
            e1)
        e

-- When the distribution of a period returns, its ten outcomes are those of the tiebroken
-- leaderboard, in order: for each place of an entry the payment of the place's whole amount to the
-- entry's user, with the proof that the tree of the winners has for the place, answered the
-- signature of the outcome or failed, and the outcome is distributed or errored accordingly; each
-- place behind the last entry is rolled over, and what rolls over is the sum of those places'
-- amounts. The ten amounts add up to within five cents of the pool that was read. For each place the
-- table distributions has a row under the snapshot, with the outcome's signature if there is one.
pub run_distribute_for_period-IsPayout :
    (deps : DistributeForPeriodDeps) (tables : RewardTables) (outcome : DistributeOutcome)
    → (run_distribute_for_period deps tables).1 ≡ ok outcome
    → IsPayout deps (run_distribute_for_period deps tables).0 outcome
unfolding run_distribute_for_period
run_distribute_for_period-IsPayout deps tables outcome e =
    and_then-elim (IsPayout deps) _ (tree_step deps)
      (λ pool_cents reads e1. tree_step-IsPayout deps tables pool_cents reads e1) e
