-- ===== src/OrderBook/Best.antt =====
-- A plan takes all that the reachable makers hold, up to the size.
use bell_markets.Prelude.{
  ℕ, zero, suc, ◌+◌, ◌-◌, ◌≤◌, ◌≡◌, Bool, List, [], ◌∷◌, ltb, if◌then◌else◌, length, arith, min,
}
use bell_markets.OrderBook.{
  Order, Side, OrderBookAccount, PlanFillsResult, plan_from, plan_fills, may_fill, makers_of,
}
use bell_markets.OrderBook.Fills.{
  sum_fills, sum_sizes, reachable, Backed, plan_from-adds_up, length-plan_from, plan_from-Backed,
}

module _ (fillable : Order → Bool) (max_fills : ℕ) where
  plan_from-total :
      (left i count : ℕ) (makers : List Order) (remaining : ℕ)
      → left ≡ max_fills - count
      → (plan_from fillable max_fills i count makers remaining).total_filled
        ≡ min remaining (sum_sizes (reachable fillable left makers))
  unfolding plan_from reachable
  plan_from-total zero i count [] remaining e = omega arith
  plan_from-total (suc left) i count [] remaining e = omega arith
  plan_from-total zero i count (maker ∷ makers) remaining e = ground arith
  plan_from-total (suc left) i count (maker ∷ makers) remaining e =
      let fill_size : ℕ = if ltb maker.size remaining then maker.size else remaining in
      let ih =
        plan_from-total left (i + 1) (count + 1) makers (remaining - fill_size) (omega arith) in
      ground arith

-- What a plan of fills promises.
pub record IsPlan (makers : List Order) (fillable : Order → Bool) (size max_fills : ℕ)
    (plan : PlanFillsResult) : Type 0 where
  pub adds_up : plan.total_filled + plan.remaining ≡ size
  pub summed : sum_fills plan.fills ≡ plan.total_filled
  pub capped : length plan.fills ≤ max_fills
  pub backed : Backed fillable 0 makers plan.fills
  pub most : plan.total_filled ≡ min size (sum_sizes (reachable fillable max_fills makers))

-- For every book, side, limit price, size and cap: filled and remaining make up the size, the fills
-- sum to the filled total, there are at most `max_fills`, the k-th fill is at the k-th maker of the
-- opposite side with its owner and price, within its size and crossing the limit (a market order
-- crosses every maker), and the total is the smaller of the size and what the first `max_fills`
-- makers up to the first that does not cross hold.
pub plan_fills-IsPlan :
    (book : OrderBookAccount) (side : Side) (price size : ℕ) (is_market : Bool) (max_fills : ℕ)
    → IsPlan
        (makers_of book side)
        (may_fill side price is_market)
        size
        max_fills
        (plan_fills book side price size is_market max_fills)
unfolding plan_fills
plan_fills-IsPlan book side price size is_market max_fills =
    let fillable = may_fill side price is_market in
    let sums = plan_from-adds_up fillable max_fills 0 0 (makers_of book side) size in
    record {
      adds_up = sums.0;
      summed = sums.1;
      capped = omega (arith, length-plan_from fillable max_fills 0 0 (makers_of book side) size);
      backed = plan_from-Backed fillable max_fills 0 0 (makers_of book side) size;
      most =
          plan_from-total fillable max_fills max_fills 0 0 (makers_of book side) size (omega arith);
    }
