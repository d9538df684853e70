-- ===== src/Trade/Coverage.antt =====
-- When the builders of the two-legged NO trades succeed, and what the transaction then trades.
use bell_markets.Prelude.{
  ℕ, zero, suc, ◌<◌, ◌≤◌, ◌≡◌, refl, ap, ◌∙◌, true, false, not, List, [], ◌∷◌, ltb, length, Option,
  some, none, arith, take, min,
}
use bell_markets.Prelude.Int.{ℤ, pos, negsuc, pos_part, is_positive}
use bell_markets.OrderBook.{
  Side, Order, PlannedFill, OrderBookAccount, may_fill, makers_of, max_fills_per_place_order,
}
use bell_markets.OrderBook.Fills.{sum_fills, sum_sizes, reachable, Backed}
use bell_markets.OrderBook.Best.{plan_fills-IsPlan}
use bell_markets.Trade.PlaceOrder.{plan_of}

-- What the book offers on the other side to one market order: the sizes of its best sixteen makers.
abbrev pub available : Option OrderBookAccount → Side → ℕ
available none side = 0
available (some book) side = sum_sizes (take max_fills_per_place_order (makers_of book side))

module _ (side : Side) where
  reachable-market :
      (n : ℕ) (makers : List Order) → reachable (may_fill side 0 true) n makers ≡ take n makers
  unfolding reachable may_fill
  reachable-market zero makers = refl
  reachable-market (suc n) [] = refl
  reachable-market (suc n) (maker ∷ makers) = ap (λ rest. maker ∷ rest) (reachable-market n makers)

pub total_filled-plan_of :
    (book : Option OrderBookAccount) (side : Side) (amount : ℕ)
    → (plan_of book side 0 amount true).total_filled ≡ min amount (available book side)
unfolding plan_of
total_filled-plan_of none side amount = omega arith
total_filled-plan_of (some book) side amount =
    (plan_fills-IsPlan book side 0 amount true max_fills_per_place_order).most
    ∙ ap (λ makers. min amount (sum_sizes makers))
        (reachable-market side max_fills_per_place_order (makers_of book side))

-- The fills of an order that takes all of `amount` from the makers of a book: they sum to the amount,
-- are at most sixteen, and the k-th is at the k-th maker of the opposite side, within its size.
pub record IsFullPlan (book : OrderBookAccount) (side : Side) (amount : ℕ)
    (fills : List PlannedFill) : Type 0 where
  pub summed : sum_fills fills ≡ amount
  pub capped : length fills ≤ max_fills_per_place_order
  pub backed : Backed (may_fill side 0 true) 0 (makers_of book side) fills

pub plan_of-IsFullPlan :
    (book : OrderBookAccount) (side : Side) (amount : ℕ)
    → amount ≤ available (some book) side
    → IsFullPlan book side amount (plan_of (some book) side 0 amount true).fills
unfolding plan_of
plan_of-IsFullPlan book side amount covered =
    let plan = plan_fills-IsPlan book side 0 amount true max_fills_per_place_order in
    let total = total_filled-plan_of (some book) side amount in
    record {
      summed = plan.summed ∙ omega (arith, covered, total);
      capped = plan.capped;
      backed = plan.backed;
    }

-- The amount is positive, the book covers it, and the fills take exactly it.
pub record IsCovered (book : Option OrderBookAccount) (side : Side) (amount : ℤ) (quantity : ℕ)
    (fills : List PlannedFill) : Type 0 where
  pub account : OrderBookAccount
  pub known : book ≡ some account
  pub positive : 0 < quantity
  pub counted : amount ≡ pos quantity
  pub full : IsFullPlan account side quantity fills

pub positive_cases :
    (amount : ℤ)
    → not (is_positive amount) ≡ false
    → (0 < pos_part amount) × (amount ≡ pos (pos_part amount))
positive_cases (pos zero) e = cc
positive_cases (pos (suc n)) e = (omega arith, refl)
positive_cases (negsuc n) e = cc

pub plan_of-IsCovered :
    (book : Option OrderBookAccount) (side : Side) (amount : ℤ)
    → not (is_positive amount) ≡ false
    → ltb (plan_of book side 0 (pos_part amount) true).total_filled (pos_part amount) ≡ false
    → IsCovered book side amount
        (pos_part amount)
        (plan_of book side 0 (pos_part amount) true).fills
plan_of-IsCovered none side amount positive enough =
    let total = total_filled-plan_of none side (pos_part amount) in
    let p = (positive_cases amount positive).0 in ground arith
plan_of-IsCovered (some book) side amount positive enough =
    let total = total_filled-plan_of (some book) side (pos_part amount) in
    let p = positive_cases amount positive in
    record {
      account = book;
      known = refl;
      positive = p.0;
      counted = p.1;
      full = plan_of-IsFullPlan book side (pos_part amount) (ground arith);
    }

pub total_filled-enough :
    (book : Option OrderBookAccount) (side : Side) (amount : ℕ)
    → ltb (plan_of book side 0 amount true).total_filled amount ≡ false
    → (plan_of book side 0 amount true).total_filled ≡ amount
total_filled-enough book side amount enough =
    let total = total_filled-plan_of book side amount in ground arith
