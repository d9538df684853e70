-- ===== src/Trade/Resting.antt =====
-- What a YES purchase fills at once and what it leaves on the book.
use bell_markets.Prelude.{
  ℕ, ◌+◌, ◌<◌, ◌≡◌, refl, ap, ◌∙◌, sym, true, false, not, [], Bool-cases, ◌⊎◌, inl, inr, Option,
  none, some, Bool, arith,
}
use bell_markets.Prelude.Int.{pos, pos_part, is_positive}
use bell_markets.Prelude.Result.{ok, throw_if, throw_if-ok, ok_injective, >>=-eq-ok}
use bell_markets.OrderBook.{
  Side, bid, may_fill, makers_of, PlanFillsResult, OrderBookAccount, max_fills_per_place_order,
}
use bell_markets.OrderBook.Fills.{sum_fills}
use bell_markets.OrderBook.Best.{IsPlan, plan_fills-IsPlan}
use bell_markets.Solana.{Solana, place_order_method}
use bell_markets.Trade.{
  Instruction, place_order, amount_not_positive, call_anchor_method, place_order_accounts,
  payout_accounts,
}
use bell_markets.Trade.PlaceOrder.{
  plan_of, maker_payout_mint, BuildPlaceOrderParams, BuildPlaceOrderResult, build_place_order_tx,
  BuildBuyYesParams, BuildBuyYesResult, build_buy_yes_built,
}
use bell_markets.Trade.Coverage.{positive_cases}
use bell_markets.Trade.Legs.{call_anchor_method-ok}

pub plan_of-adds_up :
    (book : Option OrderBookAccount) (side : Side) (price size : ℕ) (is_market : Bool)
    → ((plan_of book side price size is_market).total_filled
          + (plan_of book side price size is_market).remaining
        ≡ size)
      × (sum_fills (plan_of book side price size is_market).fills
          ≡ (plan_of book side price size is_market).total_filled)
unfolding plan_of
plan_of-adds_up none side price size is_market = (omega arith, refl)
plan_of-adds_up (some book) side price size is_market =
    let p = plan_fills-IsPlan book side price size is_market max_fills_per_place_order in
    (p.adds_up, p.summed)

-- A placed order: a positive size, and the instruction with the payout accounts of the given fills.
pub record IsPlaced (solana : Solana) (params : BuildPlaceOrderParams)
    (result : BuildPlaceOrderResult) : Type 0 where
  pub positive : 0 < pos_part params.size
  pub counted : params.size ≡ pos (pos_part params.size)
  pub instruction :
      result.ix
      ≡ place_order params.side params.price
          (pos_part params.size)
          params.is_market
          (place_order_accounts solana params.trader params.market params.usdc_mint)
          (payout_accounts solana
            (maker_payout_mint solana params.side params.market params.usdc_mint)
            params.planned_fills)

pub build_place_order_tx-IsPlaced :
    (solana : Solana) (params : BuildPlaceOrderParams) {result : BuildPlaceOrderResult}
    → build_place_order_tx solana params ≡ ok result
    → IsPlaced solana params result
unfolding build_place_order_tx
build_place_order_tx-IsPlaced solana params e =
    let place_ix : Instruction =
      place_order params.side params.price (pos_part params.size) params.is_market
        (place_order_accounts solana params.trader params.market params.usdc_mint)
        (payout_accounts solana
          (maker_payout_mint solana params.side params.market params.usdc_mint)
          params.planned_fills) in
    let (_, positive, e1) =
      >>=-eq-ok (throw_if (not (is_positive params.size)) amount_not_positive) _ e in
    let (ix, placed, e2) = >>=-eq-ok (call_anchor_method solana place_order_method place_ix) _ e1 in
    let cases = positive_cases params.size (throw_if-ok _ positive) in
    record {
      positive = cases.0;
      counted = cases.1;
      instruction =
          ap (λ r. r.ix) (sym (ok_injective _ e2 refl))
          ∙ call_anchor_method-ok solana place_order_method place_ix placed;
    }

-- A plan of a bid: what it takes from the asks of the book, and nothing without a book.
abbrev pub IsBidPlan : Option OrderBookAccount → ℕ → ℕ → Bool → PlanFillsResult → Type 0
IsBidPlan none price size is_market plan =
    (plan.fills ≡ []) × (plan.total_filled ≡ 0) × (plan.remaining ≡ size)
IsBidPlan (some book) price size is_market plan =
    IsPlan book.asks (may_fill bid price is_market) size 16 plan

plan_of-IsBidPlan :
    (book : Option OrderBookAccount) (price size : ℕ) (is_market : Bool)
    → IsBidPlan book price size is_market (plan_of book bid price size is_market)
unfolding plan_of makers_of
plan_of-IsBidPlan none price size is_market = (refl, refl, refl)
plan_of-IsBidPlan (some book) price size is_market =
    plan_fills-IsPlan book bid price size is_market max_fills_per_place_order

-- A YES purchase: the fills at once, paid to the makers in USDC, and what is left to rest.
pub record IsBuyYes (solana : Solana) (params : BuildBuyYesParams) (result : BuildBuyYesResult)
    : Type 0 where
  pub quantity : ℕ
  pub plan : PlanFillsResult
  pub positive : 0 < quantity
  pub counted : params.size ≡ pos quantity
  pub planned : IsBidPlan params.book params.price quantity params.is_market plan
  pub summed : sum_fills plan.fills ≡ result.planned_filled
  pub filled : result.planned_filled ≡ plan.total_filled
  pub rests :
      (params.is_market ≡ true) × (result.planned_rest ≡ 0)
      ⊎ (params.is_market ≡ false) × (result.planned_filled + result.planned_rest ≡ quantity)
  pub instruction :
      result.built.ix
      ≡ place_order bid params.price quantity params.is_market
          (place_order_accounts solana params.trader params.market params.usdc_mint)
          (payout_accounts solana params.usdc_mint plan.fills)

-- When `build_buy_yes_built` returns, the size is positive; the order is a bid of that size at the
-- price, whose remaining accounts are the makers' USDC accounts in the order of the planned fills;
-- these are the plan of that bid against the asks of the book, and none without a book; the fills
-- sum to what is planned as filled; of a limit order the rest makes up the size, and of a market
-- order nothing rests.
pub build_buy_yes_built-IsBuyYes :
    (solana : Solana) (params : BuildBuyYesParams) {result : BuildBuyYesResult}
    → build_buy_yes_built solana params ≡ ok result
    → IsBuyYes solana params result
unfolding build_buy_yes_built
build_buy_yes_built-IsBuyYes solana params e =
    let plan : PlanFillsResult =
      plan_of params.book bid params.price (pos_part params.size) params.is_market in
    let order : BuildPlaceOrderParams = record {
      trader = params.trader;
      market = params.market;
      usdc_mint = params.usdc_mint;
      side = bid;
      price = params.price;
      size = params.size;
      is_market = params.is_market;
      planned_fills = plan.fills;
    } in
    let (built, placed, e1) = >>=-eq-ok (build_place_order_tx solana order) _ e in
    let is_placed = build_place_order_tx-IsPlaced solana order placed in
    let same = sym (ok_injective _ e1 refl) in
    let sums =
      plan_of-adds_up params.book bid params.price (pos_part params.size) params.is_market in
    let filled = ap (λ r. r.planned_filled) same in
    let rest = ap (λ r. r.planned_rest) same in
    record {
      quantity = pos_part params.size;
      plan = plan;
      positive = is_placed.positive;
      counted = is_placed.counted;
      summed = sums.1 ∙ sym filled;
      planned = plan_of-IsBidPlan params.book params.price (pos_part params.size) params.is_market;
      filled = filled;
      rests = elim (Bool-cases params.is_market) [
        | inl market ↦ inl (market, rest ∙ rw market)
        | inr limit ↦ inr (limit, rw (filled, rest, limit) (rw limit at sums.0))
      ];
      instruction = ap (λ r. r.built.ix) same ∙ is_placed.instruction;
    }
