-- ===== src/Trade/Accepts.antt =====
-- When the builders of the NO trades return and when they refuse.
use bell_markets.Prelude.{
  ℕ, zero, suc, ◌^◌, ◌<◌, ◌≤◌, ◌≡◌, refl, ap, ◌∙◌, true, false, not, ltb, arith,
}
use bell_markets.Prelude.Int.{ℤ, pos, negsuc, pos_part, is_positive}
use bell_markets.Prelude.Result.{ok, throw}
use bell_markets.OrderBook.{bid, ask}
use bell_markets.Solana.{Solana, place_order_method, mint_pair_method, redeem_pair_method}
use bell_markets.Trade.{ioc, call_anchor_method}
use bell_markets.Trade.PlaceOrder.{plan_of}
use bell_markets.Trade.Coverage.{available, total_filled-plan_of}
use bell_markets.Trade.BuyNo.{BuildBuyNoParams, BuildBuyNoResult, build_buy_no_tx}
use bell_markets.Trade.SellNo.{BuildSellNoParams, BuildSellNoResult, build_sell_no_tx}

positive_amount :
    {amount : ℤ} {quantity : ℕ}
    → amount ≡ pos quantity
    → 0 < quantity
    → not (is_positive amount) ≡ false
positive_amount {amount = pos zero} e p = grind arith
positive_amount {amount = pos (suc n)} e p = refl
positive_amount {amount = negsuc n} e p = cc

-- A positive amount that the best sixteen bids do not hold is refused, with the amount and what
-- they do hold; without a book that is nothing.
pub build_buy_no_tx-refuses :
    (solana : Solana) (params : BuildBuyNoParams) (quantity : ℕ)
    → params.amount ≡ pos quantity
    → available params.book ask < quantity
    → build_buy_no_tx solana params ≡ throw (ioc quantity (available params.book ask))
unfolding build_buy_no_tx
build_buy_no_tx-refuses solana params quantity e short =
    let counted : pos_part params.amount ≡ quantity = ap pos_part e in
    let total = total_filled-plan_of params.book ask quantity in
    let full : (plan_of params.book ask 0 quantity true).total_filled ≡ available params.book ask =
      total ∙ omega (arith, short) in
    let p = positive_amount e (omega (arith, short)) in
    let t : ltb (available params.book ask) quantity ≡ true = ground arith in
    rw (p, counted, full, t)

-- A positive amount below 2^64 that the best sixteen bids hold is accepted, if the program has the
-- two methods and encodes every number below 2^64 as a u64.
pub build_buy_no_tx-accepts :
    (solana : Solana) (params : BuildBuyNoParams) (quantity : ℕ)
    → params.amount ≡ pos quantity
    → 0 < quantity
    → quantity ≤ available params.book ask
    → quantity < 2 ^ 64
    → ((n : ℕ) → n < 2 ^ 64 → solana.encodes_u64 n ≡ true)
    → solana.has_method mint_pair_method ≡ true
    → solana.has_method place_order_method ≡ true
    → (result : BuildBuyNoResult) × (build_buy_no_tx solana params ≡ ok result)
unfolding build_buy_no_tx call_anchor_method
build_buy_no_tx-accepts solana params quantity e positive covered fits codec has_second has_place =
    let sized = codec quantity fits in
    let unpriced = codec 0 (omega arith) in
    let counted : pos_part params.amount ≡ quantity = ap pos_part e in
    let total = total_filled-plan_of params.book ask quantity in
    let p = positive_amount e positive in
    let t : ltb (plan_of params.book ask 0 quantity true).total_filled quantity ≡ false =
      ground arith in
    rw (p, counted, t, has_second, has_place, sized, unpriced) (_, refl)

-- A positive amount that the best sixteen asks do not hold is refused, with the amount and what
-- they do hold; without a book that is nothing.
pub build_sell_no_tx-refuses :
    (solana : Solana) (params : BuildSellNoParams) (quantity : ℕ)
    → params.amount ≡ pos quantity
    → available params.book bid < quantity
    → build_sell_no_tx solana params ≡ throw (ioc quantity (available params.book bid))
unfolding build_sell_no_tx
build_sell_no_tx-refuses solana params quantity e short =
    let counted : pos_part params.amount ≡ quantity = ap pos_part e in
    let total = total_filled-plan_of params.book bid quantity in
    let full : (plan_of params.book bid 0 quantity true).total_filled ≡ available params.book bid =
      total ∙ omega (arith, short) in
    let p = positive_amount e (omega (arith, short)) in
    let t : ltb (available params.book bid) quantity ≡ true = ground arith in
    rw (p, counted, full, t)

-- A positive amount below 2^64 that the best sixteen asks hold is accepted, if the program has the
-- two methods and encodes every number below 2^64 as a u64.
pub build_sell_no_tx-accepts :
    (solana : Solana) (params : BuildSellNoParams) (quantity : ℕ)
    → params.amount ≡ pos quantity
    → 0 < quantity
    → quantity ≤ available params.book bid
    → quantity < 2 ^ 64
    → ((n : ℕ) → n < 2 ^ 64 → solana.encodes_u64 n ≡ true)
    → solana.has_method redeem_pair_method ≡ true
    → solana.has_method place_order_method ≡ true
    → (result : BuildSellNoResult) × (build_sell_no_tx solana params ≡ ok result)
unfolding build_sell_no_tx call_anchor_method
build_sell_no_tx-accepts solana params quantity e positive covered fits codec has_second has_place =
    let sized = codec quantity fits in
    let unpriced = codec 0 (omega arith) in
    let counted : pos_part params.amount ≡ quantity = ap pos_part e in
    let total = total_filled-plan_of params.book bid quantity in
    let p = positive_amount e positive in
    let t : ltb (plan_of params.book bid 0 quantity true).total_filled quantity ≡ false =
      ground arith in
    rw (p, counted, t, has_second, has_place, sized, unpriced) (_, refl)
