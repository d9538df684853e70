-- ===== src/Trade/Legs.antt =====
-- The two-legged NO trades: when the builders return a transaction, and which legs it has.
use bell_markets.Prelude.{
  ℕ, ◌≡◌, refl, ap, ap₂, ◌∙◌, sym, true, not, List, [], ◌∷◌, ◌++◌, ltb, arith,
}
use bell_markets.Prelude.Int.{pos_part, is_positive}
use bell_markets.Prelude.Result.{ok, throw_if, throw_if-ok, ok_injective, >>=-eq-ok}
use bell_markets.OrderBook.{bid, ask, PlannedFill, PlanFillsResult}
use bell_markets.Solana.{
  Solana, Method, place_order_method, mint_pair_method, redeem_pair_method, derive_yes_mint_pda,
}
use bell_markets.Trade.{
  Instruction, place_order, mint_pair, redeem_pair, ioc, amount_not_positive, call_anchor_method,
  place_order_accounts, mint_pair_accounts, redeem_pair_accounts, payout_accounts,
}
use bell_markets.Trade.PlaceOrder.{plan_of}
use bell_markets.Trade.Coverage.{IsCovered, plan_of-IsCovered, total_filled-enough}
use bell_markets.Trade.BuyNo.{BuildBuyNoParams, BuildBuyNoResult, build_buy_no_tx, buy_no_prelude}
use bell_markets.Trade.SellNo.{
  BuildSellNoParams, BuildSellNoResult, build_sell_no_tx, sell_no_prelude,
}

pub call_anchor_method-ok :
    (solana : Solana) (method : Method) (ix : Instruction) {out : Instruction}
    → call_anchor_method solana method ix ≡ ok out
    → out ≡ ix
unfolding call_anchor_method
call_anchor_method-ok solana method ix e = ground arith

-- The legs of a NO purchase: mint the pairs, then sell as much YES into the bids, whose owners are
-- paid on their YES accounts.
pub record IsBuyNo (solana : Solana) (params : BuildBuyNoParams) (result : BuildBuyNoResult)
    : Type 0 where
  pub quantity : ℕ
  pub fills : List PlannedFill
  pub covered : IsCovered params.book ask params.amount quantity fills
  pub legs :
      result.tx
      ≡ buy_no_prelude solana params
        ++ (mint_pair quantity (
              mint_pair_accounts solana params.trader params.market params.usdc_mint
                params.treasury)
            ∷ place_order ask 0 quantity true
                (place_order_accounts solana params.trader params.market params.usdc_mint)
                (payout_accounts solana (derive_yes_mint_pda solana params.market) fills)
            ∷ [])
  pub filled : result.planned_filled ≡ quantity

-- When `build_buy_no_tx` returns, the amount is positive and the best sixteen bids hold it; the
-- planned fills take exactly it from them in book order; and the transaction is the account
-- creations, the mint of that amount, and a market sale of that amount to the makers of the fills.
pub build_buy_no_tx-IsBuyNo :
    (solana : Solana) (params : BuildBuyNoParams) {result : BuildBuyNoResult}
    → build_buy_no_tx solana params ≡ ok result
    → IsBuyNo solana params result
unfolding build_buy_no_tx
build_buy_no_tx-IsBuyNo solana params e =
    let amount : ℕ = pos_part params.amount in
    let plan : PlanFillsResult = plan_of params.book ask 0 amount true in
    let mint_ix : Instruction =
      mint_pair amount
        (mint_pair_accounts solana params.trader params.market params.usdc_mint params.treasury) in
    let place_ix : Instruction =
      place_order ask 0 amount true
        (place_order_accounts solana params.trader params.market params.usdc_mint)
        (payout_accounts solana (derive_yes_mint_pda solana params.market) plan.fills) in
    let (_, positive, e1) =
      >>=-eq-ok (throw_if (not (is_positive params.amount)) amount_not_positive) _ e in
    let (_, enough, e2) =
      >>=-eq-ok (throw_if (ltb plan.total_filled amount) (ioc amount plan.total_filled)) _ e1 in
    let (mint, minted, e3) = >>=-eq-ok (call_anchor_method solana mint_pair_method mint_ix) _ e2 in
    let (place, placed, e4) =
      >>=-eq-ok (call_anchor_method solana place_order_method place_ix) _ e3 in
    let built = sym (ok_injective _ e4 refl) in
    record {
      quantity = amount;
      fills = plan.fills;
      covered =
          plan_of-IsCovered params.book ask params.amount (throw_if-ok _ positive)
            (throw_if-ok _ enough);
      legs =
          ap (λ r. r.tx) built
          ∙ ap₂ (λ m p. buy_no_prelude solana params ++ (m ∷ p ∷ []))
              (call_anchor_method-ok solana mint_pair_method mint_ix minted)
              (call_anchor_method-ok solana place_order_method place_ix placed);
      filled =
          ap (λ r. r.planned_filled) built
          ∙ total_filled-enough params.book ask amount (throw_if-ok _ enough);
    }

-- The legs of a NO sale: buy YES from the asks, whose owners are paid on their USDC accounts, then
-- redeem as many pairs.
pub record IsSellNo (solana : Solana) (params : BuildSellNoParams) (result : BuildSellNoResult)
    : Type 0 where
  pub quantity : ℕ
  pub fills : List PlannedFill
  pub covered : IsCovered params.book bid params.amount quantity fills
  pub legs :
      result.tx
      ≡ sell_no_prelude solana params
        ++ (place_order bid 0 quantity true
              (place_order_accounts solana params.trader params.market params.usdc_mint)
              (payout_accounts solana params.usdc_mint fills)
            ∷ redeem_pair quantity
                (redeem_pair_accounts solana params.trader params.market params.usdc_mint)
            ∷ [])
  pub filled : result.planned_filled ≡ quantity

-- When `build_sell_no_tx` returns, the amount is positive and the best sixteen asks hold it; the
-- planned fills take exactly it from them in book order; and the transaction is the account
-- creations, a market purchase of that amount from the makers of the fills, and the redemption of
-- that amount of pairs.
pub build_sell_no_tx-IsSellNo :
    (solana : Solana) (params : BuildSellNoParams) {result : BuildSellNoResult}
    → build_sell_no_tx solana params ≡ ok result
    → IsSellNo solana params result
unfolding build_sell_no_tx
build_sell_no_tx-IsSellNo solana params e =
    let amount : ℕ = pos_part params.amount in
    let plan : PlanFillsResult = plan_of params.book bid 0 amount true in
    let place_ix : Instruction =
      place_order bid 0 amount true
        (place_order_accounts solana params.trader params.market params.usdc_mint)
        (payout_accounts solana params.usdc_mint plan.fills) in
    let redeem_ix : Instruction =
      redeem_pair amount
        (redeem_pair_accounts solana params.trader params.market params.usdc_mint) in
    let (_, positive, e1) =
      >>=-eq-ok (throw_if (not (is_positive params.amount)) amount_not_positive) _ e in
    let (_, enough, e2) =
      >>=-eq-ok (throw_if (ltb plan.total_filled amount) (ioc amount plan.total_filled)) _ e1 in
    let (place, placed, e3) =
      >>=-eq-ok (call_anchor_method solana place_order_method place_ix) _ e2 in
    let (redeem, redeemed, e4) =
      >>=-eq-ok (call_anchor_method solana redeem_pair_method redeem_ix) _ e3 in
    let built = sym (ok_injective _ e4 refl) in
    record {
      quantity = amount;
      fills = plan.fills;
      covered =
          plan_of-IsCovered params.book bid params.amount (throw_if-ok _ positive)
            (throw_if-ok _ enough);
      legs =
          ap (λ r. r.tx) built
          ∙ ap₂ (λ p r. sell_no_prelude solana params ++ (p ∷ r ∷ []))
              (call_anchor_method-ok solana place_order_method place_ix placed)
              (call_anchor_method-ok solana redeem_pair_method redeem_ix redeemed);
      filled =
          ap (λ r. r.planned_filled) built
          ∙ total_filled-enough params.book bid amount (throw_if-ok _ enough);
    }
