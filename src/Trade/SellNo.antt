-- ===== src/Trade/SellNo.antt =====
-- apps/web/src/lib/tx/build-sell-no.ts: buy YES at the market and redeem the pairs.
use bell_markets.Prelude.{ℕ, true, not, List, [], ◌∷◌, ◌++◌, Option, ltb}
use bell_markets.Prelude.Int.{ℤ, pos_part, is_positive}
use bell_markets.Prelude.Result.{Result, ok, ◌>>=◌, ◌>>◌, throw_if}
use bell_markets.Bytes.{Bytes}
use bell_markets.OrderBook.{bid, OrderBookAccount}
use bell_markets.Solana.{
  Solana, place_order_method, redeem_pair_method, derive_yes_mint_pda, derive_no_mint_pda,
}
use bell_markets.Trade.{
  Instruction, place_order, redeem_pair, TxError, amount_not_positive, ioc, call_anchor_method,
  place_order_accounts, redeem_pair_accounts, payout_accounts, create_ata_ix,
}
use bell_markets.Trade.PlaceOrder.{plan_of}

pub record BuildSellNoParams : Type 0 where
  pub trader : Bytes
  pub market : Bytes
  pub usdc_mint : Bytes
  pub book : Option OrderBookAccount
  pub amount : ℤ

pub record BuildSellNoResult : Type 0 where
  pub tx : List Instruction
  pub prelude : List Instruction
  pub redeem_pair_ix : Instruction
  pub place_order_ix : Instruction
  pub planned_filled : ℕ

unfoldable pub sell_no_prelude : Solana → BuildSellNoParams → List Instruction
sell_no_prelude solana params =
    create_ata_ix solana params.trader params.trader params.usdc_mint
    ∷ create_ata_ix solana params.trader params.trader (derive_yes_mint_pda solana params.market)
    ∷ create_ata_ix solana params.trader params.trader (derive_no_mint_pda solana params.market)
    ∷ []

unfoldable pub build_sell_no_tx : Solana → BuildSellNoParams → Result TxError BuildSellNoResult
build_sell_no_tx solana params =
    let amount = pos_part params.amount in
    let plan = plan_of params.book bid 0 amount true in
    let prelude = sell_no_prelude solana params in
    do
      throw_if (not (is_positive params.amount)) amount_not_positive
      throw_if (ltb plan.total_filled amount) (ioc amount plan.total_filled)
      place_order_ix ← call_anchor_method solana place_order_method (
          place_order bid 0 amount true
            (place_order_accounts solana params.trader params.market params.usdc_mint)
            (payout_accounts solana params.usdc_mint plan.fills))
      redeem_pair_ix ← call_anchor_method solana redeem_pair_method (
          redeem_pair amount
            (redeem_pair_accounts solana params.trader params.market params.usdc_mint))
      ok (record {
        tx = prelude ++ (place_order_ix ∷ redeem_pair_ix ∷ []);
        prelude = prelude;
        place_order_ix = place_order_ix;
        redeem_pair_ix = redeem_pair_ix;
        planned_filled = plan.total_filled;
      })
