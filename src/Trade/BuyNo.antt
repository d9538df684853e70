-- ===== src/Trade/BuyNo.antt =====
-- apps/web/src/lib/tx/build-buy-no.ts: mint a pair and sell its YES leg at the market.
use bell_markets.Prelude.{ℕ, true, not, List, [], ◌∷◌, ◌++◌, Option, ltb}
use bell_markets.Prelude.Int.{ℤ, pos_part, is_positive}
use bell_markets.Prelude.Result.{Result, ok, ◌>>=◌, ◌>>◌, throw_if}
use bell_markets.Bytes.{Bytes}
use bell_markets.OrderBook.{ask, OrderBookAccount}
use bell_markets.Solana.{
  Solana, place_order_method, mint_pair_method, derive_yes_mint_pda, derive_no_mint_pda,
}
use bell_markets.Trade.{
  Instruction, place_order, mint_pair, TxError, amount_not_positive, ioc, call_anchor_method,
  place_order_accounts, mint_pair_accounts, payout_accounts, create_ata_ix,
}
use bell_markets.Trade.PlaceOrder.{plan_of}

pub record BuildBuyNoParams : Type 0 where
  pub trader : Bytes
  pub market : Bytes
  pub usdc_mint : Bytes
  pub treasury : Bytes
  pub book : Option OrderBookAccount
  pub amount : ℤ

pub record BuildBuyNoResult : Type 0 where
  pub tx : List Instruction
  pub prelude : List Instruction
  pub mint_pair_ix : Instruction
  pub place_order_ix : Instruction
  pub planned_filled : ℕ

unfoldable pub buy_no_prelude : Solana → BuildBuyNoParams → List Instruction
buy_no_prelude solana params =
    create_ata_ix solana params.trader params.trader params.usdc_mint
    ∷ create_ata_ix solana params.trader params.trader (derive_yes_mint_pda solana params.market)
    ∷ create_ata_ix solana params.trader params.trader (derive_no_mint_pda solana params.market)
    ∷ create_ata_ix solana params.trader params.treasury params.usdc_mint
    ∷ []

unfoldable pub build_buy_no_tx : Solana → BuildBuyNoParams → Result TxError BuildBuyNoResult
build_buy_no_tx solana params =
    let amount = pos_part params.amount in
    let plan = plan_of params.book ask 0 amount true in
    let prelude = buy_no_prelude solana params in
    do
      throw_if (not (is_positive params.amount)) amount_not_positive
      throw_if (ltb plan.total_filled amount) (ioc amount plan.total_filled)
      mint_pair_ix ← call_anchor_method solana mint_pair_method (
          mint_pair amount (
            mint_pair_accounts solana params.trader params.market params.usdc_mint params.treasury))
      place_order_ix ← call_anchor_method solana place_order_method (
          place_order ask 0 amount true
            (place_order_accounts solana params.trader params.market params.usdc_mint)
            (payout_accounts solana (derive_yes_mint_pda solana params.market) plan.fills))
      ok (record {
        tx = prelude ++ (mint_pair_ix ∷ place_order_ix ∷ []);
        prelude = prelude;
        mint_pair_ix = mint_pair_ix;
        place_order_ix = place_order_ix;
        planned_filled = plan.total_filled;
      })
