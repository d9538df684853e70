-- ===== src/Trade/PlaceOrder.antt =====
-- apps/web/src/lib/tx/build-place-order.ts and build-buy-yes.ts: an order on the YES book.
use bell_markets.Prelude.{ℕ, Bool, not, List, [], ◌∷◌, ◌++◌, if◌then◌else◌, Option, some, none}
use bell_markets.Prelude.Int.{ℤ, pos_part, is_positive}
use bell_markets.Prelude.Result.{Result, ok, ◌>>=◌, ◌>>◌, throw_if}
use bell_markets.Bytes.{Bytes}
use bell_markets.OrderBook.{
  Side, bid, ask, PlannedFill, PlanFillsResult, OrderBookAccount, plan_fills,
  max_fills_per_place_order,
}
use bell_markets.Solana.{
  Solana, place_order_method, derive_yes_mint_pda, derive_market_config_pda, derive_order_book_pda,
  derive_usdc_escrow_pda, derive_yes_escrow_pda,
}
use bell_markets.Trade.{
  Instruction, place_order, TxError, amount_not_positive, call_anchor_method, place_order_accounts,
  payout_accounts, create_ata_ix,
}

-- `book ? planFills(book, side, price, size, isMarket) : { fills: [], totalFilled: 0n, remaining: size }`
unfoldable pub plan_of : Option OrderBookAccount → Side → ℕ → ℕ → Bool → PlanFillsResult
plan_of none side price size is_market = record { fills = []; total_filled = 0; remaining = size }
plan_of (some book) side price size is_market =
    plan_fills book side price size is_market max_fills_per_place_order

pub record BuildPlaceOrderParams : Type 0 where
  pub trader : Bytes
  pub market : Bytes
  pub usdc_mint : Bytes
  pub side : Side
  pub price : ℕ
  pub size : ℤ
  pub is_market : Bool
  pub planned_fills : List PlannedFill

pub record PlaceOrderPdas : Type 0 where
  pub config : Bytes
  pub order_book : Bytes
  pub yes_mint : Bytes
  pub usdc_escrow : Bytes
  pub yes_escrow : Bytes

pub record BuildPlaceOrderResult : Type 0 where
  pub tx : List Instruction
  pub prelude : List Instruction
  pub ix : Instruction
  pub pdas : PlaceOrderPdas

-- `side === SIDE_BID ? usdcMint : yesMint`
abbrev pub maker_payout_mint : Solana → Side → Bytes → Bytes → Bytes
maker_payout_mint solana bid market usdc_mint = usdc_mint
maker_payout_mint solana ask market usdc_mint = derive_yes_mint_pda solana market

abbrev pub place_order_prelude : Solana → Bytes → Bytes → Bytes → List Instruction
place_order_prelude solana trader market usdc_mint =
    create_ata_ix solana trader trader usdc_mint
    ∷ create_ata_ix solana trader trader (derive_yes_mint_pda solana market)
    ∷ []

unfoldable pub build_place_order_tx :
    Solana → BuildPlaceOrderParams → Result TxError BuildPlaceOrderResult
build_place_order_tx solana params =
    let prelude = place_order_prelude solana params.trader params.market params.usdc_mint in
    let mint = maker_payout_mint solana params.side params.market params.usdc_mint in
    do
      throw_if (not (is_positive params.size)) amount_not_positive
      ix ← call_anchor_method solana place_order_method (
          place_order params.side params.price (pos_part params.size) params.is_market
            (place_order_accounts solana params.trader params.market params.usdc_mint)
            (payout_accounts solana mint params.planned_fills))
      ok (record {
        tx = prelude ++ (ix ∷ []);
        prelude = prelude;
        ix = ix;
        pdas = record {
          config = derive_market_config_pda solana;
          order_book = derive_order_book_pda solana params.market;
          yes_mint = derive_yes_mint_pda solana params.market;
          usdc_escrow = derive_usdc_escrow_pda solana params.market;
          yes_escrow = derive_yes_escrow_pda solana params.market;
        };
      })

pub record BuildBuyYesParams : Type 0 where
  pub trader : Bytes
  pub market : Bytes
  pub usdc_mint : Bytes
  pub book : Option OrderBookAccount
  pub size : ℤ
  pub price : ℕ
  pub is_market : Bool

pub record BuildBuyYesResult : Type 0 where
  pub built : BuildPlaceOrderResult
  pub planned_filled : ℕ
  pub planned_rest : ℕ

-- The plan of a size below zero fills nothing, as here; its result is thrown away by the guard of
-- `build_place_order_tx`.
unfoldable pub build_buy_yes_built : Solana → BuildBuyYesParams → Result TxError BuildBuyYesResult
build_buy_yes_built solana params =
    let plan = plan_of params.book bid params.price (pos_part params.size) params.is_market in
    do
      built ← build_place_order_tx solana (record {
        trader = params.trader;
        market = params.market;
        usdc_mint = params.usdc_mint;
        side = bid;
        price = params.price;
        size = params.size;
        is_market = params.is_market;
        planned_fills = plan.fills;
      })
      ok (record {
        built = built;
        planned_filled = plan.total_filled;
        planned_rest = if params.is_market then 0 else plan.remaining;
      })
