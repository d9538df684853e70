-- ===== src/Tests/Trades.antt =====
-- A book with two bids and one ask, and trades against it. The address functions are replaced by
-- ones that join their arguments.
use bell_markets.Prelude.{
  ℕ, ltb, ◌^◌, ◌<◌, ◌≡◌, refl, arith, true, false, List, [], ◌∷◌, ◌++◌, some,
}
use bell_markets.Prelude.Int.{pos}
use bell_markets.Prelude.Result.{ok, throw}
use bell_markets.Bytes.{Bytes}
use bell_markets.OrderBook.{bid, ask, OrderBookAccount, plan_from, plan_fills, may_fill, makers_of}
use bell_markets.OrderBook.Best.{IsPlan, plan_fills-IsPlan}
use bell_markets.Solana.{Solana}
use bell_markets.Trade.{ioc}
use bell_markets.Trade.Resting.{IsBuyYes, build_buy_yes_built-IsBuyYes}
use bell_markets.Trade.{call_anchor_method}
use bell_markets.Trade.PlaceOrder.{
  plan_of, BuildBuyYesParams, BuildBuyYesResult, build_buy_yes_built, build_place_order_tx,
}
use bell_markets.Trade.BuyNo.{BuildBuyNoParams, BuildBuyNoResult, build_buy_no_tx}
use bell_markets.Trade.SellNo.{BuildSellNoParams, BuildSellNoResult, build_sell_no_tx}
use bell_markets.Trade.Decomposes.{IsMintThenOrder, build_buy_no_tx-IsMintThenOrder}
use bell_markets.Trade.Legs.{IsBuyNo, IsSellNo, build_buy_no_tx-IsBuyNo, build_sell_no_tx-IsSellNo}
use bell_markets.Trade.Accepts.{
  build_buy_no_tx-refuses, build_buy_no_tx-accepts, build_sell_no_tx-refuses,
  build_sell_no_tx-accepts,
}

abbrev joined : List Bytes → Bytes
joined [] = []
joined (seed ∷ seeds) = seed ++ joined seeds

abbrev test_solana : Solana
test_solana = record {
  find_program_address = λ seeds program. joined seeds ++ program;
  ata = λ mint owner. mint ++ owner;
  bell_markets_program = 7 ∷ [];
  clock_sysvar = 8 ∷ [];
  system_program = 9 ∷ [];
  token_program = 10 ∷ [];
  has_method = λ method. true;
  encodes_u64 = λ n. ltb n 18446744073709551616;
}

test_codec : (n : ℕ) → n < 2 ^ 64 → test_solana.encodes_u64 n ≡ true
test_codec n fits = ground arith

abbrev test_book : OrderBookAccount
test_book = record {
  market = 1 ∷ [];
  next_seq = 4;
  bids =
      record { owner = 21 ∷ []; price = 60; size = 5; seq = 1; side = bid }
      ∷ record { owner = 22 ∷ []; price = 55; size = 9; seq = 2; side = bid }
      ∷ [];
  asks = record { owner = 23 ∷ []; price = 70; size = 6; seq = 3; side = ask } ∷ [];
  bump = 255;
}

plan_fills-IsPlan_example :
    IsPlan
      (makers_of test_book ask)
      (may_fill ask 56 false)
      8
      16
      (plan_fills test_book ask 56 8 false 16)
plan_fills-IsPlan_example = plan_fills-IsPlan test_book ask 56 8 false 16

-- The limit of 56 stops at the second bid: 5 of 8 are filled.
plan_fills_test : (plan_fills test_book ask 56 8 false 16).total_filled ≡ 5
unfolding plan_fills plan_from may_fill makers_of
plan_fills_test = refl

abbrev test_buy : ℕ → BuildBuyNoParams
test_buy amount = record {
  trader = 2 ∷ [];
  market = 1 ∷ [];
  usdc_mint = 3 ∷ [];
  treasury = 4 ∷ [];
  book = some test_book;
  amount = pos amount;
}

abbrev test_sell : ℕ → BuildSellNoParams
test_sell amount = record {
  trader = 2 ∷ [];
  market = 1 ∷ [];
  usdc_mint = 3 ∷ [];
  book = some test_book;
  amount = pos amount;
}

abbrev bought : (result : BuildBuyNoResult) × (build_buy_no_tx test_solana (test_buy 8) ≡ ok result)
unfolding makers_of
bought =
    build_buy_no_tx-accepts test_solana (test_buy 8) 8 refl (omega arith) (omega arith)
      (omega arith) test_codec refl refl

abbrev sold :
    (result : BuildSellNoResult) × (build_sell_no_tx test_solana (test_sell 6) ≡ ok result)
unfolding makers_of
sold =
    build_sell_no_tx-accepts test_solana (test_sell 6) 6 refl (omega arith) (omega arith)
      (omega arith) test_codec refl refl

build_buy_no_tx-IsBuyNo_example : IsBuyNo test_solana (test_buy 8) bought.0
build_buy_no_tx-IsBuyNo_example = build_buy_no_tx-IsBuyNo test_solana (test_buy 8) bought.1

build_sell_no_tx-IsSellNo_example : IsSellNo test_solana (test_sell 6) sold.0
build_sell_no_tx-IsSellNo_example = build_sell_no_tx-IsSellNo test_solana (test_sell 6) sold.1

build_buy_no_tx-accepts_example :
    (result : BuildBuyNoResult) × (build_buy_no_tx test_solana (test_buy 14) ≡ ok result)
unfolding makers_of
build_buy_no_tx-accepts_example =
    build_buy_no_tx-accepts test_solana (test_buy 14) 14 refl (omega arith) (omega arith)
      (omega arith) test_codec refl refl

build_sell_no_tx-accepts_example :
    (result : BuildSellNoResult) × (build_sell_no_tx test_solana (test_sell 5) ≡ ok result)
unfolding makers_of
build_sell_no_tx-accepts_example =
    build_sell_no_tx-accepts test_solana (test_sell 5) 5 refl (omega arith) (omega arith)
      (omega arith) test_codec refl refl

build_buy_no_tx-refuses_example : build_buy_no_tx test_solana (test_buy 15) ≡ throw (ioc 15 14)
unfolding makers_of
build_buy_no_tx-refuses_example =
    build_buy_no_tx-refuses test_solana (test_buy 15) 15 refl (omega arith)

build_sell_no_tx-refuses_example : build_sell_no_tx test_solana (test_sell 7) ≡ throw (ioc 7 6)
unfolding makers_of
build_sell_no_tx-refuses_example =
    build_sell_no_tx-refuses test_solana (test_sell 7) 7 refl (omega arith)

abbrev test_bid : BuildBuyYesParams
test_bid = record {
  trader = 2 ∷ [];
  market = 1 ∷ [];
  usdc_mint = 3 ∷ [];
  book = some test_book;
  size = pos 8;
  price = 75;
  is_market = false;
}

-- Six of eight are filled by the ask at 70, and two rest.
abbrev bid_placed :
    (result : BuildBuyYesResult) × (build_buy_yes_built test_solana test_bid ≡ ok result)
    × (result.planned_rest ≡ 2)
unfolding build_buy_yes_built build_place_order_tx call_anchor_method plan_of plan_fills plan_from
    may_fill makers_of
bid_placed = (_, refl, refl)

build_buy_yes_built-IsBuyYes_example : IsBuyYes test_solana test_bid bid_placed.0
build_buy_yes_built-IsBuyYes_example =
    build_buy_yes_built-IsBuyYes test_solana test_bid bid_placed.1

build_buy_no_tx-IsMintThenOrder_example : IsMintThenOrder test_solana (test_buy 8) bought.0
build_buy_no_tx-IsMintThenOrder_example =
    build_buy_no_tx-IsMintThenOrder test_solana (test_buy 8) bought.1
