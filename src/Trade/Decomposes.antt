-- ===== src/Trade/Decomposes.antt =====
-- The atomic NO purchase is the minting of pairs on its own and one order behind it.
use bell_markets.Prelude.{◌≡◌, refl, subst, ap, sym, true, not, [], ◌∷◌, ◌++◌, ltb}
use bell_markets.Prelude.Int.{pos_part, is_positive}
use bell_markets.Prelude.Result.{ok, throw_if, ok_injective, >>=-eq-ok}
use bell_markets.OrderBook.{ask, PlanFillsResult}
use bell_markets.Solana.{Solana, mint_pair_method, place_order_method, derive_yes_mint_pda}
use bell_markets.Trade.{
  Instruction, mint_pair, place_order, ioc, amount_not_positive, call_anchor_method,
  mint_pair_accounts, place_order_accounts, payout_accounts,
}
use bell_markets.Trade.PlaceOrder.{plan_of}
use bell_markets.Trade.BuyNo.{BuildBuyNoParams, BuildBuyNoResult, build_buy_no_tx, buy_no_prelude}
use bell_markets.Trade.Pairs.{
  BuildMintPairParams, BuildMintPairResult, build_mint_pair_tx, mint_pair_prelude,
}

-- The minting alone of the pairs that a NO purchase mints.
abbrev pub minting : BuildBuyNoParams → BuildMintPairParams
minting params = record {
  user = params.trader;
  market = params.market;
  usdc_mint = params.usdc_mint;
  treasury = params.treasury;
  amount = pos_part params.amount;
}

-- The pairs minted alone, and the order that the purchase adds.
pub record IsMintThenOrder (solana : Solana) (params : BuildBuyNoParams) (result : BuildBuyNoResult)
    : Type 0 where
  pub minted : BuildMintPairResult
  pub built : build_mint_pair_tx solana (minting params) ≡ ok minted
  pub follows : result.tx ≡ minted.tx ++ (result.place_order_ix ∷ [])

build_mint_pair_tx-tx :
    (solana : Solana) (params : BuildMintPairParams) {ix : Instruction}
    → call_anchor_method solana mint_pair_method (
        mint_pair params.amount
          (mint_pair_accounts solana params.user params.market params.usdc_mint params.treasury))
      ≡ ok ix
    → (result : BuildMintPairResult) × (build_mint_pair_tx solana params ≡ ok result)
      × (result.tx ≡ mint_pair_prelude solana params ++ (ix ∷ []))
unfolding build_mint_pair_tx
build_mint_pair_tx-tx solana params minted = rw minted (_, refl, refl)

-- Whenever `build_buy_no_tx` returns, `build_mint_pair_tx` returns for the same amount and accounts, and
-- the purchase is its transaction with the order behind it.
pub build_buy_no_tx-IsMintThenOrder :
    (solana : Solana) (params : BuildBuyNoParams) {result : BuildBuyNoResult}
    → build_buy_no_tx solana params ≡ ok result
    → IsMintThenOrder solana params result
unfolding build_buy_no_tx buy_no_prelude mint_pair_prelude
build_buy_no_tx-IsMintThenOrder solana params e =
    let plan : PlanFillsResult = plan_of params.book ask 0 (pos_part params.amount) true in
    let mint_ix : Instruction =
      mint_pair (pos_part params.amount)
        (mint_pair_accounts solana params.trader params.market params.usdc_mint params.treasury) in
    let place_ix : Instruction =
      place_order ask 0 (pos_part params.amount) true
        (place_order_accounts solana params.trader params.market params.usdc_mint)
        (payout_accounts solana (derive_yes_mint_pda solana params.market) plan.fills) in
    let (_, positive, e1) =
      >>=-eq-ok (throw_if (not (is_positive params.amount)) amount_not_positive) _ e in
    let (_, enough, e2) =
      >>=-eq-ok
        (throw_if (ltb plan.total_filled (pos_part params.amount))
          (ioc (pos_part params.amount) plan.total_filled))
        _ e1 in
    let (mint, minted, e3) = >>=-eq-ok (call_anchor_method solana mint_pair_method mint_ix) _ e2 in
    let (place, placed, e4) =
      >>=-eq-ok (call_anchor_method solana place_order_method place_ix) _ e3 in
    let same = ok_injective _ e4 refl in
    let (alone, built, legs) = build_mint_pair_tx-tx solana (minting params) minted in
    subst (IsMintThenOrder solana params) same
      (record { minted = alone; built = built; follows = sym (ap (λ tx. tx ++ (place ∷ [])) legs) })
