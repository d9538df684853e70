-- ===== src/Trade/Pairs.antt =====
-- apps/web/src/lib/tx/build-mint-pair.ts and build-redeem-pair.ts: minting and redeeming pairs alone.
use bell_markets.Prelude.{ℕ, not, List, [], ◌∷◌, ◌++◌}
use bell_markets.Prelude.Int.{ℤ, pos_part, is_positive}
use bell_markets.Prelude.Result.{Result, ok, ◌>>=◌, ◌>>◌, throw_if}
use bell_markets.Bytes.{Bytes}
use bell_markets.Solana.{
  Solana, mint_pair_method, redeem_pair_method, derive_yes_mint_pda, derive_no_mint_pda,
  derive_market_config_pda, derive_fee_config_pda, derive_user_config_pda, derive_weekly_pool_pda,
  derive_monthly_pool_pda, derive_usdc_vault_pda,
}
use bell_markets.Trade.{
  Instruction, mint_pair, redeem_pair, TxError, amount_not_positive, call_anchor_method,
  mint_pair_accounts, redeem_pair_accounts, create_ata_ix,
}

-- The amount is a u64 that is not tested.
pub record BuildMintPairParams : Type 0 where
  pub user : Bytes
  pub market : Bytes
  pub usdc_mint : Bytes
  pub treasury : Bytes
  pub amount : ℕ

pub record AtaKeys : Type 0 where
  pub user_usdc : Bytes
  pub user_yes : Bytes
  pub user_no : Bytes
  pub fee_collector_usdc : Bytes

pub record MintPairPdas : Type 0 where
  pub config : Bytes
  pub fee_config : Bytes
  pub user_config : Bytes
  pub weekly_pool : Bytes
  pub monthly_pool : Bytes
  pub yes_mint : Bytes
  pub no_mint : Bytes
  pub usdc_vault : Bytes

pub record BuildMintPairResult : Type 0 where
  pub tx : List Instruction
  pub prelude : List Instruction
  pub ix : Instruction
  pub ata_keys : AtaKeys
  pub pdas : MintPairPdas

unfoldable pub mint_pair_prelude : Solana → BuildMintPairParams → List Instruction
mint_pair_prelude solana params =
    create_ata_ix solana params.user params.user params.usdc_mint
    ∷ create_ata_ix solana params.user params.user (derive_yes_mint_pda solana params.market)
    ∷ create_ata_ix solana params.user params.user (derive_no_mint_pda solana params.market)
    ∷ create_ata_ix solana params.user params.treasury params.usdc_mint
    ∷ []

unfoldable pub build_mint_pair_tx :
    Solana → BuildMintPairParams → Result TxError BuildMintPairResult
build_mint_pair_tx solana params =
    let prelude = mint_pair_prelude solana params in
    let config = derive_market_config_pda solana in
    do
      ix ← call_anchor_method solana mint_pair_method (
          mint_pair params.amount
            (mint_pair_accounts solana params.user params.market params.usdc_mint params.treasury))
      ok (record {
        tx = prelude ++ (ix ∷ []);
        prelude = prelude;
        ix = ix;
        ata_keys = record {
          user_usdc = solana.ata params.usdc_mint params.user;
          user_yes = solana.ata (derive_yes_mint_pda solana params.market) params.user;
          user_no = solana.ata (derive_no_mint_pda solana params.market) params.user;
          fee_collector_usdc = solana.ata params.usdc_mint params.treasury;
        };
        pdas = record {
          config = config;
          fee_config = derive_fee_config_pda solana;
          user_config = derive_user_config_pda solana config params.user;
          weekly_pool = derive_weekly_pool_pda solana;
          monthly_pool = derive_monthly_pool_pda solana;
          yes_mint = derive_yes_mint_pda solana params.market;
          no_mint = derive_no_mint_pda solana params.market;
          usdc_vault = derive_usdc_vault_pda solana params.market;
        };
      })

pub record BuildRedeemPairParams : Type 0 where
  pub trader : Bytes
  pub market : Bytes
  pub usdc_mint : Bytes
  pub amount : ℤ

pub record BuildRedeemPairResult : Type 0 where
  pub tx : List Instruction
  pub prelude : List Instruction
  pub ix : Instruction

unfoldable pub build_redeem_pair_tx :
    Solana → BuildRedeemPairParams → Result TxError BuildRedeemPairResult
build_redeem_pair_tx solana params =
    let prelude = create_ata_ix solana params.trader params.trader params.usdc_mint ∷ [] in
    do
      throw_if (not (is_positive params.amount)) amount_not_positive
      ix ← call_anchor_method solana redeem_pair_method (
          redeem_pair (pos_part params.amount)
            (redeem_pair_accounts solana params.trader params.market params.usdc_mint))
      ok (record { tx = prelude ++ (ix ∷ []); prelude = prelude; ix = ix })
