-- ===== src/Solana.antt =====
-- apps/web/src/lib/solana/pdas.ts and anchor.ts: the program addresses of the market's accounts. The
-- address functions of @solana/web3.js and @solana/spl-token, the ids of the system's programs and
-- the methods of the loaded IDL are the fields of `Solana`, which every builder takes.
use bell_markets.Prelude.{ℕ, Bool, List, [], ◌∷◌}
use bell_markets.Bytes.{Bytes}

-- The methods of the program that the builders call by name.
pub data Method : Type 0 where
  mint_pair_method place_order_method redeem_pair_method : Method

-- `PublicKey.findProgramAddressSync(seeds, program)(0 ∷ [])`, `getAssociatedTokenAddressSync(mint, owner,
-- true)`, the program ids, whether `program.methods` has a method, and whether its `instruction()` can
-- encode a number as a u64.
pub record Solana : Type 0 where
  pub find_program_address : List Bytes → Bytes → Bytes
  pub ata : Bytes → Bytes → Bytes
  pub bell_markets_program : Bytes
  pub clock_sysvar : Bytes
  pub system_program : Bytes
  pub token_program : Bytes
  pub has_method : Method → Bool
  pub encodes_u64 : ℕ → Bool

-- `deriveMarketConfigPda`: the seed is `config`.
unfoldable pub derive_market_config_pda : Solana → Bytes
derive_market_config_pda solana =
    solana.find_program_address ((99 ∷ 111 ∷ 110 ∷ 102 ∷ 105 ∷ 103 ∷ []) ∷ [])
      solana.bell_markets_program

-- `deriveWeeklyPoolPda`: the seed is `weekly_pool`.
unfoldable pub derive_weekly_pool_pda : Solana → Bytes
derive_weekly_pool_pda solana =
    solana.find_program_address
      ((119 ∷ 101 ∷ 101 ∷ 107 ∷ 108 ∷ 121 ∷ 95 ∷ 112 ∷ 111 ∷ 111 ∷ 108 ∷ []) ∷ [])
      solana.bell_markets_program

-- `deriveMonthlyPoolPda`: the seed is `monthly_pool`.
unfoldable pub derive_monthly_pool_pda : Solana → Bytes
derive_monthly_pool_pda solana =
    solana.find_program_address
      ((109 ∷ 111 ∷ 110 ∷ 116 ∷ 104 ∷ 108 ∷ 121 ∷ 95 ∷ 112 ∷ 111 ∷ 111 ∷ 108 ∷ []) ∷ [])
      solana.bell_markets_program

-- `deriveFeeConfigPda`: the seed is `fee_config`.
unfoldable pub derive_fee_config_pda : Solana → Bytes
derive_fee_config_pda solana =
    solana.find_program_address
      ((102 ∷ 101 ∷ 101 ∷ 95 ∷ 99 ∷ 111 ∷ 110 ∷ 102 ∷ 105 ∷ 103 ∷ []) ∷ [])
      solana.bell_markets_program

-- `deriveYesMintPda`: the seeds are `yes` and the market.
unfoldable pub derive_yes_mint_pda : Solana → Bytes → Bytes
derive_yes_mint_pda solana market =
    solana.find_program_address ((121 ∷ 101 ∷ 115 ∷ []) ∷ market ∷ []) solana.bell_markets_program

-- `deriveNoMintPda`: the seeds are `no` and the market.
unfoldable pub derive_no_mint_pda : Solana → Bytes → Bytes
derive_no_mint_pda solana market =
    solana.find_program_address ((110 ∷ 111 ∷ []) ∷ market ∷ []) solana.bell_markets_program

-- `deriveUsdcVaultPda`: the seeds are `vault` and the market.
unfoldable pub derive_usdc_vault_pda : Solana → Bytes → Bytes
derive_usdc_vault_pda solana market =
    solana.find_program_address ((118 ∷ 97 ∷ 117 ∷ 108 ∷ 116 ∷ []) ∷ market ∷ [])
      solana.bell_markets_program

-- `deriveOrderBookPda`: the seeds are `order_book` and the market.
unfoldable pub derive_order_book_pda : Solana → Bytes → Bytes
derive_order_book_pda solana market =
    solana.find_program_address
      ((111 ∷ 114 ∷ 100 ∷ 101 ∷ 114 ∷ 95 ∷ 98 ∷ 111 ∷ 111 ∷ 107 ∷ []) ∷ market ∷ [])
      solana.bell_markets_program

-- `deriveUsdcEscrowPda`: the seeds are `usdc_escrow` and the market.
unfoldable pub derive_usdc_escrow_pda : Solana → Bytes → Bytes
derive_usdc_escrow_pda solana market =
    solana.find_program_address
      ((117 ∷ 115 ∷ 100 ∷ 99 ∷ 95 ∷ 101 ∷ 115 ∷ 99 ∷ 114 ∷ 111 ∷ 119 ∷ []) ∷ market ∷ [])
      solana.bell_markets_program

-- `deriveYesEscrowPda`: the seeds are `yes_escrow` and the market.
unfoldable pub derive_yes_escrow_pda : Solana → Bytes → Bytes
derive_yes_escrow_pda solana market =
    solana.find_program_address
      ((121 ∷ 101 ∷ 115 ∷ 95 ∷ 101 ∷ 115 ∷ 99 ∷ 114 ∷ 111 ∷ 119 ∷ []) ∷ market ∷ [])
      solana.bell_markets_program

-- `deriveUserConfigPda`: the seeds are `user`, the config and the user.
unfoldable pub derive_user_config_pda : Solana → Bytes → Bytes → Bytes
derive_user_config_pda solana config user =
    solana.find_program_address ((117 ∷ 115 ∷ 101 ∷ 114 ∷ []) ∷ config ∷ user ∷ [])
      solana.bell_markets_program
