-- ===== src/Trade.antt =====
-- apps/web/src/lib/tx: the instructions of a trade and the errors of the builders. The builders
-- themselves are in the children. An amount is an integer, since the code tests its sign; prices and
-- sizes of instructions are u64 values, as natural numbers.
pub mod PlaceOrder
pub mod BuyNo
pub mod SellNo
pub mod Coverage
pub mod Legs
pub mod Accepts
pub mod Resting
pub mod Pairs
pub mod Decomposes
use bell_markets.Prelude.{ℕ, Bool, true, false, ◌&&◌, List, [], ◌∷◌, if◌then◌else◌, map}
use bell_markets.Prelude.Result.{Result, ok, throw}
use bell_markets.Bytes.{Bytes}
use bell_markets.OrderBook.{Side, PlannedFill}
use bell_markets.Solana.{
  Solana, Method, derive_market_config_pda, derive_weekly_pool_pda, derive_monthly_pool_pda,
  derive_fee_config_pda, derive_yes_mint_pda, derive_no_mint_pda, derive_usdc_vault_pda,
  derive_order_book_pda, derive_usdc_escrow_pda, derive_yes_escrow_pda, derive_user_config_pda,
}

pub record PlaceOrderAccounts : Type 0 where
  pub user : Bytes
  pub config : Bytes
  pub strike_market : Bytes
  pub order_book : Bytes
  pub yes_mint : Bytes
  pub usdc_mint : Bytes
  pub user_yes : Bytes
  pub user_usdc : Bytes
  pub usdc_escrow : Bytes
  pub yes_escrow : Bytes
  pub token_program : Bytes

pub record RedeemPairAccounts : Type 0 where
  pub user : Bytes
  pub config : Bytes
  pub strike_market : Bytes
  pub yes_mint : Bytes
  pub no_mint : Bytes
  pub user_yes : Bytes
  pub user_no : Bytes
  pub usdc_vault : Bytes
  pub user_usdc : Bytes
  pub usdc_mint : Bytes
  pub token_program : Bytes

pub record MintPairAccounts : Type 0 where
  pub user : Bytes
  pub config : Bytes
  pub fee_config : Bytes
  pub user_config : Bytes
  pub strike_market : Bytes
  pub user_usdc : Bytes
  pub usdc_vault : Bytes
  pub yes_mint : Bytes
  pub no_mint : Bytes
  pub user_yes : Bytes
  pub user_no : Bytes
  pub fee_collector_usdc : Bytes
  pub weekly_pool : Bytes
  pub monthly_pool : Bytes
  pub usdc_mint : Bytes
  pub clock : Bytes
  pub system_program : Bytes
  pub token_program : Bytes

-- The remaining accounts of `place_order` are writable and sign nothing: only their keys vary.
pub data Instruction : Type 0 where
  create_ata : (payer ata owner mint : Bytes) → Instruction
  mint_pair : ℕ → MintPairAccounts → Instruction
  place_order :
      (side : Side) (price size : ℕ) (is_market : Bool)
      → PlaceOrderAccounts
      → List Bytes
      → Instruction
  redeem_pair : ℕ → RedeemPairAccounts → Instruction

pub data TxError : Type 0 where
  amount_not_positive : TxError
  ioc : (required available : ℕ) → TxError
  missing_method : Method → TxError
  encoding_failed : TxError

-- Whether every u64 argument of the instruction can be encoded.
abbrev pub encodes : Solana → Instruction → Bool
encodes solana (create_ata payer ata owner mint) = true
encodes solana (mint_pair amount accounts) = solana.encodes_u64 amount
encodes solana (place_order side price size is_market accounts remaining) =
    solana.encodes_u64 price && solana.encodes_u64 size
encodes solana (redeem_pair amount accounts) = solana.encodes_u64 amount

-- A method of the IDL, or the error that it is missing; then `instruction()`, which throws when an
-- argument cannot be encoded.
unfoldable pub call_anchor_method : Solana → Method → Instruction → Result TxError Instruction
call_anchor_method solana method ix =
    if solana.has_method method
    then (if encodes solana ix then ok ix else throw encoding_failed)
    else throw (missing_method method)

-- The accounts that `place_order` is called with, the same in every builder.
unfoldable pub place_order_accounts : Solana → Bytes → Bytes → Bytes → PlaceOrderAccounts
place_order_accounts solana trader market usdc_mint = record {
  user = trader;
  config = derive_market_config_pda solana;
  strike_market = market;
  order_book = derive_order_book_pda solana market;
  yes_mint = derive_yes_mint_pda solana market;
  usdc_mint = usdc_mint;
  user_yes = solana.ata (derive_yes_mint_pda solana market) trader;
  user_usdc = solana.ata usdc_mint trader;
  usdc_escrow = derive_usdc_escrow_pda solana market;
  yes_escrow = derive_yes_escrow_pda solana market;
  token_program = solana.token_program;
}

unfoldable pub redeem_pair_accounts : Solana → Bytes → Bytes → Bytes → RedeemPairAccounts
redeem_pair_accounts solana trader market usdc_mint = record {
  user = trader;
  config = derive_market_config_pda solana;
  strike_market = market;
  yes_mint = derive_yes_mint_pda solana market;
  no_mint = derive_no_mint_pda solana market;
  user_yes = solana.ata (derive_yes_mint_pda solana market) trader;
  user_no = solana.ata (derive_no_mint_pda solana market) trader;
  usdc_vault = derive_usdc_vault_pda solana market;
  user_usdc = solana.ata usdc_mint trader;
  usdc_mint = usdc_mint;
  token_program = solana.token_program;
}

unfoldable pub mint_pair_accounts : Solana → Bytes → Bytes → Bytes → Bytes → MintPairAccounts
mint_pair_accounts solana trader market usdc_mint treasury = record {
  user = trader;
  config = derive_market_config_pda solana;
  fee_config = derive_fee_config_pda solana;
  user_config = derive_user_config_pda solana (derive_market_config_pda solana) trader;
  strike_market = market;
  user_usdc = solana.ata usdc_mint trader;
  usdc_vault = derive_usdc_vault_pda solana market;
  yes_mint = derive_yes_mint_pda solana market;
  no_mint = derive_no_mint_pda solana market;
  user_yes = solana.ata (derive_yes_mint_pda solana market) trader;
  user_no = solana.ata (derive_no_mint_pda solana market) trader;
  fee_collector_usdc = solana.ata usdc_mint treasury;
  weekly_pool = derive_weekly_pool_pda solana;
  monthly_pool = derive_monthly_pool_pda solana;
  usdc_mint = usdc_mint;
  clock = solana.clock_sysvar;
  system_program = solana.system_program;
  token_program = solana.token_program;
}

-- The accounts that the makers are paid on: theirs of the mint, in fill order.
unfoldable pub payout_accounts : Solana → Bytes → List PlannedFill → List Bytes
payout_accounts solana mint fills = map (λ fill. solana.ata mint fill.maker_owner) fills

-- `createAssociatedTokenAccountIdempotentInstruction(payer, ata(mint, owner), owner, mint)`
unfoldable pub create_ata_ix : Solana → Bytes → Bytes → Bytes → Instruction
create_ata_ix solana payer owner mint = create_ata payer (solana.ata mint owner) owner mint
