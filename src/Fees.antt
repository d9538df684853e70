-- ===== src/Fees.antt =====
-- apps/web/src/lib/fees.ts: the fee that a mint is projected to pay. Amounts and volumes are u64
-- values in USDC micros; the basis points of the configuration are unsigned too, but a rebate above
-- 100% makes the remainder negative, so what follows it is an integer.
pub mod Bounds
use bell_markets.Prelude.{ℕ, ◌+◌, ◌*◌, Bool, true, false, not, leb, ◌==◌, if◌then◌else◌}
use bell_markets.Prelude.Int.{ℤ, pos, sub_to_ℤ, scale, shift, floor_div, trunc_div}

abbrev pub fee_bps_denominator : ℕ
fee_bps_denominator = 10000

-- `TIER_THRESHOLDS_MICROS`
abbrev pub tier2_threshold_micros : ℕ
tier2_threshold_micros = 1000 * 1000000

abbrev pub tier3_threshold_micros : ℕ
tier3_threshold_micros = 10000 * 1000000

pub data FeeTier : Type 0 where
  tier1 tier2 tier3 : FeeTier

unfoldable pub tier_for_volume : ℕ → FeeTier
tier_for_volume volume =
    if leb tier3_threshold_micros volume
    then tier3
    else if leb tier2_threshold_micros volume
    then tier2
    else tier1

unfoldable pub fee_bps_for_tier : FeeTier → ℕ
fee_bps_for_tier tier3 = 100
fee_bps_for_tier tier2 = 150
fee_bps_for_tier tier1 = 200

pub record ProjectMintFeeParams : Type 0 where
  pub amount_micros : ℕ
  pub config_mint_fee_bps : ℕ
  pub user_mint_volume_30d_micros : ℕ
  pub creator_rebate_applies : Bool
  pub config_creator_rebate_bps : ℕ

pub record ProjectedMintFee : Type 0 where
  pub tier : FeeTier
  pub tier_fee_bps : ℕ
  pub effective_fee_bps : ℤ
  pub fee_micros : ℤ
  pub total_cost_micros : ℤ
  pub counts_toward_volume : Bool

-- `bnMulDiv`: its divisor is never zero here.
abbrev pub bn_mul_div : ℕ → ℤ → ℕ → ℤ
bn_mul_div a b c = trunc_div (scale a b) c

-- `Math.floor((tierFeeBps * (FEE_BPS_DENOMINATOR - rebateBps)) / FEE_BPS_DENOMINATOR)`
abbrev pub effective_bps : ℕ → Bool → ℕ → ℤ
effective_bps tier_fee_bps rebate_applies config_rebate_bps =
    let rebate_bps = if rebate_applies then config_rebate_bps else 0 in
    floor_div (scale tier_fee_bps (sub_to_ℤ fee_bps_denominator rebate_bps)) fee_bps_denominator

unfoldable pub project_mint_fee : ProjectMintFeeParams → ProjectedMintFee
project_mint_fee params =
    let tier = tier_for_volume params.user_mint_volume_30d_micros in
    let tier_fee_bps = fee_bps_for_tier tier in
    let effective_fee_bps =
      effective_bps tier_fee_bps params.creator_rebate_applies params.config_creator_rebate_bps in
    let fee_micros = bn_mul_div params.amount_micros effective_fee_bps fee_bps_denominator in
    if params.config_mint_fee_bps == 0
    then record {
      tier = tier;
      tier_fee_bps = tier_fee_bps;
      effective_fee_bps = pos 0;
      fee_micros = pos 0;
      total_cost_micros = pos params.amount_micros;
      counts_toward_volume = true;
    }
    else record {
      tier = tier;
      tier_fee_bps = tier_fee_bps;
      effective_fee_bps = effective_fee_bps;
      fee_micros = fee_micros;
      total_cost_micros = shift params.amount_micros fee_micros;
      counts_toward_volume = not params.creator_rebate_applies;
    }
