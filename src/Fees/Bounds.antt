-- ===== src/Fees/Bounds.antt =====
-- What a projected fee is: its bounds, and how it moves with the volume.
use bell_markets.Prelude.{
  ℕ, ◌+◌, ◌-◌, ◌*◌, ◌/◌, ◌≤◌, ◌≡◌, refl, ap, inl, inr, Bool, true, false, leb, ◌==◌, if◌then◌else◌,
  Bool-cases, arith,
}
use bell_markets.Prelude.Int.{pos, pos_part}
use bell_markets.Fees.{
  tier_for_volume, fee_bps_for_tier, ProjectMintFeeParams, project_mint_fee, effective_bps,
}

-- The share of a tier's basis points that a rebate leaves.
abbrev pub discounted : ℕ → ℕ → ℕ
discounted tier_fee_bps rebate_bps = tier_fee_bps * (10000 - rebate_bps) / 10000

abbrev pub rebate_of : ProjectMintFeeParams → ℕ
rebate_of params = if params.creator_rebate_applies then params.config_creator_rebate_bps else 0

pub effective_bps-discounted :
    (bps rebate : ℕ) (applies : Bool)
    → rebate ≤ 10000
    → effective_bps bps applies rebate ≡ pos (discounted bps (if applies then rebate else 0))
effective_bps-discounted bps rebate true small =
    let e : leb rebate 10000 ≡ true = ground arith in rw e
effective_bps-discounted bps rebate false small = refl

-- The fee in micros that a mint pays when fees are enabled.
abbrev pub fee_of : ProjectMintFeeParams → ℕ
fee_of params =
    params.amount_micros
    * discounted (fee_bps_for_tier (tier_for_volume params.user_mint_volume_30d_micros))
        (rebate_of params)
    / 10000

pub project_mint_fee-enabled :
    (params : ProjectMintFeeParams)
    → (params.config_mint_fee_bps == 0) ≡ false
    → params.config_creator_rebate_bps ≤ 10000
    → ((project_mint_fee params).fee_micros ≡ pos (fee_of params))
      × ((project_mint_fee params).total_cost_micros ≡ pos (params.amount_micros + fee_of params))
unfolding project_mint_fee
project_mint_fee-enabled params enabled small =
    let e =
      effective_bps-discounted
        (fee_bps_for_tier (tier_for_volume params.user_mint_volume_30d_micros))
        params.config_creator_rebate_bps params.creator_rebate_applies small in
    rw (enabled, e) (refl, refl)

times_le : (a : ℕ) {b c : ℕ} → b ≤ c → a * b ≤ a * c
times_le a {b = b} {c = c} h = grind arith

fee_bps_for_tier_bound : (volume : ℕ) → fee_bps_for_tier (tier_for_volume volume) ≤ 200
unfolding tier_for_volume fee_bps_for_tier
fee_bps_for_tier_bound volume = ground arith

fee_bps_for_tier_antitone :
    (v w : ℕ) → v ≤ w → fee_bps_for_tier (tier_for_volume w) ≤ fee_bps_for_tier (tier_for_volume v)
unfolding tier_for_volume fee_bps_for_tier
fee_bps_for_tier_antitone v w h = ground arith

discounted_le : (bps rebate : ℕ) → discounted bps rebate ≤ bps
discounted_le bps rebate =
    let h : bps * (10000 - rebate) ≤ bps * 10000 = times_le bps (omega arith) in omega arith

fee_at_nothing : (amount bps : ℕ) → amount * (bps * 0 / 10000) / 10000 ≡ 0
fee_at_nothing amount bps = let none : bps * 0 / 10000 ≡ 0 = omega arith in rw none (omega arith)

-- What the fee of a mint keeps to: at most a fiftieth of the amount, none at a full rebate, and the
-- cost is the amount and the fee.
pub record IsProjection (params : ProjectMintFeeParams) (fee : ℕ) : Type 0 where
  pub charged : (project_mint_fee params).fee_micros ≡ pos fee
  pub cost : (project_mint_fee params).total_cost_micros ≡ pos (params.amount_micros + fee)
  pub bounded : fee * 50 ≤ params.amount_micros
  pub rebated :
      params.creator_rebate_applies ≡ true → params.config_creator_rebate_bps ≡ 10000 → fee ≡ 0
  pub disabled : (params.config_mint_fee_bps == 0) ≡ true → fee ≡ 0

-- With a rebate of at most 100%, the projected fee is a natural number; the cost is the amount and
-- the fee; the fee is at most 2% of the amount; and it is zero when the rebate applies in full or
-- when fees are disabled.
pub project_mint_fee-IsProjection :
    (params : ProjectMintFeeParams)
    → params.config_creator_rebate_bps ≤ 10000
    → (fee : ℕ) × IsProjection params fee
unfolding project_mint_fee
project_mint_fee-IsProjection params small = elim (Bool-cases (params.config_mint_fee_bps == 0)) [
  | inl off ↦ (
    0,
    record {
      charged = rw off;
      cost = rw off (ap pos (omega arith));
      bounded = omega arith;
      rebated = λ _ _. refl;
      disabled = λ _. refl;
    },
  )
  | inr on ↦
      let p = project_mint_fee-enabled params on small in
      (
        fee_of params,
        record {
          charged = p.0;
          cost = p.1;
          bounded =
              let le = times_le params.amount_micros (
                discounted_le
                  (fee_bps_for_tier (tier_for_volume params.user_mint_volume_30d_micros))
                  (rebate_of params)) in
              let tier =
                times_le params.amount_micros
                  (fee_bps_for_tier_bound params.user_mint_volume_30d_micros) in
              omega (arith, le, tier);
          rebated = λ applies full.
              rw (applies, full)
                (fee_at_nothing params.amount_micros
                  (fee_bps_for_tier (tier_for_volume params.user_mint_volume_30d_micros)));
          disabled = λ off. cc;
        },
      )
]

abbrev pub with_volume : ProjectMintFeeParams → ℕ → ProjectMintFeeParams
with_volume params volume = record {
  amount_micros = params.amount_micros;
  config_mint_fee_bps = params.config_mint_fee_bps;
  user_mint_volume_30d_micros = volume;
  creator_rebate_applies = params.creator_rebate_applies;
  config_creator_rebate_bps = params.config_creator_rebate_bps;
}

discounted_mono : (rebate : ℕ) {b c : ℕ} → b ≤ c → discounted b rebate ≤ discounted c rebate
discounted_mono rebate {b = b} {c = c} h =
    let p : b * (10000 - rebate) ≤ c * (10000 - rebate) = grind arith in omega (arith, p)

-- With a rebate of at most 100%, a user with a larger 30-day volume never pays a larger fee for the
-- same mint.
pub project_mint_fee_antitone :
    (params : ProjectMintFeeParams) (volume : ℕ)
    → params.user_mint_volume_30d_micros ≤ volume
    → params.config_creator_rebate_bps ≤ 10000
    → pos_part (project_mint_fee (with_volume params volume)).fee_micros
      ≤ pos_part (project_mint_fee params).fee_micros
unfolding project_mint_fee
project_mint_fee_antitone params volume larger small =
    elim (Bool-cases (params.config_mint_fee_bps == 0)) [
      | inl off ↦ rw off (omega arith)
      | inr on ↦
          let bps = fee_bps_for_tier_antitone params.user_mint_volume_30d_micros volume larger in
          let shares = times_le params.amount_micros (discounted_mono (rebate_of params) bps) in
          let p = (project_mint_fee-enabled params on small).0 in
          let q = (project_mint_fee-enabled (with_volume params volume) on small).0 in
          rw (ap pos_part p, ap pos_part q) (omega (arith, shares))
    ]
