-- ===== src/Payouts/Amounts.antt =====
-- How far the ten amounts are from the pool.
use bell_markets.Prelude.{ℕ, ◌+◌, ◌*◌, ◌/◌, ◌≤◌, ◌≡◌, refl, arith, List, [], ◌∷◌, map, length}
use bell_markets.Grid.Rounding.{round_ratio_le, round_ratio_ge}
use bell_markets.Distribution.{default_distribution_bps}
use bell_markets.Payouts.{position_cents, position_amounts}

abbrev pub sum : List ℕ → ℕ
sum [] = 0
sum (n ∷ ns) = n + sum ns

-- An amount is within half a cent and a rounding of its share.
position_cents_le :
    (pool_cents bps : ℕ) → 10000 * position_cents pool_cents bps ≤ pool_cents * bps + 5000
unfolding position_cents
position_cents_le pool_cents bps =
    let bound = round_ratio_le (pool_cents * bps / 100) 100 in grind arith

position_cents_ge :
    (pool_cents bps : ℕ) → pool_cents * bps ≤ 10000 * position_cents pool_cents bps + 5099
unfolding position_cents
position_cents_ge pool_cents bps =
    let bound = round_ratio_ge (pool_cents * bps / 100) 100 (omega arith) in grind arith

-- The ten amounts of a pool of `p` cents add up to between p - 5 and p + 5 cents.
pub position_amounts-near_pool :
    (pool_cents : ℕ)
    → (length (position_amounts pool_cents) ≡ 10)
      × (pool_cents ≤ sum (position_amounts pool_cents) + 5)
      × (sum (position_amounts pool_cents) ≤ pool_cents + 5)
unfolding position_amounts
position_amounts-near_pool pool_cents = (refl, lower, upper)
  where
    lower : pool_cents ≤ sum (map (position_cents pool_cents) default_distribution_bps) + 5
    lower = omega (
      arith,
      position_cents_ge pool_cents 2500,
      position_cents_ge pool_cents 1800,
      position_cents_ge pool_cents 1200,
      position_cents_ge pool_cents 1000,
      position_cents_ge pool_cents 800,
      position_cents_ge pool_cents 700,
      position_cents_ge pool_cents 600,
      position_cents_ge pool_cents 500,
      position_cents_ge pool_cents 400,
    )

    upper : sum (map (position_cents pool_cents) default_distribution_bps) ≤ pool_cents + 5
    upper = omega (
      arith,
      position_cents_le pool_cents 2500,
      position_cents_le pool_cents 1800,
      position_cents_le pool_cents 1200,
      position_cents_le pool_cents 1000,
      position_cents_le pool_cents 800,
      position_cents_le pool_cents 700,
      position_cents_le pool_cents 600,
      position_cents_le pool_cents 500,
      position_cents_le pool_cents 400,
    )
