-- ===== src/Grid/Rounding.antt =====
-- Rounding to the nearest is within a half.
use bell_markets.Prelude.{ℕ, ◌+◌, ◌*◌, ◌%◌, ◌≤◌, ◌<◌, arith}
use native.Mathlib.Nat.{div-add-mod, mod-lt}
use bell_markets.Grid.{round_ratio}

-- The rounded quotient times the divisor is at most half the divisor away.
pub round_ratio_le : (n d : ℕ) → 2 * (round_ratio n d * d) ≤ 2 * n + d
unfolding round_ratio
round_ratio_le n d = let split = div-add-mod (2 * n + d) (2 * d) in grind arith

pub round_ratio_ge : (n d : ℕ) → 0 < d → 2 * n ≤ 2 * (round_ratio n d * d) + d
unfolding round_ratio
round_ratio_ge n d positive =
    let split = div-add-mod (2 * n + d) (2 * d) in
    let rest : (2 * n + d) % (2 * d) < 2 * d = mod-lt (2 * n + d) (omega arith) in grind arith
