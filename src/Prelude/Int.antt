-- ===== src/Prelude/Int.antt =====
-- Signed integers over the native numbers, for arguments that the code tests for a sign.
use Prim.Native.Nat.{ℕ, zero, suc, ◌+◌, ◌-◌, ◌*◌, ◌/◌}
use bell_markets.Prelude.Tests.{leb, if◌then◌else◌}
use mathlib.Core.Bool.{Bool, true, false}

-- `negsuc n` is -(n + 1).
pub data ℤ : Type 0 where
  pos : ℕ → ℤ
  negsuc : ℕ → ℤ

abbrev pub pos_part : ℤ → ℕ
pos_part (pos n) = n
pos_part (negsuc n) = 0

abbrev pub neg_part : ℤ → ℕ
neg_part (pos n) = 0
neg_part (negsuc n) = suc n

-- `z < 0`
abbrev pub is_negative : ℤ → Bool
is_negative (pos n) = false
is_negative (negsuc n) = true

-- `z > 0`
abbrev pub is_positive : ℤ → Bool
is_positive (pos zero) = false
is_positive (pos (suc n)) = true
is_positive (negsuc n) = false

-- The integer -n.
abbrev pub neg : ℕ → ℤ
neg zero = pos zero
neg (suc n) = negsuc n

-- `a - b`
abbrev pub sub_to_ℤ : ℕ → ℕ → ℤ
sub_to_ℤ a b = if leb b a then pos (a - b) else neg (b - a)

-- `k * z`
abbrev pub scale : ℕ → ℤ → ℤ
scale k (pos n) = pos (k * n)
scale k (negsuc n) = neg (k * suc n)

-- `k + z`
abbrev pub shift : ℕ → ℤ → ℤ
shift k (pos n) = pos (k + n)
shift k (negsuc n) = sub_to_ℤ k (suc n)

-- `Math.floor(z / d)`
abbrev pub floor_div : ℤ → ℕ → ℤ
floor_div (pos n) d = pos (n / d)
floor_div (negsuc n) d = negsuc (n / d)

-- `z / d` of bigints, which rounds towards zero.
abbrev pub trunc_div : ℤ → ℕ → ℤ
trunc_div (pos n) d = pos (n / d)
trunc_div (negsuc n) d = neg (suc n / d)
