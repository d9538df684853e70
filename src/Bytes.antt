-- ===== src/Bytes.antt =====
-- The operations of Node's Buffer that services/automation uses: allocation, `copy`, the
-- little-endian writers and `Buffer.compare`. A buffer is the list of its bytes.
pub mod Order
pub mod Encoding
use bell_markets.Prelude.{
  ℕ, zero, suc, ◌/◌, ◌+◌, ◌%◌, ◌<◌, ◌≡◌, ◌≢◌, Bool, true, false, List, [], ◌∷◌, length, replicate,
  ltb, if◌then◌else◌,
}

abbrev pub Bytes : Type 0
Bytes = List ℕ

-- `Buffer.alloc(n)`
abbrev pub alloc : ℕ → Bytes
alloc n = replicate n 0

-- `src.copy(buf, off)`: the bytes that do not fit are dropped.
unfoldable pub copy_at : Bytes → ℕ → Bytes → Bytes
copy_at [] off src = []
copy_at (b ∷ buf) (suc off) src = b ∷ copy_at buf off src
copy_at (b ∷ buf) zero [] = b ∷ buf
copy_at (b ∷ buf) zero (s ∷ src) = s ∷ copy_at buf zero src

-- The `k` little-endian bytes of a number.
unfoldable pub le_bytes : ℕ → ℕ → Bytes
le_bytes zero n = []
le_bytes (suc k) n = (n % 256) ∷ le_bytes k (n / 256)

-- `Buffer.compare(a, b) <= 0`: lexicographic, a proper prefix first.
unfoldable pub le_buffer : Bytes → Bytes → Bool
le_buffer [] b = true
le_buffer (x ∷ a) [] = false
le_buffer (x ∷ a) (y ∷ b) =
    let rest = le_buffer a b in if ltb x y then true else (if ltb y x then false else rest)

-- `Buffer.compare(a, b) === 0`
unfoldable pub eq_buffer : Bytes → Bytes → Bool
eq_buffer [] [] = true
eq_buffer [] (y ∷ b) = false
eq_buffer (x ∷ a) [] = false
eq_buffer (x ∷ a) (y ∷ b) =
    let rest = eq_buffer a b in if ltb x y then false else (if ltb y x then false else rest)

abbrev hex_digit : ℕ → ℕ
hex_digit n = if ltb n 10 then 48 + n else 87 + n

-- `buf.toString("hex")`, as code units.
unfoldable pub hex : Bytes → List ℕ
hex [] = []
hex (b ∷ buf) = hex_digit (b / 16) ∷ hex_digit (b % 16) ∷ hex buf
