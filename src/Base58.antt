-- ===== src/Base58.antt =====
-- services/automation/src/indexer/merkle.ts, lines 63 to 121 (`decodePubkey`), and
-- services/automation/src/indexer/helius-webhook.ts, lines 313 to 338 (`bytesToBase58`).
-- A string is the list of its UTF-16 code units. Both conversions keep their digits lowest first and
-- grow them by multiplication; the inner `while` over the carry takes the carry itself as fuel.
pub mod Digits
pub mod Leading
pub mod RoundTrip
use bell_markets.Prelude.{
  ℕ, zero, suc, ◌+◌, ◌-◌, ◌*◌, ◌/◌, ◌%◌, Bool, true, false, not, List, [], ◌∷◌, ◌++◌, Option, none,
  some, length, get_elem?, replicate, drop, ltb, ◌==◌, if◌then◌else◌,
}
use mathlib.Core.List.{reverse}
use Prim.Native.Char.{code}
use Prim.Native.String
use Prim.Native.String.{String}
use bell_markets.Prelude.Result.{Result, ok, throw, ◌>>=◌, ◌>>◌, throw_if}
use bell_markets.Bytes.{Bytes}

pub data PubkeyError : Type 0 where
  invalid_input : PubkeyError
  invalid_char : ℕ → PubkeyError
  wrong_length : ℕ → PubkeyError

abbrev codes : String → List ℕ
codes String.[] = []
codes (String.◌∷◌ c s) = code c ∷ codes s

abbrev pub base58_alphabet : List ℕ
base58_alphabet = codes "123456789ABCDEFGHJKLMNPQRSTUVWXYZabcdefghijkmnopqrstuvwxyz"

-- The index of a code unit in the alphabet; `none` is the table's -1.
unfoldable pub index_of : List ℕ → ℕ → Option ℕ
index_of [] c = none
index_of (x ∷ xs) c =
    let rest = index_of xs c in
    if x == c then some 0 else elim rest [ none ↦ none | some i ↦ some (suc i) ]

unfoldable pub base58_lookup : ℕ → Option ℕ
unfolding index_of
base58_lookup c = if ltb c 128 then index_of base58_alphabet c else none

-- `while (carry > 0) { out.push(carry % base); carry = carry / base }`
unfoldable pub push_carry : ℕ → ℕ → ℕ → List ℕ
push_carry base zero carry = []
push_carry base (suc fuel) carry =
    let rest = push_carry base fuel (carry / base) in
    if carry == 0 then [] else (carry % base) ∷ rest

-- Multiplies the digits by `factor` and adds `carry`: the loop over `j`, then the loop over the carry.
unfoldable pub mul_add : ℕ → ℕ → List ℕ → ℕ → List ℕ
unfolding push_carry
mul_add base factor [] carry = push_carry base carry carry
mul_add base factor (x ∷ out) carry =
    let c = carry + x * factor in (c % base) ∷ mul_add base factor out (c / base)

-- The outer loop, over digits that are known: `out` is its variable.
unfoldable pub convert : ℕ → ℕ → List ℕ → List ℕ → List ℕ
unfolding mul_add
convert base factor out [] = out
convert base factor out (d ∷ ds) = convert base factor (mul_add base factor out d) ds

-- How many leading items are `mark`.
unfoldable pub count_leading : ℕ → List ℕ → ℕ
count_leading mark [] = 0
count_leading mark (x ∷ xs) = let rest = count_leading mark xs in if x == mark then suc rest else 0

-- The digits of the code units, or the position of the first that is not in the alphabet.
unfoldable pub digits_from : ℕ → List ℕ → Result PubkeyError (List ℕ)
unfolding base58_lookup
digits_from i [] = ok []
digits_from i (c ∷ cs) = elim (base58_lookup c) [
  | none ↦ throw (invalid_char i)
  | some d ↦ elim (digits_from (suc i) cs) [ throw e ↦ throw e | ok ds ↦ ok (d ∷ ds) ]
]

unfoldable pub decode_bytes : List ℕ → Result PubkeyError Bytes
unfolding count_leading digits_from convert
decode_bytes base58 =
    let zeroes = count_leading b'1' base58 in
    digits_from zeroes (drop zeroes base58) >>= λ digits.
    ok (replicate zeroes 0 ++ reverse (convert 256 58 [] digits))

unfoldable pub decode_pubkey : List ℕ → Result PubkeyError Bytes
decode_pubkey base58 = do
  throw_if (length base58 == 0) invalid_input
  bytes ← decode_bytes base58
  throw_if (not (length bytes == 32)) (wrong_length (length bytes))
  ok bytes

-- The alphabet's character at a digit; digits are below 58.
unfoldable pub base58_char : ℕ → ℕ
base58_char d = elim (get_elem? base58_alphabet d) [ none ↦ 0 | some c ↦ c ]

unfoldable pub bytes_to_base58 : Bytes → List ℕ
unfolding count_leading convert
bytes_to_base58 bytes =
    let zeros = count_leading 0 bytes in
    replicate zeros b'1'
    ++ mathlib.Core.List.map base58_char (reverse (convert 58 256 [] (drop zeros bytes)))
