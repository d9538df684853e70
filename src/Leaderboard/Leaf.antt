-- ===== src/Leaderboard/Leaf.antt =====
-- services/automation/src/indexer/merkle.ts, lines 127 to 172: the 50-byte message of a claim and its
-- leaf hash. The arguments that the code tests for a sign are integers; fractions are left out.
use bell_markets.Prelude.{ℕ, ◌^◌, Bool, false, not, ◌&&◌, List, [], ◌∷◌, length, leb, ◌==◌}
use bell_markets.Prelude.Result.{Result, ok, throw, ◌>>=◌, ◌>>◌, throw_if}
use bell_markets.Prelude.Int.{ℤ, pos, negsuc, pos_part, is_negative}
use bell_markets.Bytes.{Bytes, alloc, copy_at, le_bytes}
use bell_markets.Base58.{PubkeyError, decode_pubkey}

abbrev pub period_type_weekly : ℕ
period_type_weekly = 0

abbrev pub period_type_monthly : ℕ
period_type_monthly = 1

abbrev pub distribution_slots : ℕ
distribution_slots = 10

pub data LeafError : Type 0 where
  bad_pubkey : PubkeyError → LeafError
  bad_recipient bad_position bad_period_type negative_period negative_amount : LeafError
  -- Node's RangeError: the value does not fit in the field.
  out_of_range : LeafError

-- `recipient: string | Buffer`
pub data Recipient : Type 0 where
  base58 : List ℕ → Recipient
  raw : Bytes → Recipient

unfoldable pub recipient_bytes : Recipient → Result LeafError Bytes
recipient_bytes (base58 s) = elim (decode_pubkey s) [ ok b ↦ ok b | throw e ↦ throw (bad_pubkey e) ]
recipient_bytes (raw b) = ok b

-- `1 <= position <= DISTRIBUTION_SLOTS`
unfoldable pub is_position : ℤ → Bool
is_position (pos n) = leb 1 n && leb n distribution_slots
is_position (negsuc n) = false

-- The five writes into the buffer, in the order of the code.
unfoldable pub leaf_message : Bytes → ℕ → ℕ → ℕ → ℕ → Bytes
leaf_message recipient position period_id period_type amount =
    let buf = copy_at (alloc 50) 0 recipient in
    let buf1 = copy_at buf 32 (position ∷ []) in
    let buf2 = copy_at buf1 33 (le_bytes 8 period_id) in
    let buf3 = copy_at buf2 41 (period_type ∷ []) in copy_at buf3 42 (le_bytes 8 amount)

-- `writeBigUInt64LE` throws above 2^64 - 1.
abbrev pub check_u64 : ℕ → Result LeafError (Unit {0})
check_u64 n = throw_if (leb (2 ^ 64) n) out_of_range

module _ (sha256 : Bytes → Bytes) where
  unfoldable pub hash_leaf : Recipient → ℤ → ℤ → ℕ → ℤ → Result LeafError Bytes
  unfolding is_position
  hash_leaf recipient position period_id period_type amount = do
    bytes ← recipient_bytes recipient
    throw_if (not (length bytes == 32)) bad_recipient
    throw_if (not (is_position position)) bad_position
    throw_if (not (period_type == period_type_weekly) && not (period_type == period_type_monthly))
        bad_period_type
    throw_if (is_negative period_id) negative_period
    throw_if (is_negative amount) negative_amount
    check_u64 (pos_part period_id)
    check_u64 (pos_part amount)
    ok (
        sha256 (
          leaf_message bytes (pos_part position) (pos_part period_id) period_type
            (pos_part amount)))
