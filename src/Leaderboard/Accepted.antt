-- ===== src/Leaderboard/Accepted.antt =====
-- When `hashLeaf` returns, and what it then has hashed.
use bell_markets.Prelude.{ℕ, ◌^◌, ◌<◌, ◌≤◌, ◌≡◌, refl, length, arith}
use bell_markets.Prelude.Result.{ok, >>=-eq-ok}
use bell_markets.Prelude.Int.{ℤ, pos, negsuc}
use bell_markets.Bytes.{Bytes}
use bell_markets.Leaderboard.Leaf.{
  distribution_slots, Recipient, recipient_bytes, leaf_message, hash_leaf,
}

-- The values that fit the fields of a leaf.
pub record FitsLeaf (bytes : Bytes) (position period_id period_type amount : ℕ) : Type 0 where
  pub size : length bytes ≡ 32
  pub first : 1 ≤ position
  pub last : position ≤ distribution_slots
  pub period : period_id < 2 ^ 64
  pub kind : period_type ≤ 1
  pub value : amount < 2 ^ 64

-- A leaf hash that was returned, with the values that it was made of.
pub record IsLeafHash (sha256 : Bytes → Bytes) (recipient : Recipient) (position period_id : ℤ)
    (period_type : ℕ) (amount : ℤ) (digest : Bytes) : Type 0 where
  pub bytes : Bytes
  pub p : ℕ
  pub id : ℕ
  pub a : ℕ
  pub resolved : recipient_bytes recipient ≡ ok bytes
  pub is_p : position ≡ pos p
  pub is_id : period_id ≡ pos id
  pub is_a : amount ≡ pos a
  pub fits : FitsLeaf bytes p id period_type a
  pub hashed : digest ≡ sha256 (leaf_message bytes p id period_type a)

module _ (sha256 : Bytes → Bytes) where
  -- Whatever `hashLeaf` returns is the SHA-256 of the message of values that fit a leaf: a recipient of
  -- 32 bytes, a position from 1 to 10, a weekly or monthly period and 64-bit numbers.
  pub hash_leaf_sound :
      (recipient : Recipient) (position period_id : ℤ) (period_type : ℕ) (amount : ℤ)
      (digest : Bytes)
      → hash_leaf sha256 recipient position period_id period_type amount ≡ ok digest
      → IsLeafHash sha256 recipient position period_id period_type amount digest
  unfolding hash_leaf
  hash_leaf_sound recipient (pos p) (pos id) t (pos a) digest e =
      let (bytes, resolved, rest) = >>=-eq-ok _ _ e in
      record {
        bytes = bytes;
        p = p;
        id = id;
        a = a;
        resolved = resolved;
        is_p = refl;
        is_id = refl;
        is_a = refl;
        fits = ground arith;
        hashed = ground arith;
      }
  hash_leaf_sound recipient (pos p) (pos id) t (negsuc a) digest e = absurd (ground arith)
  hash_leaf_sound recipient (pos p) (negsuc id) t amount digest e = absurd (ground arith)
  hash_leaf_sound recipient (negsuc p) period_id t amount digest e = absurd (ground arith)

  -- `hashLeaf` returns that hash for all values that fit a leaf.
  pub hash_leaf_complete :
      (recipient : Recipient) (bytes : Bytes) (p id t a : ℕ)
      → recipient_bytes recipient ≡ ok bytes
      → FitsLeaf bytes p id t a
      → hash_leaf sha256 recipient (pos p) (pos id) t (pos a)
        ≡ ok (sha256 (leaf_message bytes p id t a))
  unfolding hash_leaf
  hash_leaf_complete recipient bytes p id t a e f = rw e (ground arith)
