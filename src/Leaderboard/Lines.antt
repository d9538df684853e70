-- ===== src/Leaderboard/Lines.antt =====
-- The leaves of a tree that was built: each is the line of the leaderboard at its position.
use bell_markets.Prelude.{
  ℕ, zero, suc, ◌+◌, ◌≡◌, refl, ap₂, subst, List, [], ◌∷◌, arith, some, map, get_elem?,
}
use bell_markets.Prelude.Result.{ok, >>=-eq-ok}
use bell_markets.Prelude.Int.{ℤ, pos, pos_part}
use bell_markets.Bytes.{Bytes}
use bell_markets.Base58.{decode_pubkey}
use bell_markets.Leaderboard.Leaf.{raw, recipient_bytes, leaf_message, hash_leaf, bad_pubkey}
use bell_markets.Leaderboard.Accepted.{FitsLeaf, hash_leaf_sound}
use bell_markets.Leaderboard.Built.{leaf_digests, wrap_error-ok}
use bell_markets.Leaderboard.{
  LeaderboardEntry, LeaderboardLeaf, bad_leaf, wrap_error, make_leaf, leaves_from,
}

-- The message that a leaf of the tree was hashed from.
abbrev pub payload : ℤ → ℕ → LeaderboardLeaf → Bytes
payload period_id period_type leaf =
    leaf_message leaf.recipient_bytes leaf.position (pos_part period_id) period_type
      (pos_part leaf.amount)

abbrev pub payloads : ℤ → ℕ → List LeaderboardLeaf → List Bytes
payloads period_id period_type leaves = map (payload period_id period_type) leaves

-- A leaf, made for an entry and an amount at a position.
pub record IsLeafOf (sha256 : Bytes → Bytes) (period_id : ℤ) (period_type position : ℕ)
    (entry : LeaderboardEntry) (amount : ℤ) (leaf : LeaderboardLeaf) : Type 0 where
  pub id : ℕ
  pub a : ℕ
  pub decoded : decode_pubkey entry.user_pubkey ≡ ok leaf.recipient_bytes
  pub at : leaf.position ≡ position
  pub is_id : period_id ≡ pos id
  pub is_a : amount ≡ pos a
  pub keeps : leaf.amount ≡ amount
  pub fits : FitsLeaf leaf.recipient_bytes position id period_type a
  pub hashed : leaf.leaf_bytes ≡ sha256 (payload period_id period_type leaf)

raw-bytes : (b b' : Bytes) → recipient_bytes (raw b) ≡ ok b' → b' ≡ b
unfolding recipient_bytes
raw-bytes b b' e = ground arith

module _ (sha256 : Bytes → Bytes) (period_id : ℤ) (period_type : ℕ) where
  pub make_leaf-IsLeafOf :
      (position : ℕ) (entry : LeaderboardEntry) (amount : ℤ) (leaf : LeaderboardLeaf)
      → make_leaf sha256 period_id period_type position entry amount ≡ ok leaf
      → IsLeafOf sha256 period_id period_type position entry amount leaf
  unfolding make_leaf
  make_leaf-IsLeafOf position entry amount leaf e =
      let (bytes, decoded, e1) =
        >>=-eq-ok (wrap_error (λ x. bad_leaf (bad_pubkey x)) (decode_pubkey entry.user_pubkey)) _
          e in
      let (digest, hashed, e2) =
        >>=-eq-ok
          (wrap_error bad_leaf
            (hash_leaf sha256 (raw bytes) (pos position) period_id period_type amount))
          _ e1 in
      let h =
        hash_leaf_sound sha256 (raw bytes) (pos position) period_id period_type amount digest
          (wrap_error-ok bad_leaf _ hashed) in
      let same = raw-bytes bytes h.bytes h.resolved in
      let plain = wrap_error-ok (λ x. bad_leaf (bad_pubkey x)) _ decoded in
      record {
        id = h.id;
        a = h.a;
        decoded = ground arith;
        at = ground arith;
        is_id = h.is_id;
        is_a = h.is_a;
        keeps = ground arith;
        fits = ground arith;
        hashed = ground arith;
      }

-- The leaf at an index, with the entry and the amount that it was made for.
pub record IsLine (sha256 : Bytes → Bytes) (period_id : ℤ) (period_type position : ℕ)
    (entries : List LeaderboardEntry) (amounts : List ℤ) (i : ℕ) (leaf : LeaderboardLeaf)
    : Type 0 where
  pub entry : LeaderboardEntry
  pub amount : ℤ
  pub entry_at : get_elem? entries i ≡ some entry
  pub amount_at : get_elem? amounts i ≡ some amount
  pub made : IsLeafOf sha256 period_id period_type position entry amount leaf

module _ (sha256 : Bytes → Bytes) (period_id : ℤ) (period_type : ℕ) where
  IsLine-suc :
      (idx i : ℕ) {e : LeaderboardEntry} {a : ℤ} {entries : List LeaderboardEntry}
      {amounts : List ℤ} {leaf : LeaderboardLeaf}
      → IsLine sha256 period_id period_type (idx + 1 + i + 1) entries amounts i leaf
      → IsLine sha256 period_id period_type
          (idx + suc i + 1)
          (e ∷ entries)
          (a ∷ amounts)
          (suc i)
          leaf
  IsLine-suc idx i {leaf = leaf} l =
      let same : idx + 1 + i + 1 ≡ idx + suc i + 1 = omega arith in
      record {
        entry = l.entry;
        amount = l.amount;
        entry_at = l.entry_at;
        amount_at = l.amount_at;
        made =
            subst (λ p. IsLeafOf sha256 period_id period_type p l.entry l.amount leaf) same l.made;
      }

  pub leaves_from-IsLine :
      (idx : ℕ) (entries : List LeaderboardEntry) (amounts : List ℤ) (leaves : List LeaderboardLeaf)
      (i : ℕ) (leaf : LeaderboardLeaf)
      → leaves_from sha256 period_id period_type idx entries amounts ≡ ok leaves
      → get_elem? leaves i ≡ some leaf
      → IsLine sha256 period_id period_type (idx + i + 1) entries amounts i leaf
  unfolding leaves_from
  leaves_from-IsLine idx [] amounts leaves i leaf e h = absurd (ground arith)
  leaves_from-IsLine idx (entry ∷ entries) [] leaves i leaf e h = cc
  leaves_from-IsLine idx (entry ∷ entries) (amount ∷ amounts) leaves zero leaf e h =
      let (first, made, e1) =
        >>=-eq-ok (make_leaf sha256 period_id period_type (idx + 1) entry amount) _ e in
      let (rest, more, e2) =
        >>=-eq-ok (leaves_from sha256 period_id period_type (idx + 1) entries amounts) _ e1 in
      let same : first ≡ leaf = ground arith in
      let position : idx + 1 ≡ idx + 0 + 1 = omega arith in
      record {
        entry = entry;
        amount = amount;
        entry_at = refl;
        amount_at = refl;
        made =
            make_leaf-IsLeafOf sha256 period_id period_type (idx + 0 + 1) entry amount leaf
              (rw (same, position) at made);
      }
  leaves_from-IsLine idx (entry ∷ entries) (amount ∷ amounts) leaves (suc i) leaf e h =
      let (first, made, e1) =
        >>=-eq-ok (make_leaf sha256 period_id period_type (idx + 1) entry amount) _ e in
      let (rest, more, e2) =
        >>=-eq-ok (leaves_from sha256 period_id period_type (idx + 1) entries amounts) _ e1 in
      IsLine-suc idx i
        (leaves_from-IsLine (idx + 1) entries amounts rest i leaf more (ground arith))

  pub digests-payloads :
      (idx : ℕ) (entries : List LeaderboardEntry) (amounts : List ℤ) (leaves : List LeaderboardLeaf)
      → leaves_from sha256 period_id period_type idx entries amounts ≡ ok leaves
      → leaf_digests leaves ≡ map sha256 (payloads period_id period_type leaves)
  digests-payloads idx entries amounts leaves e =
      go leaves (λ i leaf h. (leaves_from-IsLine idx entries amounts leaves i leaf e h).made.hashed)
    where
      go :
          (ls : List LeaderboardLeaf)
          → ((i : ℕ) (leaf : LeaderboardLeaf)
              → get_elem? ls i ≡ some leaf
              → leaf.leaf_bytes ≡ sha256 (payload period_id period_type leaf))
          → leaf_digests ls ≡ map sha256 (payloads period_id period_type ls)
      go [] h = refl
      go (l ∷ ls) h = ap₂ ◌∷◌ (h 0 l refl) (go ls (λ i leaf at. h (suc i) leaf at))
