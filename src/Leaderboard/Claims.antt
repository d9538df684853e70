-- ===== src/Leaderboard/Claims.antt =====
-- A claim that the verifier accepts against a leaderboard's root is a line of that leaderboard.
use bell_markets.Prelude.{
  ℕ, zero, suc, ◌+◌, ◌^◌, ◌<◌, ◌≡◌, refl, ap, true, List, [], ◌∷◌, length, arith, some, map,
  get_elem?, All, All-of_get,
}
use bell_markets.Prelude.Result.{ok}
use bell_markets.Prelude.Int.{ℤ, pos, pos_part}
use bell_markets.Bytes.{Bytes}
use bell_markets.Base58.{decode_pubkey}
use bell_markets.Merkle.{verify_leaf_proof}
use bell_markets.Merkle.Messages.{Is32}
use bell_markets.Merkle.Nodes.{IsLeafMessage, Hashed}
use bell_markets.Merkle.Soundness.{verify_leaf_proof_sound}
use bell_markets.Leaderboard.Leaf.{leaf_message}
use bell_markets.Leaderboard.Encoding.{length-leaf_message, leaf_message_injective}
use bell_markets.Leaderboard.Accepted.{FitsLeaf}
use bell_markets.Leaderboard.Built.{build_leaderboard_merkle_tree-IsBuilt}
use bell_markets.Leaderboard.{
  LeaderboardEntry, LeaderboardLeaf, LeaderboardMerkleTree, leaves_from,
  build_leaderboard_merkle_tree,
}
use bell_markets.Leaderboard.Lines.{payload, payloads, IsLine, leaves_from-IsLine, digests-payloads}

map-get :
    {A B : Type 0} (f : A → B) (xs : List A) (i : ℕ) {y : B}
    → get_elem? (map f xs) i ≡ some y
    → (x : A) × (get_elem? xs i ≡ some x) × (y ≡ f x)
map-get f [] i e = cc
map-get f (x ∷ xs) zero e = (x, refl, ground arith)
map-get f (x ∷ xs) (suc i) e = map-get f xs i e

-- A line of the leaderboard: the recipient, the position and the amount of one entry.
pub record IsListed (entries : List LeaderboardEntry) (amounts : List ℤ) (recipient : Bytes)
    (position amount : ℕ) : Type 0 where
  pub index : ℕ
  pub entry : LeaderboardEntry
  pub at : position ≡ index + 1
  pub entry_at : get_elem? entries index ≡ some entry
  pub decodes : decode_pubkey entry.user_pubkey ≡ ok recipient
  pub amount_at : get_elem? amounts index ≡ some (pos amount)

-- The line whose leaf was hashed from the claim's message is the claim.
IsListed-of_line :
    (sha256 : Bytes → Bytes) (entries : List LeaderboardEntry) (amounts : List ℤ)
    (id period_type t p i : ℕ) (r : Bytes) (a : ℕ) (leaf : LeaderboardLeaf)
    → IsLine sha256 (pos id) period_type (0 + i + 1) entries amounts i leaf
    → (id' : ℕ) → FitsLeaf r p id' t a
    → leaf_message r p id' t a ≡ payload (pos id) period_type leaf
    → IsListed entries amounts r p a × (id' ≡ id) × (t ≡ period_type)
IsListed-of_line sha256 entries amounts id period_type t p i r a leaf l id' f e =
    let m = l.made in
    let amount : pos_part leaf.amount ≡ m.a = ground (arith, m.keeps, m.is_a) in
    let same_id : m.id ≡ id = ground (arith, m.is_id) in
    let period : id < 2 ^ 64 = omega (arith, m.fits.period) in
    let value : pos_part leaf.amount < 2 ^ 64 = omega (arith, m.fits.value) in
    let s =
      leaf_message_injective r leaf.recipient_bytes p leaf.position id' id t period_type a
        (pos_part leaf.amount) f.size m.fits.size f.period period f.value value e in
    (
      record {
        index = i;
        entry = l.entry;
        at = omega (arith, s.position, m.at);
        entry_at = l.entry_at;
        decodes = ground (arith, m.decoded, s.recipient);
        amount_at = ground (arith, l.amount_at, m.is_a, s.amount, amount);
      },
      s.period_id,
      s.period_type,
    )

module _ (sha256 : Bytes → Bytes) where
  payloads-sized :
      (period_id : ℤ) (period_type : ℕ) (entries : List LeaderboardEntry) (amounts : List ℤ)
      (leaves : List LeaderboardLeaf)
      → leaves_from sha256 period_id period_type 0 entries amounts ≡ ok leaves
      → All IsLeafMessage (payloads period_id period_type leaves)
  payloads-sized period_id period_type entries amounts leaves e =
      All-of_get IsLeafMessage (payloads period_id period_type leaves) λ i m at.
        let (leaf, listed, same) = map-get (payload period_id period_type) leaves i at in
        let size =
          (leaves_from-IsLine sha256 period_id period_type 0 entries amounts leaves i leaf e
            listed).made.fits.size in
        λ (h : length m ≡ 64). absurd (
          omega (
            arith,
            ap length same,
            length-leaf_message leaf.recipient_bytes leaf.position (pos_part period_id) period_type
                (pos_part leaf.amount) size,
          ))

  -- If SHA-256 digests have 32 bytes, a tree was returned for the period `id`, the claim's values fit
  -- a leaf, no two different messages among those hashed by the build and by the check share a
  -- digest, and the verifier accepts a proof of 32-byte hashes for the claim's leaf against the
  -- tree's root, then the claim's period and period type are the tree's, and its recipient, position
  -- and amount are those of one entry of the leaderboard.
  pub verify_leaf_proof-IsListed :
      (entries : List LeaderboardEntry) (id period_type : ℕ) (amounts : List ℤ)
      (tree : LeaderboardMerkleTree) (r : Bytes) (p id' t a : ℕ) (proof : List Bytes)
      → ((m : Bytes) → Is32 (sha256 m))
      → build_leaderboard_merkle_tree sha256 entries (pos id) period_type amounts ≡ ok tree
      → FitsLeaf r p id' t a
      → ((x y : Bytes)
          → Hashed sha256
              (payloads (pos id) period_type tree.leaves)
              tree.layers
              (leaf_message r p id' t a)
              proof
              x
          → Hashed sha256
              (payloads (pos id) period_type tree.leaves)
              tree.layers
              (leaf_message r p id' t a)
              proof
              y
          → sha256 x ≡ sha256 y
          → x ≡ y)
      → All Is32 proof
      → verify_leaf_proof sha256 (sha256 (leaf_message r p id' t a)) proof tree.root_bytes ≡ true
      → IsListed entries amounts r p a × (id' ≡ id) × (t ≡ period_type)
  verify_leaf_proof-IsListed entries id period_type amounts tree r p id' t a proof digest e f
        distinct hp accepted =
      let b =
        build_leaderboard_merkle_tree-IsBuilt sha256 entries (pos id) period_type amounts tree e in
      let digests =
        digests-payloads sha256 (pos id) period_type 0 entries amounts tree.leaves b.made in
      let (i, at) =
        verify_leaf_proof_sound sha256 (payloads (pos id) period_type tree.leaves) tree.layers
          tree.root_bytes (leaf_message r p id' t a) proof digest distinct
          (payloads-sized (pos id) period_type entries amounts tree.leaves b.made)
          (λ h. absurd (omega (arith, length-leaf_message r p id' t a f.size))) hp
          (rw digests at b.layered) b.rooted accepted in
      let (leaf, listed, same) = map-get (payload (pos id) period_type) tree.leaves i at in
      IsListed-of_line sha256 entries amounts id period_type t p i r a leaf
        (leaves_from-IsLine sha256 (pos id) period_type 0 entries amounts tree.leaves i leaf b.made
          listed)
        id' f same
