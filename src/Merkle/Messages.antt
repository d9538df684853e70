-- ===== src/Merkle/Messages.antt =====
-- The messages that the tree builder and the verifier hash, and what they determine.
use bell_markets.Prelude.{
  ℕ, zero, suc, ◌≡◌, refl, ap, sym, ◌∙◌, ◌⊎◌, inl, inr, List, [], ◌∷◌, ◌++◌, some, length,
  length-append, get_elem?, if◌then◌else◌, Bool-cases, arith,
}
use mathlib.Core.List.{append-nil}
use bell_markets.Bytes.{Bytes, alloc, copy_at, le_buffer}
use bell_markets.Bytes.Encoding.{copy_at-field, append_inj}
use bell_markets.Merkle.{hash_sorted_pair, next_layer}

-- The message that is hashed for a pair of nodes.
abbrev pub pair_message : Bytes → Bytes → Bytes
pair_message a b = if le_buffer a b then a ++ b else b ++ a

abbrev pub Is32 : Bytes → Type 0
Is32 b = length b ≡ 32

-- The two copies fill the 64-byte buffer.
copies : (a b : Bytes) → Is32 a → Is32 b → copy_at (copy_at (alloc 64) 0 a) 32 b ≡ a ++ b
copies a b ha hb =
    ap (λ t. copy_at t 32 b) (copy_at-field [] a 64 32 0 refl (omega arith))
    ∙ copy_at-field a b 32 0 32 (sym ha) (omega arith)
    ∙ append-nil (a ++ b)

pub length-pair_message : (a b : Bytes) → Is32 a → Is32 b → length (pair_message a b) ≡ 64
length-pair_message a b ha hb = ground (arith, length-append a b, length-append b a)

-- The message determines the pair, up to its order.
pub pair_message_inj :
    (a b c d : Bytes)
    → Is32 a
    → Is32 b
    → Is32 c
    → Is32 d
    → pair_message a b ≡ pair_message c d
    → ((a ≡ c) × (b ≡ d)) ⊎ ((a ≡ d) × (b ≡ c))
pair_message_inj a b c d ha hb hc hd e = elim (Bool-cases (le_buffer a b)) [
  | inl p ↦ elim (Bool-cases (le_buffer c d)) [
    | inl q ↦ inl (append_inj a b c d (omega arith) (rw (p, q) at e))
    | inr q ↦ inr (append_inj a b d c (omega arith) (rw (p, q) at e))
  ]
  | inr p ↦ elim (Bool-cases (le_buffer c d)) [
    | inl q ↦
        let (front, back) = append_inj b a c d (omega arith) (rw (p, q) at e) in inr (back, front)
    | inr q ↦
        let (front, back) = append_inj b a d c (omega arith) (rw (p, q) at e) in inl (back, front)
  ]
]

module _ (sha256 : Bytes → Bytes) where
  pub hash_sorted_pair-message :
      (a b : Bytes) → Is32 a → Is32 b → hash_sorted_pair sha256 a b ≡ sha256 (pair_message a b)
  unfolding hash_sorted_pair
  hash_sorted_pair-message a b ha hb = ground (arith, copies a b ha hb, copies b a hb ha)

  -- The messages that one round of the tree builder hashes.
  abbrev pub HashedInLayer : List Bytes → Bytes → Type 0
  HashedInLayer [] y = ⊥
  HashedInLayer (a ∷ []) y = y ≡ pair_message a a
  HashedInLayer (a ∷ b ∷ rest) y = (y ≡ pair_message a b) ⊎ HashedInLayer rest y

  -- The messages that the verifier hashes.
  abbrev pub HashedInClimb : Bytes → List Bytes → Bytes → Type 0
  HashedInClimb x [] y = ⊥
  HashedInClimb x (s ∷ proof) y =
      (y ≡ pair_message x s) ⊎ HashedInClimb (hash_sorted_pair sha256 x s) proof y

  -- A node of the layer above is the hash of two nodes of this layer.
  pub record HasParts (layer : List Bytes) (x : Bytes) : Type 0 where
    pub left : Bytes
    pub right : Bytes
    pub left_index : ℕ
    pub right_index : ℕ
    pub left_at : get_elem? layer left_index ≡ some left
    pub right_at : get_elem? layer right_index ≡ some right
    pub hashed : HashedInLayer layer (pair_message left right)
    pub node : x ≡ hash_sorted_pair sha256 left right

  pub next_layer-HasParts :
      (layer : List Bytes) (j : ℕ) (x : Bytes)
      → get_elem? (next_layer sha256 layer) j ≡ some x
      → HasParts layer x
  unfolding next_layer
  next_layer-HasParts [] j x e = cc
  next_layer-HasParts (a ∷ []) zero x e = record {
    left = a;
    right = a;
    left_index = 0;
    right_index = 0;
    left_at = refl;
    right_at = refl;
    hashed = refl;
    node = ground arith;
  }
  next_layer-HasParts (a ∷ []) (suc j) x e = cc
  next_layer-HasParts (a ∷ b ∷ rest) zero x e = record {
    left = a;
    right = b;
    left_index = 0;
    right_index = 1;
    left_at = refl;
    right_at = refl;
    hashed = inl refl;
    node = ground arith;
  }
  next_layer-HasParts (a ∷ b ∷ rest) (suc j) x e =
      let p = next_layer-HasParts rest j x e in
      record {
        left = p.left;
        right = p.right;
        left_index = suc (suc p.left_index);
        right_index = suc (suc p.right_index);
        left_at = p.left_at;
        right_at = p.right_at;
        hashed = inr p.hashed;
        node = p.node;
      }
