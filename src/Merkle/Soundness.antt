-- ===== src/Merkle/Soundness.antt =====
-- No proof passes for a payload that is not a leaf of the tree, short of a SHA-256 collision among
-- the messages that the build of the tree and the run of the verifier hash.
use bell_markets.Prelude.{
  ℕ, zero, suc, ◌<◌, ◌≡◌, refl, ap, sym, subst, ◌∙◌, inl, inr, true, List, [], ◌∷◌, some, length,
  get_elem?, All, All-get_elem?, Bool-cases, arith, map,
}
use bell_markets.Prelude.Result.{ok}
use bell_markets.Bytes.{Bytes, le_buffer}
use bell_markets.Bytes.Order.{eq_buffer_sound}
use bell_markets.Merkle.{
  last_layer, hash_sorted_pair, layers_from, build_sorted_pair_tree_layers, climb,
  verify_leaf_proof,
}
use bell_markets.Merkle.Layers.{layers_from-first, build-loop}
use bell_markets.Merkle.Messages.{
  Is32, pair_message, hash_sorted_pair-message, length-pair_message, pair_message_inj,
  HashedInLayer, HashedInClimb, next_layer-HasParts,
}
use bell_markets.Merkle.Nodes.{
  InLayers, Hashed, as_payload, as_claimed, as_pair, as_step, layers_from-below,
  last_layer-InLayers, get_elem?-map, IsLeafMessage,
}

module _ (sha256 : Bytes → Bytes) (digest : (m : Bytes) → Is32 (sha256 m)) (payloads : List Bytes)
    (leaf_sized : All IsLeafMessage payloads) (layers : List (List Bytes)) (fuel : ℕ)
    (built : layers_from sha256 fuel (map sha256 payloads) ≡ ok layers) (IsHashed : Bytes → Type 0)
    (distinct : (x y : Bytes) → IsHashed x → IsHashed y → sha256 x ≡ sha256 y → x ≡ y)
    (hashed_payload : (i : ℕ) (y : Bytes) → get_elem? payloads i ≡ some y → IsHashed y)
    (hashed_pair : (k : ℕ) (layer : List Bytes) (y : Bytes)
      → get_elem? layers k ≡ some layer
      → 1 < length layer
      → HashedInLayer sha256 layer y
      → IsHashed y) where
  -- A node is a leaf, or the hash of two nodes below it.
  data Origin (x : Bytes) : Type 0 where
    leaf : (i : ℕ) (m : Bytes) → get_elem? payloads i ≡ some m → x ≡ sha256 m → Origin x
    pair :
        (a b : Bytes)
        → InLayers layers a
        → InLayers layers b
        → IsHashed (pair_message a b)
        → x ≡ hash_sorted_pair sha256 a b
        → Origin x

  InLayers-Origin : (x : Bytes) → InLayers layers x → Origin x
  InLayers-Origin x n = go n.level n.layer n.layer_at n.node_at
    where
      go :
          (k : ℕ) (l : List Bytes)
          → get_elem? layers k ≡ some l
          → get_elem? l n.index ≡ some x
          → Origin x
      go zero l at here =
          let (rest, first) = layers_from-first sha256 fuel (map sha256 payloads) layers built in
          let (m, there, same) = get_elem?-map sha256 payloads n.index (ground arith) in
          leaf n.index m there same
      go (suc k) l at here =
          let (down, below, wide, above) =
            layers_from-below sha256 fuel (map sha256 payloads) layers k l built at in
          let p = next_layer-HasParts sha256 down n.index x (rw above at here) in
          pair p.left p.right
            (record {
              level = k;
              layer = down;
              index = p.left_index;
              layer_at = below;
              node_at = p.left_at;
            })
            (record {
              level = k;
              layer = down;
              index = p.right_index;
              layer_at = below;
              node_at = p.right_at;
            })
            (hashed_pair k down _ below wide p.hashed) p.node

  hash_sorted_pair-Is32 : (a b : Bytes) → Is32 (hash_sorted_pair sha256 a b)
  unfolding hash_sorted_pair
  hash_sorted_pair-Is32 a b = elim (Bool-cases (le_buffer a b)) [
    | inl p ↦ rw p (digest _)
    | inr p ↦ rw p (digest _)
  ]

  InLayers-Is32 : (x : Bytes) → InLayers layers x → Is32 x
  InLayers-Is32 x n = elim (InLayers-Origin x n) [
    | leaf i m at same ↦ rw same (digest m)
    | pair a b left right hashed same ↦ rw same (hash_sorted_pair-Is32 a b)
  ]

  -- If the hash of a pair is a node, both of the pair are nodes.
  pair-InLayers :
      (x s : Bytes)
      → Is32 x
      → Is32 s
      → IsHashed (pair_message x s)
      → InLayers layers (hash_sorted_pair sha256 x s)
      → InLayers layers x
  pair-InLayers x s hx hs hashed n = elim (InLayers-Origin _ n) [
    | leaf i m at same ↦
        let e : pair_message x s ≡ m =
          distinct _ _ hashed (hashed_payload i m at)
            (sym (hash_sorted_pair-message sha256 x s hx hs) ∙ same) in
        absurd (
          All-get_elem? IsLeafMessage payloads i leaf_sized at
            (ap length (sym e) ∙ length-pair_message x s hx hs))
    | pair a b left right other same ↦
        let ha = InLayers-Is32 a left in
        let hb = InLayers-Is32 b right in
        let e : pair_message x s ≡ pair_message a b = distinct _ _ hashed other (
          sym (hash_sorted_pair-message sha256 x s hx hs)
          ∙ same
          ∙ hash_sorted_pair-message sha256 a b ha hb) in
        elim (pair_message_inj x s a b hx hs ha hb e) [
          | inl (first, _) ↦ subst (InLayers layers) (sym first) left
          | inr (first, _) ↦ subst (InLayers layers) (sym first) right
        ]
  ]

  -- If a climb ends in a node it started from one.
  climb-InLayers :
      (x : Bytes) (proof : List Bytes)
      → Is32 x
      → All Is32 proof
      → ((y : Bytes) → HashedInClimb sha256 x proof y → IsHashed y)
      → InLayers layers (climb sha256 x proof)
      → InLayers layers x
  unfolding climb
  climb-InLayers x [] hx hp hashed n = n
  climb-InLayers x (s ∷ proof) hx (hs, hp) hashed n =
      pair-InLayers x s hx hs (hashed _ (inl refl)) (
        climb-InLayers (hash_sorted_pair sha256 x s) proof (hash_sorted_pair-Is32 x s) hp
          (λ y h. hashed y (inr h)) n)

  claimed-payload :
      (m : Bytes)
      → IsLeafMessage m
      → IsHashed m
      → InLayers layers (sha256 m)
      → (i : ℕ) × (get_elem? payloads i ≡ some m)
  claimed-payload m sized hashed n = elim (InLayers-Origin _ n) [
    | leaf i m' at same ↦
        (i, at ∙ ap some (sym (distinct _ _ hashed (hashed_payload i m' at) same)))
    | pair a b left right other same ↦
        let ha = InLayers-Is32 a left in
        let hb = InLayers-Is32 b right in
        let e : m ≡ pair_message a b =
          distinct _ _ hashed other (same ∙ hash_sorted_pair-message sha256 a b ha hb) in
        absurd (sized (ap length e ∙ length-pair_message a b ha hb))
  ]

module _ (sha256 : Bytes → Bytes) where
  -- If SHA-256 digests have 32 bytes, the tree is built over the digests of messages that are not 64
  -- bytes long, and no two different messages hashed by the build or by the check share a digest,
  -- then a proof of 32-byte hashes that the verifier accepts for a message that is not 64 bytes long
  -- shows that this message is one of those the tree was built over.
  pub verify_leaf_proof_sound :
      (payloads : List Bytes) (layers : List (List Bytes)) (root claimed : Bytes)
      (proof : List Bytes)
      → ((m : Bytes) → Is32 (sha256 m))
      → ((x y : Bytes)
          → Hashed sha256 payloads layers claimed proof x
          → Hashed sha256 payloads layers claimed proof y
          → sha256 x ≡ sha256 y
          → x ≡ y)
      → All IsLeafMessage payloads
      → IsLeafMessage claimed
      → All Is32 proof
      → build_sorted_pair_tree_layers sha256 (map sha256 payloads) ≡ ok layers
      → get_elem? (last_layer layers) 0 ≡ some root
      → verify_leaf_proof sha256 (sha256 claimed) proof root ≡ true
      → (i : ℕ) × (get_elem? payloads i ≡ some claimed)
  unfolding verify_leaf_proof
  verify_leaf_proof_sound payloads layers root claimed proof digest distinct sized claimed_sized hp
        built is_root accepted =
      let loop = build-loop sha256 (map sha256 payloads) layers built in
      let at_root : climb sha256 (sha256 claimed) proof ≡ root =
        eq_buffer_sound _ _ (ground arith) in
      claimed-payload sha256 digest payloads sized layers (suc (length (map sha256 payloads))) loop
        (Hashed sha256 payloads layers claimed proof) distinct (λ i y. as_payload i)
        (λ k l y. as_pair k l) claimed claimed_sized (as_claimed refl)
        (climb-InLayers sha256 digest payloads sized layers (suc (length (map sha256 payloads)))
          loop (Hashed sha256 payloads layers claimed proof) distinct (λ i y. as_payload i)
          (λ k l y. as_pair k l) (sha256 claimed) proof (digest claimed) hp (λ y h. as_step h)
          (subst (InLayers layers) (sym at_root) (last_layer-InLayers layers root is_root)))
