-- ===== src/Merkle/Layers.antt =====
-- The loop over the layers, one round at a time, and how a node and its sibling make the node above.
use bell_markets.Prelude.{
  ℕ, zero, suc, ◌+◌, ◌/◌, ◌<◌, ◌≤◌, ◌≡◌, refl, ◌∙◌, ◌⊎◌, inl, inr, List, [], ◌∷◌, some, length,
  get_elem?, ltb, ltb→lt, Bool-cases, arith,
}
use bell_markets.Prelude.Result.{Result, ok, throw}
use bell_markets.Bytes.{Bytes}
use bell_markets.Bytes.Order.{le_buffer_total, le_buffer_antisymm}
use bell_markets.Merkle.{
  TreeError, sibling_index, sibling, hash_sorted_pair, next_layer, layers_from,
  build_sorted_pair_tree_layers,
}

module _ (sha256 : Bytes → Bytes) where
  pub hash_sorted_pair_comm :
      (a b : Bytes) → hash_sorted_pair sha256 a b ≡ hash_sorted_pair sha256 b a
  unfolding hash_sorted_pair
  hash_sorted_pair_comm a b = ground (arith, le_buffer_total a b, le_buffer_antisymm a b)

  pub length-next_layer : (l : List Bytes) → length (next_layer sha256 l) ≡ (length l + 1) / 2
  unfolding next_layer
  length-next_layer [] = omega arith
  length-next_layer (a ∷ []) = omega arith
  length-next_layer (a ∷ b ∷ rest) = omega (arith, length-next_layer rest)

  sibling_index-suc : (i : ℕ) → sibling_index (suc (suc i)) ≡ suc (suc (sibling_index i))
  unfolding sibling_index
  sibling_index-suc i = ground arith

  sibling-suc :
      (b c : Bytes) (r : List Bytes) (i : ℕ) → sibling (b ∷ c ∷ r) (suc (suc i)) ≡ sibling r i
  unfolding sibling
  sibling-suc b c r i = rw (sibling_index-suc i)

  -- A node hashed with its sibling is the node above.
  pub hash-sibling :
      (l : List Bytes) (i : ℕ) (a : Bytes)
      → get_elem? l i ≡ some a
      → (s : Bytes) × (sibling l i ≡ some s)
        × (get_elem? (next_layer sha256 l) (i / 2) ≡ some (hash_sorted_pair sha256 a s))
  unfolding next_layer sibling
  hash-sibling [] i a e = cc
  hash-sibling (b ∷ []) zero a e = (b, refl, ground arith)
  hash-sibling (b ∷ []) (suc i) a e = cc
  hash-sibling (b ∷ c ∷ r) zero a e = (c, refl, ground arith)
  hash-sibling (b ∷ c ∷ r) (suc zero) a e = (b, refl, ground (arith, hash_sorted_pair_comm b c))
  hash-sibling (b ∷ c ∷ r) (suc (suc i)) a e =
      let (s, found, above) = hash-sibling r i a e in
      let half : suc (suc i) / 2 ≡ suc (i / 2) = omega arith in
      (s, sibling-suc b c r i ∙ found, rw half above)

  -- With more fuel than nodes the loop ends.
  pub layers_from-ok :
      (fuel : ℕ) (current : List Bytes)
      → length current < fuel
      → (layers : List (List Bytes)) × (layers_from sha256 fuel current ≡ ok layers)
  unfolding layers_from
  layers_from-ok zero current h = absurd (omega arith)
  layers_from-ok (suc fuel) current h = elim (Bool-cases (ltb 1 (length current))) [
    | inl more ↦
        let (layers, built) =
          layers_from-ok fuel (next_layer sha256 current)
            (ground (arith, length-next_layer current)) in
        (current ∷ layers, rw (more, built) refl)
    | inr done ↦ (current ∷ [], rw done)
  ]

  -- One round of the loop: it stops at this layer, or goes on with the next one.
  pub layers_from-cases :
      (fuel : ℕ) (current : List Bytes) (layers : List (List Bytes))
      → layers_from sha256 (suc fuel) current ≡ ok layers
      → ((length current ≤ 1) × (layers ≡ current ∷ []))
        ⊎ ((rest : List (List Bytes)) × (1 < length current)
            × (layers_from sha256 fuel (next_layer sha256 current) ≡ ok rest)
            × (layers ≡ current ∷ rest))
  unfolding layers_from
  layers_from-cases fuel current layers e = elim (Bool-cases (ltb 1 (length current))) [
    | inr done ↦ inl (ground arith, ground arith)
    | inl more ↦ inr (
        go (ltb→lt _ _ more) (layers_from sha256 fuel (next_layer sha256 current)) refl
          (rw (more, layers_from) at e))
  ]
    where
      go :
          1 < length current
          → (r : Result TreeError (List (List Bytes)))
          → layers_from sha256 fuel (next_layer sha256 current) ≡ r
          → elim r [ ok ls ↦ ok (current ∷ ls) | throw x ↦ throw x ] ≡ ok layers
          → (rest : List (List Bytes)) × (1 < length current)
            × (layers_from sha256 fuel (next_layer sha256 current) ≡ ok rest)
            × (layers ≡ current ∷ rest)
      go many (ok ls) built e = (ls, many, built, ground arith)
      go many (throw x) built e = cc

  pub layers_from-first :
      (fuel : ℕ) (current : List Bytes) (layers : List (List Bytes))
      → layers_from sha256 fuel current ≡ ok layers
      → (rest : List (List Bytes)) × (layers ≡ current ∷ rest)
  unfolding layers_from
  layers_from-first zero current layers e = cc
  layers_from-first (suc fuel) current layers e = elim (layers_from-cases fuel current layers e) [
    | inl (_, whole) ↦ ([], whole)
    | inr (rest, _, _, whole) ↦ (rest, whole)
  ]

  -- A build that succeeds ran the loop.
  pub build-loop :
      (leaves : List Bytes) (layers : List (List Bytes))
      → build_sorted_pair_tree_layers sha256 leaves ≡ ok layers
      → layers_from sha256 (suc (length leaves)) leaves ≡ ok layers
  unfolding build_sorted_pair_tree_layers
  build-loop [] layers e = cc
  build-loop (a ∷ leaves) layers e = ground arith
