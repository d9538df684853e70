-- ===== src/Merkle/Completeness.antt =====
-- Every leaf's generated proof is accepted, and the tree is built for every non-empty list of leaves.
use bell_markets.Prelude.{
  ℕ, zero, suc, ◌+◌, ◌/◌, ◌^◌, ◌≤◌, ◌≡◌, refl, ap, sym, subst, ◌∙◌, inl, inr, true, List, [], ◌∷◌,
  some, length, get_elem?, arith,
}
use native.Mathlib.Nat.{pow-suc}
use bell_markets.Prelude.Result.{ok}
use bell_markets.Bytes.{Bytes}
use bell_markets.Bytes.Order.{eq_buffer_refl}
use bell_markets.Merkle.Layers.{
  length-next_layer, hash-sibling, layers_from-ok, layers_from-cases, layers_from-first,
}
use bell_markets.Merkle.{
  merkle_proof_max_depth, sibling, generate_sorted_pair_proof, last_layer, hash_sorted_pair,
  next_layer, layers_from, build_sorted_pair_tree_layers, climb, verify_leaf_proof,
}

-- What a run of the tree builder promises of its layers: they climb from the leaves to one root.
pub record ProvesLeaf (sha256 : Bytes → Bytes) (layers : List (List Bytes)) (i : ℕ) (leaf : Bytes)
    (depth : ℕ) : Type 0 where
  pub proof : List Bytes
  pub root : Bytes
  pub generated : generate_sorted_pair_proof layers i ≡ some proof
  pub is_root : last_layer layers ≡ root ∷ []
  pub climbs : climb sha256 leaf proof ≡ root
  pub short : length proof ≤ depth

module _ (sha256 : Bytes → Bytes) where
  proof-root :
      (leaf : Bytes) (layers : List (List Bytes)) (current : List Bytes)
      → layers ≡ current ∷ []
      → current ≡ leaf ∷ []
      → (depth : ℕ) → ProvesLeaf sha256 layers 0 leaf depth
  unfolding generate_sorted_pair_proof climb
  proof-root leaf layers current whole one depth = record {
    proof = [];
    root = leaf;
    generated = rw whole;
    is_root = rw whole one;
    climbs = refl;
    short = omega arith;
  }

  -- A proof for the node above extends to one for the node.
  proof-extend :
      {leaf s : Bytes} {i depth : ℕ} {current next : List Bytes} {rest : List (List Bytes)}
      → sibling current i ≡ some s
      → ProvesLeaf sha256 (next ∷ rest) (i / 2) (hash_sorted_pair sha256 leaf s) depth
      → ProvesLeaf sha256 (current ∷ next ∷ rest) i leaf (suc depth)
  unfolding generate_sorted_pair_proof climb
  proof-extend {s} found p = record {
    proof = s ∷ p.proof;
    root = p.root;
    generated = ground (arith, found, p.generated);
    is_root = p.is_root;
    climbs = p.climbs;
    short = omega (arith, p.short);
  }

  proof-stop :
      (l : List Bytes) (layers : List (List Bytes)) (i depth : ℕ) (leaf : Bytes)
      → length l ≤ 1
      → layers ≡ l ∷ []
      → get_elem? l i ≡ some leaf
      → ProvesLeaf sha256 layers i leaf depth
  proof-stop [] layers i depth leaf small whole found = cc
  proof-stop (a ∷ []) layers zero depth leaf small whole found =
      proof-root leaf layers (a ∷ []) whole (ground arith) depth
  proof-stop (a ∷ []) layers (suc i) depth leaf small whole found = cc
  proof-stop (a ∷ b ∷ l) layers i depth leaf small whole found = absurd (omega arith)

  half-le : (n d : ℕ) → n ≤ 2 ^ suc d → (n + 1) / 2 ≤ 2 ^ d
  half-le n d h = omega (arith, pow-suc 2 d)

  -- The proofs that the layers above give, carried over to this layer.
  proof-go :
      (d : ℕ) (current : List Bytes) (layers rest : List (List Bytes)) (i fuel : ℕ) (leaf : Bytes)
      → get_elem? current i ≡ some leaf
      → layers_from sha256 fuel (next_layer sha256 current) ≡ ok rest
      → layers ≡ current ∷ rest
      → ((node : Bytes)
          → get_elem? (next_layer sha256 current) (i / 2) ≡ some node
          → ProvesLeaf sha256 rest (i / 2) node d)
      → ProvesLeaf sha256 layers i leaf (suc d)
  proof-go d current layers rest i fuel leaf h built whole above =
      let (s, found, up) = hash-sibling sha256 current i leaf h in
      let (more, first) = layers_from-first sha256 fuel (next_layer sha256 current) rest built in
      let p : ProvesLeaf sha256 (next_layer sha256 current ∷ more) (i / 2)
          (hash_sorted_pair sha256 leaf s) d =
        subst (λ ls. ProvesLeaf sha256 ls (i / 2) (hash_sorted_pair sha256 leaf s) d) first
          (above _ up) in
      subst (λ ls. ProvesLeaf sha256 ls i leaf (suc d)) (sym (whole ∙ ap (◌∷◌ current) first))
        (proof-extend found p)

  -- By recursion on the fuel and the depth together.
  layers_from-ProvesLeaf :
      (fuel depth : ℕ) (current : List Bytes) (layers : List (List Bytes)) (i : ℕ) (leaf : Bytes)
      → layers_from sha256 fuel current ≡ ok layers
      → get_elem? current i ≡ some leaf
      → length current ≤ 2 ^ depth
      → ProvesLeaf sha256 layers i leaf depth
  unfolding layers_from
  layers_from-ProvesLeaf zero depth current layers i leaf e h k = cc
  layers_from-ProvesLeaf (suc fuel) zero current layers i leaf e h k =
      elim (layers_from-cases sha256 fuel current layers e) [
        | inl (small, whole) ↦ proof-stop current layers i zero leaf small whole h
        | inr (rest, many, built, whole) ↦ absurd (omega arith)
      ]
  layers_from-ProvesLeaf (suc fuel) (suc d) current layers i leaf e h k =
      elim (layers_from-cases sha256 fuel current layers e) [
        | inl (small, whole) ↦ proof-stop current layers i (suc d) leaf small whole h
        | inr (rest, many, built, whole) ↦
            let fits : length (next_layer sha256 current) ≤ 2 ^ d =
              rw (length-next_layer sha256 current) (half-le (length current) d k) in
            proof-go d current layers rest i fuel leaf h built whole (λ node up.
              layers_from-ProvesLeaf fuel d (next_layer sha256 current) rest (i / 2) node built up
                fits)
      ]

  verify_of_ProvesLeaf :
      {layers : List (List Bytes)} {i : ℕ} {leaf : Bytes} {depth : ℕ}
      (p : ProvesLeaf sha256 layers i leaf depth)
      → depth ≤ merkle_proof_max_depth
      → verify_leaf_proof sha256 leaf p.proof p.root ≡ true
  unfolding verify_leaf_proof
  verify_of_ProvesLeaf p d = ground (arith, p.climbs, p.short, eq_buffer_refl p.root)

-- A leaf of a tree whose generated proof the verifier accepts against the tree's single root.
pub record IsProvable (sha256 : Bytes → Bytes) (leaves : List Bytes) (i depth : ℕ) (leaf : Bytes)
    : Type 0 where
  pub layers : List (List Bytes)
  pub proof : List Bytes
  pub root : Bytes
  pub built : build_sorted_pair_tree_layers sha256 leaves ≡ ok layers
  pub is_root : last_layer layers ≡ root ∷ []
  pub generated : generate_sorted_pair_proof layers i ≡ some proof
  pub accepted : verify_leaf_proof sha256 leaf proof root ≡ true
  pub short : length proof ≤ depth

module _ (sha256 : Bytes → Bytes) where
  pub build-ok :
      (leaves : List Bytes)
      → 1 ≤ length leaves
      → (layers : List (List Bytes)) × (layers_from sha256 (suc (length leaves)) leaves ≡ ok layers)
        × (build_sorted_pair_tree_layers sha256 leaves ≡ ok layers)
  unfolding build_sorted_pair_tree_layers
  build-ok [] h = elim h [ ]
  build-ok (a ∷ leaves) h =
      let (layers, e) =
        layers_from-ok sha256 (suc (length (a ∷ leaves))) (a ∷ leaves) (omega arith) in
      (layers, e, ground (arith, e))

  pub nonempty :
      (leaves : List Bytes) (i : ℕ) {leaf : Bytes}
      → get_elem? leaves i ≡ some leaf
      → 1 ≤ length leaves
  nonempty [] i e = cc
  nonempty (a ∷ leaves) i e = omega arith

  -- For every list of at most 2^depth leaves, depth at most 16, and the leaf at every index of it:
  -- the tree is built, its last layer is a single root, a proof of at most `depth` hashes is
  -- generated, and the verifier accepts it against that root.
  pub build-IsProvable :
      (leaves : List Bytes) (i depth : ℕ) (leaf : Bytes)
      → depth ≤ merkle_proof_max_depth
      → length leaves ≤ 2 ^ depth
      → get_elem? leaves i ≡ some leaf
      → IsProvable sha256 leaves i depth leaf
  build-IsProvable leaves i depth leaf d h e =
      let (layers, loop, whole) = build-ok leaves (nonempty leaves i e) in
      let p =
        layers_from-ProvesLeaf sha256 (suc (length leaves)) depth leaves layers i leaf loop e h in
      record {
        layers = layers;
        proof = p.proof;
        root = p.root;
        built = whole;
        is_root = p.is_root;
        generated = p.generated;
        accepted = verify_of_ProvesLeaf sha256 p d;
        short = p.short;
      }
