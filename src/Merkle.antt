-- ===== src/Merkle.antt =====
-- services/automation/src/indexer/merkle.ts, lines 185 to 253: the sorted-pair Merkle tree, its
-- inclusion proofs and their verifier. SHA-256 comes from node:crypto and is a parameter.
-- The layers are listed leaves first. The `while` over the last layer takes fuel, one unit for each
-- layer; `none` from a list index is JavaScript's `undefined`.
pub mod Layers
pub mod Completeness
pub mod Messages
pub mod Nodes
pub mod Soundness
use bell_markets.Prelude.{
  ℕ, zero, suc, ◌+◌, ◌-◌, ◌/◌, ◌%◌, Bool, true, false, List, [], ◌∷◌, Option, none, some, length,
  get_elem?, ltb, ◌==◌, if◌then◌else◌,
}
use bell_markets.Prelude.Result.{Result, ok, throw}
use bell_markets.Bytes.{Bytes, alloc, copy_at, le_buffer, eq_buffer}

pub data TreeError : Type 0 where
  no_leaves out_of_fuel : TreeError

abbrev pub merkle_proof_max_depth : ℕ
merkle_proof_max_depth = 16

-- `a ?? b`
abbrev pub or_else : Option Bytes → Option Bytes → Option Bytes
or_else none b = b
or_else (some a) b = some a

-- The index of the neighbour in a pair.
unfoldable pub sibling_index : ℕ → ℕ
sibling_index idx = if idx % 2 == 1 then idx - 1 else idx + 1

-- `layer[siblingIdx] ?? layer[idx]!`
unfoldable pub sibling : List Bytes → ℕ → Option Bytes
unfolding sibling_index
sibling layer idx = or_else (get_elem? layer (sibling_index idx)) (get_elem? layer idx)

-- `none` where a proof would hold an `undefined`.
unfoldable pub generate_sorted_pair_proof : List (List Bytes) → ℕ → Option (List Bytes)
unfolding sibling
generate_sorted_pair_proof [] idx = some []
generate_sorted_pair_proof (layer ∷ []) idx = some []
generate_sorted_pair_proof (layer ∷ next ∷ layers) idx = elim (sibling layer idx) [
  | none ↦ none
  | some s ↦ elim (generate_sorted_pair_proof (next ∷ layers) (idx / 2)) [
    | none ↦ none
    | some proof ↦ some (s ∷ proof)
  ]
]

-- `layers[layers.length - 1]`
abbrev pub last_layer : List (List Bytes) → List Bytes
last_layer [] = []
last_layer (layer ∷ []) = layer
last_layer (layer ∷ next ∷ layers) = last_layer (next ∷ layers)

module _ (sha256 : Bytes → Bytes) where
  unfoldable pub hash_sorted_pair : Bytes → Bytes → Bytes
  hash_sorted_pair a b =
      if le_buffer a b
      then sha256 (copy_at (copy_at (alloc 64) 0 a) 32 b)
      else sha256 (copy_at (copy_at (alloc 64) 0 b) 32 a)

  -- The `for` over one layer, two nodes a round; the orphan is paired with itself.
  unfoldable pub next_layer : List Bytes → List Bytes
  next_layer [] = []
  next_layer (a ∷ []) = hash_sorted_pair a a ∷ []
  next_layer (a ∷ b ∷ rest) = hash_sorted_pair a b ∷ next_layer rest

  -- The `while`, from the layer that was pushed last.
  unfoldable pub layers_from : ℕ → List Bytes → Result TreeError (List (List Bytes))
  layers_from zero current = throw out_of_fuel
  layers_from (suc fuel) current =
      let rest = layers_from fuel (next_layer current) in
      if ltb 1 (length current)
      then elim rest [ ok layers ↦ ok (current ∷ layers) | throw e ↦ throw e ]
      else ok (current ∷ [])

  unfoldable pub build_sorted_pair_tree_layers : List Bytes → Result TreeError (List (List Bytes))
  unfolding layers_from next_layer
  build_sorted_pair_tree_layers leaves =
      if length leaves == 0 then throw no_leaves else layers_from (suc (length leaves)) leaves

  -- The `for` over the proof.
  unfoldable pub climb : Bytes → List Bytes → Bytes
  climb computed [] = computed
  climb computed (s ∷ proof) = climb (hash_sorted_pair computed s) proof

  unfoldable pub verify_leaf_proof : Bytes → List Bytes → Bytes → Bool
  unfolding climb
  verify_leaf_proof leaf proof root =
      if ltb merkle_proof_max_depth (length proof) then false else eq_buffer (climb leaf proof) root
