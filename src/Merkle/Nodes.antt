-- ===== src/Merkle/Nodes.antt =====
-- The nodes of a tree's layers, and the messages that its build and a check hash.
use bell_markets.Prelude.{
  ℕ, zero, suc, ◌<◌, ◌≡◌, ◌≢◌, refl, inl, inr, List, [], ◌∷◌, some, length, get_elem?, arith, map,
}
use bell_markets.Prelude.Result.{ok}
use bell_markets.Bytes.{Bytes}
use bell_markets.Merkle.{last_layer, next_layer, layers_from}
use bell_markets.Merkle.Layers.{layers_from-cases, layers_from-first}
use bell_markets.Merkle.Messages.{HashedInLayer, HashedInClimb}

-- A node of some layer.
pub record InLayers (layers : List (List Bytes)) (x : Bytes) : Type 0 where
  pub level : ℕ
  pub layer : List Bytes
  pub index : ℕ
  pub layer_at : get_elem? layers level ≡ some layer
  pub node_at : get_elem? layer index ≡ some x

-- The messages hashed by the build of the tree over `payloads`, and by the check of `claimed`.
pub data Hashed (sha256 : Bytes → Bytes) (payloads : List Bytes) (layers : List (List Bytes))
    (claimed : Bytes) (proof : List Bytes) (y : Bytes) : Type 0 where
  as_payload :
      (i : ℕ) → get_elem? payloads i ≡ some y → Hashed sha256 payloads layers claimed proof y
  as_claimed : y ≡ claimed → Hashed sha256 payloads layers claimed proof y
  as_pair :
      (k : ℕ) (layer : List Bytes)
      → get_elem? layers k ≡ some layer
      → 1 < length layer
      → HashedInLayer sha256 layer y
      → Hashed sha256 payloads layers claimed proof y
  as_step :
      HashedInClimb sha256 (sha256 claimed) proof y → Hashed sha256 payloads layers claimed proof y

module _ (sha256 : Bytes → Bytes) where
  -- Every layer but the first is made from the one below it.
  pub layers_from-below :
      (fuel : ℕ) (current : List Bytes) (layers : List (List Bytes)) (k : ℕ) (up : List Bytes)
      → layers_from sha256 fuel current ≡ ok layers
      → get_elem? layers (suc k) ≡ some up
      → (down : List Bytes) × (get_elem? layers k ≡ some down)
        × (1 < length down)
        × (up ≡ next_layer sha256 down)
  unfolding layers_from
  layers_from-below zero current layers k up e h = cc
  layers_from-below (suc fuel) current layers zero up e h =
      elim (layers_from-cases sha256 fuel current layers e) [
        | inl (small, whole) ↦ absurd (ground arith)
        | inr (rest, many, built, whole) ↦
            let (more, first) =
              layers_from-first sha256 fuel (next_layer sha256 current) rest built in
            (current, ground arith, many, ground arith)
      ]
  layers_from-below (suc fuel) current layers (suc k) up e h =
      elim (layers_from-cases sha256 fuel current layers e) [
        | inl (small, whole) ↦ absurd (ground arith)
        | inr (rest, many, built, whole) ↦
            let (down, at, wide, above) =
              layers_from-below fuel (next_layer sha256 current) rest k up built (rw whole at h) in
            (down, rw whole at, wide, above)
      ]

pub last_layer-InLayers :
    (layers : List (List Bytes)) (root : Bytes)
    → get_elem? (last_layer layers) 0 ≡ some root
    → InLayers layers root
last_layer-InLayers [] root e = cc
last_layer-InLayers (l ∷ []) root e = record {
  level = 0;
  layer = l;
  index = 0;
  layer_at = refl;
  node_at = e;
}
last_layer-InLayers (l ∷ m ∷ rest) root e =
    let n = last_layer-InLayers (m ∷ rest) root e in
    record {
      level = suc n.level;
      layer = n.layer;
      index = n.index;
      layer_at = n.layer_at;
      node_at = n.node_at;
    }

pub get_elem?-map :
    (f : Bytes → Bytes) (xs : List Bytes) (i : ℕ) {y : Bytes}
    → get_elem? (map f xs) i ≡ some y
    → (x : Bytes) × (get_elem? xs i ≡ some x) × (y ≡ f x)
get_elem?-map f [] i e = cc
get_elem?-map f (x ∷ xs) zero e = (x, refl, ground arith)
get_elem?-map f (x ∷ xs) (suc i) e = get_elem?-map f xs i e

-- A message that a pair's message cannot be mistaken for.
abbrev pub IsLeafMessage : Bytes → Type 0
IsLeafMessage m = length m ≢ 64
