-- ===== src/Tests/Trees.antt =====
-- Trees over a stand-in for SHA-256: the length of the message, then its first 31 bytes.
use bell_markets.Prelude.{
  ℕ, suc, zero, ◌<◌, ◌≡◌, refl, subst, sym, ap, ◌∙◌, arith, ◌⊎◌, inl, inr, true, List, [], ◌∷◌,
  ◌++◌, some, length, get_elem?, replicate, map,
}
use bell_markets.Prelude.Result.{ok}
use bell_markets.Bytes.{Bytes, alloc, copy_at, le_buffer, eq_buffer}
use bell_markets.Bytes.Encoding.{length-copy_at}
use bell_markets.Base58.{bytes_to_base58, decode_pubkey}
use bell_markets.Base58.RoundTrip.{decode_pubkey-bytes_to_base58}
use bell_markets.Merkle.{
  hash_sorted_pair, next_layer, layers_from, build_sorted_pair_tree_layers, climb,
  verify_leaf_proof,
}
use mathlib.Core.Option.{some-injective}
use bell_markets.Merkle.Messages.{Is32, HashedInLayer}
use bell_markets.Merkle.Nodes.{Hashed, as_payload, as_claimed, as_pair, as_step}
use bell_markets.Merkle.Completeness.{IsProvable, build-IsProvable}
use bell_markets.Merkle.Soundness.{verify_leaf_proof_sound}

abbrev pub test_sha : Bytes → Bytes
test_sha m = copy_at (copy_at (alloc 32) 0 (length m ∷ [])) 1 m

pub test_sha-Is32 : (m : Bytes) → Is32 (test_sha m)
test_sha-Is32 m =
    length-copy_at (copy_at (alloc 32) 0 (length m ∷ [])) 1 m
    ∙ length-copy_at (alloc 32) 0 (length m ∷ [])

abbrev two_payloads : List Bytes
two_payloads = (1 ∷ []) ∷ (2 ∷ []) ∷ []

abbrev node : ℕ → ℕ → Bytes
node n b = n ∷ b ∷ replicate 30 0

abbrev two_root : Bytes
two_root = 64 ∷ 1 ∷ 1 ∷ replicate 29 0

abbrev two_layers : List (List Bytes)
two_layers = (node 1 1 ∷ node 1 2 ∷ []) ∷ (two_root ∷ []) ∷ []

two_built : build_sorted_pair_tree_layers test_sha (map test_sha two_payloads) ≡ ok two_layers
unfolding build_sorted_pair_tree_layers layers_from next_layer hash_sorted_pair le_buffer copy_at
two_built = refl

two_accepted : verify_leaf_proof test_sha (test_sha (1 ∷ [])) (node 1 2 ∷ []) two_root ≡ true
unfolding verify_leaf_proof climb hash_sorted_pair le_buffer eq_buffer copy_at
two_accepted = refl

build-IsProvable_example : IsProvable test_sha (node 1 1 ∷ node 1 2 ∷ node 1 3 ∷ []) 2 2 (node 1 3)
build-IsProvable_example =
    build-IsProvable test_sha (node 1 1 ∷ node 1 2 ∷ node 1 3 ∷ []) 2 2 (node 1 3) (omega arith)
      (omega arith) refl

-- The messages that are hashed: the two payloads and their pair.
two-Hashed :
    (x : Bytes)
    → Hashed test_sha two_payloads two_layers (1 ∷ []) (node 1 2 ∷ []) x
    → (x ≡ 1 ∷ []) ⊎ ((x ≡ 2 ∷ []) ⊎ (x ≡ node 1 1 ++ node 1 2))
unfolding copy_at le_buffer
two-Hashed x (as_payload zero at) = inl (sym (ground arith))
two-Hashed x (as_payload (suc zero) at) = inr (inl (sym (ground arith)))
two-Hashed x (as_payload (suc (suc i)) at) = cc
two-Hashed x (as_claimed e) = inl e
two-Hashed x (as_pair zero layer at wide hashed) =
    elim (subst (λ l. HashedInLayer test_sha l x) (sym (some-injective _ _ at)) hashed) [
      | inl e ↦ inr (inr e)
      | inr h ↦ absurd h
    ]
two-Hashed x (as_pair (suc zero) layer at wide hashed) =
    let narrow : 1 < 1 = subst (λ l. 1 < length l) (sym (some-injective _ _ at)) wide in
    absurd (omega (arith, narrow))
two-Hashed x (as_pair (suc (suc k)) layer at wide hashed) = cc
two-Hashed x (as_step (inl e)) = inr (inr e)
two-Hashed x (as_step (inr h)) = absurd h

two_same :
    (x y : Bytes)
    → (x ≡ 1 ∷ []) ⊎ ((x ≡ 2 ∷ []) ⊎ (x ≡ node 1 1 ++ node 1 2))
    → (y ≡ 1 ∷ []) ⊎ ((y ≡ 2 ∷ []) ⊎ (y ≡ node 1 1 ++ node 1 2))
    → test_sha x ≡ test_sha y
    → x ≡ y
unfolding copy_at
two_same x y (inl a) (inl b) e = a ∙ sym b
two_same x y (inl a) (inr (inl b)) e =
    let h : test_sha (1 ∷ []) ≡ test_sha (2 ∷ []) = ap test_sha (sym a) ∙ e ∙ ap test_sha b in cc
two_same x y (inl a) (inr (inr b)) e =
    let h : test_sha (1 ∷ []) ≡ test_sha (node 1 1 ++ node 1 2) =
      ap test_sha (sym a) ∙ e ∙ ap test_sha b in
    cc
two_same x y (inr (inl a)) (inl b) e =
    let h : test_sha (2 ∷ []) ≡ test_sha (1 ∷ []) = ap test_sha (sym a) ∙ e ∙ ap test_sha b in cc
two_same x y (inr (inl a)) (inr (inl b)) e = a ∙ sym b
two_same x y (inr (inl a)) (inr (inr b)) e =
    let h : test_sha (2 ∷ []) ≡ test_sha (node 1 1 ++ node 1 2) =
      ap test_sha (sym a) ∙ e ∙ ap test_sha b in
    cc
two_same x y (inr (inr a)) (inl b) e =
    let h : test_sha (node 1 1 ++ node 1 2) ≡ test_sha (1 ∷ []) =
      ap test_sha (sym a) ∙ e ∙ ap test_sha b in
    cc
two_same x y (inr (inr a)) (inr (inl b)) e =
    let h : test_sha (node 1 1 ++ node 1 2) ≡ test_sha (2 ∷ []) =
      ap test_sha (sym a) ∙ e ∙ ap test_sha b in
    cc
two_same x y (inr (inr a)) (inr (inr b)) e = a ∙ sym b

verify_leaf_proof_sound_example : (i : ℕ) × (get_elem? two_payloads i ≡ some (1 ∷ []))
verify_leaf_proof_sound_example =
    verify_leaf_proof_sound test_sha two_payloads two_layers two_root (1 ∷ []) (node 1 2 ∷ [])
      test_sha-Is32 (λ x y hx hy e. two_same x y (two-Hashed x hx) (two-Hashed y hy) e)
      (omega arith, (omega arith, tt)) (omega arith) (refl, tt) two_built refl two_accepted

-- The bytes 0 to 31.
abbrev test_key : Bytes
test_key =
    0 ∷ 1 ∷ 2 ∷ 3 ∷ 4 ∷ 5 ∷ 6 ∷ 7 ∷ 8 ∷ 9 ∷ 10 ∷ 11 ∷ 12 ∷ 13 ∷ 14 ∷ 15 ∷ 16 ∷ 17 ∷ 18 ∷ 19 ∷ 20
    ∷ 21 ∷ 22 ∷ 23 ∷ 24 ∷ 25 ∷ 26 ∷ 27 ∷ 28 ∷ 29 ∷ 30 ∷ 255 ∷ []

decode_pubkey-bytes_to_base58_example : decode_pubkey (bytes_to_base58 test_key) ≡ ok test_key
decode_pubkey-bytes_to_base58_example = decode_pubkey-bytes_to_base58 test_key (omega arith) refl
