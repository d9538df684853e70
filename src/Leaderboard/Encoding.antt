-- ===== src/Leaderboard/Encoding.antt =====
-- A claim's message has 50 bytes and determines every field of the claim.
use bell_markets.Prelude.{
  ℕ, ◌^◌, ◌<◌, ◌≡◌, refl, sym, ap, ◌∙◌, [], ◌∷◌, ◌++◌, length, length-append, arith,
}
use mathlib.Core.List.{append-nil}
use bell_markets.Bytes.{Bytes, copy_at, le_bytes}
use bell_markets.Bytes.Encoding.{
  copy_at-field, append_inj_back, length-le_bytes, le_bytes_injective,
}
use bell_markets.Leaderboard.Leaf.{leaf_message}

-- The fields of the message, one behind the other.
abbrev fields : Bytes → ℕ → ℕ → ℕ → ℕ → Bytes
fields r p id t a = (((r ++ p ∷ []) ++ le_bytes 8 id) ++ t ∷ []) ++ le_bytes 8 a

leaf_message-fields :
    (r : Bytes) (p id t a : ℕ) → length r ≡ 32 → leaf_message r p id t a ≡ fields r p id t a
unfolding leaf_message
leaf_message-fields r p id t a h =
    let b1 : Bytes = r ++ p ∷ [] in
    let b2 : Bytes = b1 ++ le_bytes 8 id in
    let b3 : Bytes = b2 ++ t ∷ [] in
    let h1 : length b1 ≡ 33 = omega (arith, h, length-append r (p ∷ [])) in
    let h2 : length b2 ≡ 41 =
      omega (arith, h1, length-append b1 (le_bytes 8 id), length-le_bytes 8 id) in
    let h3 : length b3 ≡ 42 = omega (arith, h2, length-append b2 (t ∷ [])) in
    let e0 = copy_at-field [] r 50 18 0 refl (omega (arith, h)) in
    let e1 = ap (λ b. copy_at b 32 (p ∷ [])) e0 ∙ copy_at-field r (p ∷ []) 18 17 32 (sym h) refl in
    let e2 =
      ap (λ b. copy_at b 33 (le_bytes 8 id)) e1
      ∙ copy_at-field b1 (le_bytes 8 id) 17 9 33 (sym h1) (omega (arith, length-le_bytes 8 id)) in
    let e3 = ap (λ b. copy_at b 41 (t ∷ [])) e2 ∙ copy_at-field b2 (t ∷ []) 9 8 41 (sym h2) refl in
    ap (λ b. copy_at b 42 (le_bytes 8 a)) e3
    ∙ copy_at-field b3 (le_bytes 8 a) 8 0 42 (sym h3) (omega (arith, length-le_bytes 8 a))
    ∙ append-nil (b3 ++ le_bytes 8 a)

pub length-leaf_message :
    (r : Bytes) (p id t a : ℕ) → length r ≡ 32 → length (leaf_message r p id t a) ≡ 50
length-leaf_message r p id t a h =
    ap length (leaf_message-fields r p id t a h)
    ∙ omega (
      arith,
      h,
      length-append r (p ∷ []),
      length-append (r ++ p ∷ []) (le_bytes 8 id),
      length-append ((r ++ p ∷ []) ++ le_bytes 8 id) (t ∷ []),
      length-append (((r ++ p ∷ []) ++ le_bytes 8 id) ++ t ∷ []) (le_bytes 8 a),
      length-le_bytes 8 id,
      length-le_bytes 8 a,
    )

pub record SameFields (r r' : Bytes) (p p' id id' t t' a a' : ℕ) : Type 0 where
  pub recipient : r ≡ r'
  pub position : p ≡ p'
  pub period_id : id ≡ id'
  pub period_type : t ≡ t'
  pub amount : a ≡ a'

-- Two messages with 32-byte recipients and 64-bit numbers are equal only if all five fields are.
pub leaf_message_injective :
    (r r' : Bytes) (p p' id id' t t' a a' : ℕ)
    → length r ≡ 32
    → length r' ≡ 32
    → id < 2 ^ 64
    → id' < 2 ^ 64
    → a < 2 ^ 64
    → a' < 2 ^ 64
    → leaf_message r p id t a ≡ leaf_message r' p' id' t' a'
    → SameFields r r' p p' id id' t t' a a'
leaf_message_injective r r' p p' id id' t t' a a' h h' hi hi' ha ha' e =
    let whole =
      sym (leaf_message-fields r p id t a h) ∙ e ∙ leaf_message-fields r' p' id' t' a' h' in
    let (e3, amounts) =
      append_inj_back _ (le_bytes 8 a) _ (le_bytes 8 a')
        (length-le_bytes 8 a ∙ sym (length-le_bytes 8 a')) whole in
    let (e2, types) = append_inj_back _ (t ∷ []) _ (t' ∷ []) refl e3 in
    let (e1, ids) =
      append_inj_back _ (le_bytes 8 id) _ (le_bytes 8 id')
        (length-le_bytes 8 id ∙ sym (length-le_bytes 8 id')) e2 in
    let (e0, positions) = append_inj_back r (p ∷ []) r' (p' ∷ []) refl e1 in
    record {
      recipient = e0;
      position = ground arith;
      period_id = le_bytes_injective 8 id id' hi hi' ids;
      period_type = ground arith;
      amount = le_bytes_injective 8 a a' ha ha' amounts;
    }
