-- ===== src/MetricTree/Encoding.antt =====
-- The message of a version 2 leaf has 47 bytes and determines all six fields.
use bell_markets.Prelude.{
  ℕ, ◌^◌, ◌<◌, ◌≡◌, refl, sym, ap, ◌∙◌, [], ◌∷◌, ◌++◌, length, length-append, arith,
}
use mathlib.Core.List.{append-nil}
use bell_markets.Bytes.{Bytes, copy_at, le_bytes}
use bell_markets.Bytes.Encoding.{
  copy_at-field, append_inj_back, length-le_bytes, le_bytes_injective,
}
use bell_markets.MetricTree.{leaf_message_v2}

-- The fields one behind the other, up to the amount, and then all.
abbrev amount_fields : Bytes → ℕ → ℕ → ℕ → Bytes
amount_fields recipient metric rank amount =
    ((recipient ++ metric ∷ []) ++ rank ∷ []) ++ le_bytes 8 amount

abbrev all_fields : Bytes → ℕ → ℕ → ℕ → ℕ → ℕ → Bytes
all_fields recipient metric rank amount id kind =
    (amount_fields recipient metric rank amount ++ le_bytes 4 id) ++ kind ∷ []

length-amount_fields :
    (recipient : Bytes) (metric rank amount : ℕ)
    → length recipient ≡ 32
    → length (amount_fields recipient metric rank amount) ≡ 42
length-amount_fields recipient metric rank amount h = omega (
  arith,
  h,
  length-append recipient (metric ∷ []),
  length-append (recipient ++ metric ∷ []) (rank ∷ []),
  length-append ((recipient ++ metric ∷ []) ++ rank ∷ []) (le_bytes 8 amount),
  length-le_bytes 8 amount,
)

leaf_message_v2-all_fields :
    (recipient : Bytes) (metric rank amount id kind : ℕ)
    → length recipient ≡ 32
    → leaf_message_v2 recipient metric rank amount id kind
      ≡ all_fields recipient metric rank amount id kind
unfolding leaf_message_v2
leaf_message_v2-all_fields recipient metric rank amount id kind h =
    let b1 : Bytes = recipient ++ metric ∷ [] in
    let b2 : Bytes = b1 ++ rank ∷ [] in
    let b3 : Bytes = amount_fields recipient metric rank amount in
    let b4 : Bytes = b3 ++ le_bytes 4 id in
    let h1 : length b1 ≡ 33 = omega (arith, h, length-append recipient (metric ∷ [])) in
    let h2 : length b2 ≡ 34 = omega (arith, h1, length-append b1 (rank ∷ [])) in
    let h3 : length b3 ≡ 42 = length-amount_fields recipient metric rank amount h in
    let h4 : length b4 ≡ 46 =
      omega (arith, h3, length-append b3 (le_bytes 4 id), length-le_bytes 4 id) in
    let e0 = copy_at-field [] recipient 47 15 0 refl (omega (arith, h)) in
    let e1 =
      ap (λ b. copy_at b 32 (metric ∷ [])) e0
      ∙ copy_at-field recipient (metric ∷ []) 15 14 32 (sym h) refl in
    let e2 =
      ap (λ b. copy_at b 33 (rank ∷ [])) e1 ∙ copy_at-field b1 (rank ∷ []) 14 13 33 (sym h1) refl in
    let e3 =
      ap (λ b. copy_at b 34 (le_bytes 8 amount)) e2
      ∙ copy_at-field b2 (le_bytes 8 amount) 13 5 34 (sym h2)
          (omega (arith, length-le_bytes 8 amount)) in
    let e4 =
      ap (λ b. copy_at b 42 (le_bytes 4 id)) e3
      ∙ copy_at-field b3 (le_bytes 4 id) 5 1 42 (sym h3) (omega (arith, length-le_bytes 4 id)) in
    ap (λ b. copy_at b 46 (kind ∷ [])) e4
    ∙ copy_at-field b4 (kind ∷ []) 1 0 46 (sym h4) refl
    ∙ append-nil (b4 ++ kind ∷ [])

pub record SameLeaf (recipient recipient' : Bytes)
    (metric metric' rank rank' amount amount' id id' kind kind' : ℕ) : Type 0 where
  pub same_recipient : recipient ≡ recipient'
  pub same_metric : metric ≡ metric'
  pub same_rank : rank ≡ rank'
  pub same_amount : amount ≡ amount'
  pub same_id : id ≡ id'
  pub same_kind : kind ≡ kind'

-- Two version 2 messages with 32-byte recipients, 64-bit amounts and 32-bit period ids are equal only
-- if all six fields are.
pub leaf_message_v2_injective :
    (recipient recipient' : Bytes) (metric metric' rank rank' amount amount' id id' kind kind' : ℕ)
    → length recipient ≡ 32
    → length recipient' ≡ 32
    → amount < 2 ^ 64
    → amount' < 2 ^ 64
    → id < 2 ^ 32
    → id' < 2 ^ 32
    → leaf_message_v2 recipient metric rank amount id kind
      ≡ leaf_message_v2 recipient' metric' rank' amount' id' kind'
    → SameLeaf recipient recipient' metric metric' rank rank' amount amount' id id' kind kind'
leaf_message_v2_injective recipient recipient' metric metric' rank rank' amount amount' id id' kind
      kind' h h' ha ha' hi hi' e =
    let whole =
      sym (leaf_message_v2-all_fields recipient metric rank amount id kind h)
      ∙ e
      ∙ leaf_message_v2-all_fields recipient' metric' rank' amount' id' kind' h' in
    let (e4, kinds) = append_inj_back _ (kind ∷ []) _ (kind' ∷ []) refl whole in
    let (e3, ids) =
      append_inj_back _ (le_bytes 4 id) _ (le_bytes 4 id')
        (length-le_bytes 4 id ∙ sym (length-le_bytes 4 id')) e4 in
    let (e2, amounts) =
      append_inj_back _ (le_bytes 8 amount) _ (le_bytes 8 amount')
        (length-le_bytes 8 amount ∙ sym (length-le_bytes 8 amount')) e3 in
    let (e1, ranks) = append_inj_back _ (rank ∷ []) _ (rank' ∷ []) refl e2 in
    let (e0, metrics) = append_inj_back recipient (metric ∷ []) recipient' (metric' ∷ []) refl e1 in
    record {
      same_recipient = e0;
      same_metric = ground (arith, metrics);
      same_rank = ground (arith, ranks);
      same_amount = le_bytes_injective 8 amount amount' ha ha' amounts;
      same_id = le_bytes_injective 4 id id' hi hi' ids;
      same_kind = ground (arith, kinds);
    }
