-- ===== src/OrderBook/Layout.antt =====
-- The layout of an order book account, written out, and that decoding reads it back.
use bell_markets.Prelude.{
  ℕ, zero, suc, ◌+◌, ◌*◌, ◌^◌, ◌/◌, ◌<◌, ◌≡◌, refl, sym, ap, ap₂, ◌∙◌, arith, List, [], ◌∷◌, ◌++◌,
  none, some, length, take, drop, get_elem?, All,
}
use native.Mathlib.Nat.{pow-suc}
use bell_markets.Bytes.{Bytes, le_bytes}
use bell_markets.Bytes.Encoding.{length-le_bytes}
use bell_markets.OrderBook.{Side, bid, ask, Order, OrderBookAccount}
use bell_markets.OrderBook.Decode.{
  le_value, subarray, byte_at, side_of, decode_order, decode_ladder,
}

suc_plus : (m n : ℕ) → suc m + n ≡ suc (m + n)
suc_plus m n = omega arith

drop-empty : (k : ℕ) → drop {A = ℕ} k [] ≡ []
drop-empty zero = refl
drop-empty (suc k) = refl

pub drop-drop : (m n : ℕ) (xs : Bytes) → drop (m + n) xs ≡ drop n (drop m xs)
drop-drop zero n xs = ap (λ k. drop k xs) (omega arith)
drop-drop (suc m) n [] = drop-empty (suc m + n) ∙ sym (drop-empty n)
drop-drop (suc m) n (x ∷ xs) = ap (λ k. drop k (x ∷ xs)) (suc_plus m n) ∙ drop-drop m n xs

pub drop-front : (m : ℕ) (a b : Bytes) → length a ≡ m → drop m (a ++ b) ≡ b
drop-front m [] b e = let z : 0 ≡ m = omega arith in rw (← z) refl
drop-front zero (x ∷ a) b e = absurd (omega arith)
drop-front (suc m) (x ∷ a) b e = drop-front m a b (omega arith)

take-front : (m : ℕ) (a b : Bytes) → length a ≡ m → take m (a ++ b) ≡ a
take-front m [] b e = let z : 0 ≡ m = omega arith in rw (← z) refl
take-front zero (x ∷ a) b e = absurd (omega arith)
take-front (suc m) (x ∷ a) b e = ap (◌∷◌ x) (take-front m a b (omega arith))

get_elem?-empty : (n : ℕ) → none ≡ get_elem? {A = ℕ} [] n
get_elem?-empty n = refl

get_elem?-drop : (m n : ℕ) (xs : Bytes) → get_elem? xs (m + n) ≡ get_elem? (drop m xs) n
get_elem?-drop zero n xs = ap (get_elem? xs) (omega arith)
get_elem?-drop (suc m) n [] = get_elem?-empty n
get_elem?-drop (suc m) n (x ∷ xs) = ap (get_elem? (x ∷ xs)) (suc_plus m n) ∙ get_elem?-drop m n xs

-- A number that fits its bytes is read back from them.
le_value-le_bytes : (k n : ℕ) → n < 256 ^ k → le_value (le_bytes k n) ≡ n
unfolding le_value le_bytes
le_value-le_bytes zero n h = omega arith
le_value-le_bytes (suc k) n h =
    let e = pow-suc 256 k in omega (arith, le_value-le_bytes k (n / 256) (omega arith))

abbrev side_byte : Side → ℕ
side_byte bid = 0
side_byte ask = 1

-- An order's 64 bytes, in front of what follows: the last seven are padding, whatever it holds.
abbrev pub encode_order : Order → Bytes → Bytes → Bytes
encode_order order padding rest =
    order.owner
    ++ (le_bytes 8 order.price
        ++ (le_bytes 8 order.size
            ++ (le_bytes 8 order.seq ++ (side_byte order.side ∷ (padding ++ rest)))))

-- The orders of a ladder, the k-th with the k-th padding.
unfoldable pub encode_ladder : (ℕ → Bytes) → List Order → Bytes → Bytes
encode_ladder paddings [] rest = rest
encode_ladder paddings (order ∷ orders) rest =
    encode_order order (paddings 0) (encode_ladder (λ k. paddings (suc k)) orders rest)

-- The account, behind its discriminator: what stands in the unused places of the two ladders is
-- arbitrary, and so are the paddings of the orders and the one at the end.
unfoldable pub encode_order_book :
    OrderBookAccount → Bytes → (ℕ → Bytes) → Bytes → (ℕ → Bytes) → Bytes → Bytes → Bytes
encode_order_book book discriminator bid_paddings unused_bids ask_paddings unused_asks padding =
    discriminator
    ++ (book.market
        ++ (le_bytes 8 book.next_seq
            ++ encode_ladder bid_paddings book.bids (
                unused_bids
                ++ encode_ladder ask_paddings book.asks (
                    unused_asks
                    ++ (le_bytes 2 (length book.bids)
                        ++ (le_bytes 2 (length book.asks) ++ (book.bump ∷ padding)))))))

-- The values fit their fields.
pub record FitsOrder (order : Order) : Type 0 where
  pub owner : length order.owner ≡ 32
  pub price : order.price < 256 ^ 8
  pub size : order.size < 256 ^ 8
  pub seq : order.seq < 256 ^ 8

module _ (order : Order) (fits : FitsOrder order) (padding : Bytes) (seven : length padding ≡ 7)
    (rest : Bytes) where
  abbrev behind_owner : Bytes
  behind_owner =
      le_bytes 8 order.price
      ++ (le_bytes 8 order.size
          ++ (le_bytes 8 order.seq ++ (side_byte order.side ∷ (padding ++ rest))))

  abbrev behind_price : Bytes
  behind_price =
      le_bytes 8 order.size ++ (le_bytes 8 order.seq ++ (side_byte order.side ∷ (padding ++ rest)))

  abbrev behind_size : Bytes
  behind_size = le_bytes 8 order.seq ++ (side_byte order.side ∷ (padding ++ rest))

  abbrev behind_seq : Bytes
  behind_seq = side_byte order.side ∷ (padding ++ rest)

  drop-owner : drop 32 (encode_order order padding rest) ≡ behind_owner
  drop-owner = drop-front 32 order.owner behind_owner fits.owner

  drop-price : drop 40 (encode_order order padding rest) ≡ behind_price
  drop-price =
      drop-drop 32 8 (encode_order order padding rest)
      ∙ ap (drop 8) drop-owner
      ∙ drop-front 8 (le_bytes 8 order.price) behind_price (length-le_bytes 8 order.price)

  drop-size : drop 48 (encode_order order padding rest) ≡ behind_size
  drop-size =
      drop-drop 40 8 (encode_order order padding rest)
      ∙ ap (drop 8) drop-price
      ∙ drop-front 8 (le_bytes 8 order.size) behind_size (length-le_bytes 8 order.size)

  drop-seq : drop 56 (encode_order order padding rest) ≡ behind_seq
  drop-seq =
      drop-drop 48 8 (encode_order order padding rest)
      ∙ ap (drop 8) drop-size
      ∙ drop-front 8 (le_bytes 8 order.seq) behind_seq (length-le_bytes 8 order.seq)

  drop-order : drop 64 (encode_order order padding rest) ≡ rest
  drop-order =
      drop-drop 56 8 (encode_order order padding rest)
      ∙ ap (drop 8) drop-seq
      ∙ drop-front 7 padding rest seven

-- A field of `n` bytes at an offset from which the account is known.
pub subarray-at :
    (account : Bytes) (off n : ℕ) (field rest : Bytes)
    → drop off account ≡ field ++ rest
    → length field ≡ n
    → subarray account off n ≡ field
unfolding subarray
subarray-at account off n field rest e h = ap (take n) e ∙ take-front n field rest h

pub number-at :
    (account : Bytes) (off k n : ℕ) (rest : Bytes)
    → drop off account ≡ le_bytes k n ++ rest
    → n < 256 ^ k
    → le_value (subarray account off k) ≡ n
number-at account off k n rest e h =
    ap le_value (subarray-at account off k (le_bytes k n) rest e (length-le_bytes k n))
    ∙ le_value-le_bytes k n h

pub byte-at :
    (account : Bytes) (off b : ℕ) (rest : Bytes)
    → drop off account ≡ b ∷ rest
    → byte_at account off ≡ b
unfolding byte_at
byte-at account off b rest e =
    let here : get_elem? account off ≡ some b =
      ap (get_elem? account) (omega arith)
      ∙ get_elem?-drop off 0 account
      ∙ ap (λ s. get_elem? s 0) e in
    rw here refl

side_of-side_byte : (side : Side) → side_of (side_byte side) ≡ side
side_of-side_byte bid = refl
side_of-side_byte ask = refl

decode_order-encode_order :
    (account : Bytes) (off : ℕ) (order : Order) (padding rest : Bytes)
    → FitsOrder order
    → length padding ≡ 7
    → drop off account ≡ encode_order order padding rest
    → decode_order account off ≡ order
unfolding decode_order
decode_order-encode_order account off order padding rest fits seven e =
    let at = λ (k : ℕ). drop-drop off k account ∙ ap (drop k) e in
    rw
      (
        subarray-at account off 32 order.owner (behind_owner order fits padding seven rest) e
            fits.owner,
        number-at account (off + 32) 8 order.price (behind_price order fits padding seven rest)
            (at 32 ∙ drop-owner order fits padding seven rest) fits.price,
        number-at account (off + 40) 8 order.size (behind_size order fits padding seven rest)
            (at 40 ∙ drop-price order fits padding seven rest) fits.size,
        number-at account (off + 48) 8 order.seq (behind_seq order fits padding seven rest)
            (at 48 ∙ drop-size order fits padding seven rest) fits.seq,
        byte-at account (off + 56) (side_byte order.side) _
            (at 56 ∙ drop-seq order fits padding seven rest),
        side_of-side_byte order.side,
      )
      refl

-- A ladder is read back, and behind its places the account goes on.
pub decode_ladder-encode_ladder :
    (account : Bytes) (off : ℕ) (paddings : ℕ → Bytes) (orders : List Order) (rest : Bytes)
    → ((k : ℕ) → length (paddings k) ≡ 7)
    → All FitsOrder orders
    → drop off account ≡ encode_ladder paddings orders rest
    → (decode_ladder account off (length orders) ≡ orders)
      × (drop (off + 64 * length orders) account ≡ rest)
unfolding decode_ladder encode_ladder
decode_ladder-encode_ladder account off paddings [] rest seven _ e =
    (refl, ap (λ k. drop k account) (omega arith) ∙ e)
decode_ladder-encode_ladder account off paddings (order ∷ orders) rest seven (fits, all_fit) e =
    let others = λ (k : ℕ). paddings (suc k) in
    let behind =
      drop-drop off 64 account
      ∙ ap (drop 64) e
      ∙ drop-order order fits (paddings 0) (seven 0) (encode_ladder others orders rest) in
    let (reads, ends) =
      decode_ladder-encode_ladder account (off + 64) others orders rest (λ k. seven (suc k)) all_fit
        behind in
    (
      ap₂ ◌∷◌
          (decode_order-encode_order account off order (paddings 0)
            (encode_ladder others orders rest) fits (seven 0) e)
          reads,
      ap (λ k. drop k account) (omega arith) ∙ ends,
    )
