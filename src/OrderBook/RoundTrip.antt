-- ===== src/OrderBook/RoundTrip.antt =====
-- Decoding an order book account gives the book that is laid out in it.
use bell_markets.Prelude.{
  ℕ, zero, suc, ◌+◌, ◌-◌, ◌*◌, ◌^◌, ◌≤◌, ◌<◌, ◌≡◌, refl, ap, ◌∙◌, arith, min, [], ◌∷◌, ◌++◌, some,
  length, drop, false, ltb, All,
}
use bell_markets.Bytes.{Bytes, le_bytes}
use bell_markets.Bytes.Encoding.{length-le_bytes}
use bell_markets.OrderBook.{OrderBookAccount}
use bell_markets.OrderBook.Decode.{
  le_value, subarray, decode_ladder, decode_order_book, order_book_len,
}
use bell_markets.OrderBook.Layout.{
  FitsOrder, encode_ladder, encode_order_book, drop-drop, drop-front, subarray-at, number-at,
  byte-at, decode_ladder-encode_ladder,
}

length-drop : (k : ℕ) (xs : Bytes) → length (drop k xs) ≡ length xs - k
length-drop zero xs = omega arith
length-drop (suc k) [] = omega arith
length-drop (suc k) (x ∷ xs) = omega (arith, length-drop k xs)

-- The parts of an account have the lengths of its layout.
pub record FitsBook (book : OrderBookAccount) (discriminator : Bytes) (bid_paddings : ℕ → Bytes)
    (unused_bids : Bytes) (ask_paddings : ℕ → Bytes) (unused_asks padding : Bytes) : Type 0 where
  pub discriminator_len : length discriminator ≡ 8
  pub market : length book.market ≡ 32
  pub next_seq : book.next_seq < 256 ^ 8
  pub bids : All FitsOrder book.bids
  pub asks : All FitsOrder book.asks
  pub bid_paddings_len : (k : ℕ) → length (bid_paddings k) ≡ 7
  pub ask_paddings_len : (k : ℕ) → length (ask_paddings k) ≡ 7
  pub bids_len : length book.bids ≤ 128
  pub asks_len : length book.asks ≤ 128
  pub unused_bids_len : length unused_bids + 64 * length book.bids ≡ 64 * 128
  pub unused_asks_len : length unused_asks + 64 * length book.asks ≡ 64 * 128
  pub padding_len : length padding ≡ 11

module _ (book : OrderBookAccount) (discriminator : Bytes) (bid_paddings : ℕ → Bytes)
    (unused_bids : Bytes) (ask_paddings : ℕ → Bytes) (unused_asks padding : Bytes)
    (fits : FitsBook book discriminator bid_paddings unused_bids ask_paddings unused_asks
      padding) where
  abbrev account : Bytes
  account =
      encode_order_book book discriminator bid_paddings unused_bids ask_paddings unused_asks padding

  abbrev behind_asks_len : Bytes
  behind_asks_len = book.bump ∷ padding

  abbrev behind_bids_len : Bytes
  behind_bids_len = le_bytes 2 (length book.asks) ++ behind_asks_len

  abbrev behind_asks : Bytes
  behind_asks = le_bytes 2 (length book.bids) ++ behind_bids_len

  abbrev behind_bids : Bytes
  behind_bids = encode_ladder ask_paddings book.asks (unused_asks ++ behind_asks)

  abbrev behind_next_seq : Bytes
  behind_next_seq = encode_ladder bid_paddings book.bids (unused_bids ++ behind_bids)

  abbrev behind_market : Bytes
  behind_market = le_bytes 8 book.next_seq ++ behind_next_seq

  at_market : drop 8 account ≡ book.market ++ behind_market
  unfolding encode_order_book
  at_market = drop-front 8 discriminator (book.market ++ behind_market) fits.discriminator_len

  at_next_seq : drop 40 account ≡ behind_market
  at_next_seq =
      drop-drop 8 32 account
      ∙ ap (drop 32) at_market
      ∙ drop-front 32 book.market behind_market fits.market

  at_bids : drop 48 account ≡ behind_next_seq
  at_bids =
      drop-drop 40 8 account
      ∙ ap (drop 8) at_next_seq
      ∙ drop-front 8 (le_bytes 8 book.next_seq) behind_next_seq (length-le_bytes 8 book.next_seq)

  abbrev bids_read :
      (decode_ladder account 48 (length book.bids) ≡ book.bids)
      × (drop (48 + 64 * length book.bids) account ≡ unused_bids ++ behind_bids)
  bids_read =
      decode_ladder-encode_ladder account 48 bid_paddings book.bids (unused_bids ++ behind_bids)
        fits.bid_paddings_len fits.bids at_bids

  at_asks : drop 8240 account ≡ behind_bids
  at_asks =
      ap (λ k. drop k account)
        (bids_end (length book.bids) (length unused_bids) fits.unused_bids_len)
      ∙ drop-drop (48 + 64 * length book.bids) (length unused_bids) account
      ∙ ap (drop (length unused_bids)) bids_read.1
      ∙ drop-front (length unused_bids) unused_bids behind_bids refl
    where
      bids_end : (n u : ℕ) → u + 64 * n ≡ 64 * 128 → 8240 ≡ (48 + 64 * n) + u
      bids_end n u e = omega arith

  abbrev asks_read :
      (decode_ladder account 8240 (length book.asks) ≡ book.asks)
      × (drop (8240 + 64 * length book.asks) account ≡ unused_asks ++ behind_asks)
  asks_read =
      decode_ladder-encode_ladder account 8240 ask_paddings book.asks (unused_asks ++ behind_asks)
        fits.ask_paddings_len fits.asks at_asks

  at_bids_len : drop 16432 account ≡ behind_asks
  at_bids_len =
      ap (λ k. drop k account)
        (asks_end (length book.asks) (length unused_asks) fits.unused_asks_len)
      ∙ drop-drop (8240 + 64 * length book.asks) (length unused_asks) account
      ∙ ap (drop (length unused_asks)) asks_read.1
      ∙ drop-front (length unused_asks) unused_asks behind_asks refl
    where
      asks_end : (n u : ℕ) → u + 64 * n ≡ 64 * 128 → 16432 ≡ (8240 + 64 * n) + u
      asks_end n u e = omega arith

  at_asks_len : drop 16434 account ≡ behind_bids_len
  at_asks_len =
      drop-drop 16432 2 account
      ∙ ap (drop 2) at_bids_len
      ∙ drop-front 2 (le_bytes 2 (length book.bids)) behind_bids_len
          (length-le_bytes 2 (length book.bids))

  at_bump : drop 16436 account ≡ behind_asks_len
  at_bump =
      drop-drop 16434 2 account
      ∙ ap (drop 2) at_asks_len
      ∙ drop-front 2 (le_bytes 2 (length book.asks)) behind_asks_len
          (length-le_bytes 2 (length book.asks))

  long_enough : length account ≡ 16448
  long_enough =
      let behind : length (drop 16436 account) ≡ suc (length padding) = ap length at_bump in
      omega (arith, length-drop 16436 account, fits.padding_len)

  count-of :
      (off n : ℕ) (rest : Bytes)
      → drop off account ≡ le_bytes 2 n ++ rest
      → n ≤ 128
      → min (le_value (subarray account off 2)) 128 ≡ n
  count-of off n rest e h = omega (arith, number-at account off 2 n rest e (omega arith))

-- Decoding an account that holds a book gives the book, whatever the bytes of the unused places of
-- the ladders, of the seven bytes of padding of each order and of the padding at the end are: if the keys have 32 bytes, the numbers fit 64 bits, each
-- ladder has at most 128 orders, and the parts have the lengths of the layout.
pub decode_order_book-encode_order_book :
    (book : OrderBookAccount) (discriminator : Bytes) (bid_paddings : ℕ → Bytes)
    (unused_bids : Bytes) (ask_paddings : ℕ → Bytes) (unused_asks padding : Bytes)
    → FitsBook book discriminator bid_paddings unused_bids ask_paddings unused_asks padding
    → decode_order_book (
        encode_order_book book discriminator bid_paddings unused_bids ask_paddings unused_asks
          padding)
      ≡ some book
unfolding decode_order_book
decode_order_book-encode_order_book book discriminator bid_paddings unused_bids ask_paddings
      unused_asks padding fits =
    let bytes =
      encode_order_book book discriminator bid_paddings unused_bids ask_paddings unused_asks
        padding in
    let long : ltb (length bytes) order_book_len ≡ false = not_short (length bytes) (
      long_enough book discriminator bid_paddings unused_bids ask_paddings unused_asks padding
        fits) in
    let bids =
      bids_read book discriminator bid_paddings unused_bids ask_paddings unused_asks padding fits in
    let asks =
      asks_read book discriminator bid_paddings unused_bids ask_paddings unused_asks padding fits in
    rw
      (
        long,
        subarray-at bytes 8 32 book.market _
            (at_market book discriminator bid_paddings unused_bids ask_paddings unused_asks padding
              fits)
            fits.market,
        number-at bytes 40 8 book.next_seq _
            (at_next_seq book discriminator bid_paddings unused_bids ask_paddings unused_asks
              padding fits)
            fits.next_seq,
        count-of book discriminator bid_paddings unused_bids ask_paddings unused_asks padding fits
            16432 (length book.bids) _
            (at_bids_len book discriminator bid_paddings unused_bids ask_paddings unused_asks
              padding fits)
            fits.bids_len,
        count-of book discriminator bid_paddings unused_bids ask_paddings unused_asks padding fits
            16434 (length book.asks) _
            (at_asks_len book discriminator bid_paddings unused_bids ask_paddings unused_asks
              padding fits)
            fits.asks_len,
        bids.0,
        asks.0,
        byte-at bytes 16436 book.bump padding (
            at_bump book discriminator bid_paddings unused_bids ask_paddings unused_asks padding
              fits),
      )
      refl
  where
    not_short : (n : ℕ) → n ≡ 16448 → ltb n order_book_len ≡ false
    not_short n e = ground arith
