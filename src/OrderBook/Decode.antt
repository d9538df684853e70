-- ===== src/OrderBook/Decode.antt =====
-- `decodeOrderBook` of apps/web/src/lib/solana/order-book.ts: the view of an order book account from its
-- bytes.
use bell_markets.Prelude.{
  ℕ, zero, suc, ◌+◌, ◌*◌, min, List, [], ◌∷◌, Option, none, some, length, take, drop, get_elem?,
  ltb, ◌==◌, if◌then◌else◌,
}
use bell_markets.Bytes.{Bytes}
use bell_markets.OrderBook.{Side, bid, ask, Order, OrderBookAccount}

-- `ORDERBOOK_N`, `ORDER_LEN` and `ORDER_BOOK_LEN`
abbrev pub orderbook_n : ℕ
orderbook_n = 128

abbrev pub order_len : ℕ
order_len = 64

abbrev pub order_book_len : ℕ
order_book_len = 16448

-- `MARKET_OFF`, `NEXT_SEQ_OFF` and the offsets behind them.
abbrev pub market_off : ℕ
market_off = 8

abbrev pub next_seq_off : ℕ
next_seq_off = market_off + 32

abbrev pub bids_off : ℕ
bids_off = next_seq_off + 8

abbrev pub asks_off : ℕ
asks_off = bids_off + order_len * orderbook_n

abbrev pub bids_len_off : ℕ
bids_len_off = asks_off + order_len * orderbook_n

abbrev pub asks_len_off : ℕ
asks_len_off = bids_len_off + 2

abbrev pub bump_off : ℕ
bump_off = asks_len_off + 2

-- The number whose little-endian bytes these are.
unfoldable pub le_value : Bytes → ℕ
le_value [] = 0
le_value (b ∷ bytes) = b + 256 * le_value bytes

-- `buf.subarray(off, off + n)`
unfoldable pub subarray : Bytes → ℕ → ℕ → Bytes
subarray buf off n = take n (drop off buf)

abbrev pub read_u64_le : Bytes → ℕ → ℕ
read_u64_le buf off = le_value (subarray buf off 8)

abbrev pub read_u16_le : Bytes → ℕ → ℕ
read_u16_le buf off = le_value (subarray buf off 2)

abbrev or_zero : Option ℕ → ℕ
or_zero none = 0
or_zero (some b) = b

-- `buf[off] ?? 0`
unfoldable pub byte_at : Bytes → ℕ → ℕ
byte_at buf off = or_zero (get_elem? buf off)

-- `sideByte === SIDE_ASK ? SIDE_ASK : SIDE_BID`
abbrev pub side_of : ℕ → Side
side_of side_byte = if side_byte == 1 then ask else bid

unfoldable pub decode_order : Bytes → ℕ → Order
decode_order buf off = record {
  owner = subarray buf off 32;
  price = read_u64_le buf (off + 32);
  size = read_u64_le buf (off + 40);
  seq = read_u64_le buf (off + 48);
  side = side_of (byte_at buf (off + 56));
}

-- The loop over a ladder, `count` orders from the offset on.
unfoldable pub decode_ladder : Bytes → ℕ → ℕ → List Order
decode_ladder account off zero = []
decode_ladder account off (suc count) =
    decode_order account off ∷ decode_ladder account (off + order_len) count

-- `decodeOrderBook`: `i < bidsLen && i < ORDERBOOK_N` is `i` below the lesser of the two.
unfoldable pub decode_order_book : Bytes → Option OrderBookAccount
decode_order_book account =
    if ltb (length account) order_book_len
    then none
    else (some (record {
      market = subarray account market_off 32;
      next_seq = read_u64_le account next_seq_off;
      bids = decode_ladder account bids_off (min (read_u16_le account bids_len_off) orderbook_n);
      asks = decode_ladder account asks_off (min (read_u16_le account asks_len_off) orderbook_n);
      bump = byte_at account bump_off;
    }))
