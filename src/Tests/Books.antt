-- ===== src/Tests/Books.antt =====
-- An order book account with one bid and one ask, and other bytes in the unused places.
use bell_markets.Prelude.{ℕ, ◌≡◌, arith, [], ◌∷◌, some, replicate, length-replicate}
use bell_markets.Bytes.{Bytes}
use bell_markets.OrderBook.{bid, ask, Order, OrderBookAccount}
use bell_markets.OrderBook.Decode.{decode_order_book}
use bell_markets.OrderBook.Layout.{encode_order_book}
use bell_markets.OrderBook.RoundTrip.{FitsBook, decode_order_book-encode_order_book}

abbrev test_bid : Order
test_bid = record { owner = replicate 32 5; price = 450000; size = 3000000; seq = 1; side = bid }

abbrev test_ask : Order
test_ask = record {
  owner = replicate 32 6;
  price = 550000;
  size = 18446744073709551615;
  seq = 2;
  side = ask;
}

abbrev test_book : OrderBookAccount
test_book = record {
  market = replicate 32 9;
  next_seq = 3;
  bids = test_bid ∷ [];
  asks = test_ask ∷ [];
  bump = 254;
}

-- The padding of an order, which is not the same everywhere.
abbrev test_padding : ℕ → Bytes
test_padding k = replicate 7 k

test_fits :
    FitsBook test_book
      (replicate 8 1)
      test_padding
      (replicate 8128 7)
      test_padding
      (replicate 8128 7)
      (replicate 11 0)
test_fits = record {
  discriminator_len = length-replicate {A = ℕ} 8 1;
  market = length-replicate {A = ℕ} 32 9;
  next_seq = omega arith;
  bids = (
    record {
      owner = length-replicate {A = ℕ} 32 5;
      price = omega arith;
      size = omega arith;
      seq = omega arith;
    },
    tt,
  );
  asks = (
    record {
      owner = length-replicate {A = ℕ} 32 6;
      price = omega arith;
      size = omega arith;
      seq = omega arith;
    },
    tt,
  );
  bid_paddings_len = λ k. length-replicate {A = ℕ} 7 k;
  ask_paddings_len = λ k. length-replicate {A = ℕ} 7 k;
  bids_len = omega arith;
  asks_len = omega arith;
  unused_bids_len = omega (arith, length-replicate {A = ℕ} 8128 7);
  unused_asks_len = omega (arith, length-replicate {A = ℕ} 8128 7);
  padding_len = length-replicate {A = ℕ} 11 0;
}

decode_order_book-encode_order_book_example :
    decode_order_book (
      encode_order_book test_book
        (replicate 8 1)
        test_padding
        (replicate 8128 7)
        test_padding
        (replicate 8128 7)
        (replicate 11 0))
    ≡ some test_book
decode_order_book-encode_order_book_example =
    decode_order_book-encode_order_book test_book (replicate 8 1) test_padding (replicate 8128 7)
      test_padding (replicate 8128 7) (replicate 11 0) test_fits
