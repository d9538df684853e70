-- ===== src/OrderBook.antt =====
-- apps/web/src/lib/solana/order-book.ts: the order book view and `planFills`, the off-chain plan of the
-- fills of an incoming order. Sizes and prices are the u64 values of the book, as natural numbers; a
-- public key is the list of its bytes.
pub mod Fills
pub mod Best
pub mod Decode
pub mod Layout
pub mod RoundTrip
use bell_markets.Prelude.{
  ℕ, zero, suc, ◌+◌, ◌-◌, Bool, true, false, not, ◌&&◌, ◌||◌, List, [], ◌∷◌, ltb, leb, ◌==◌,
  if◌then◌else◌,
}
use bell_markets.Bytes.{Bytes}

-- `SIDE_BID = 0`, `SIDE_ASK = 1`
pub data Side : Type 0 where
  bid ask : Side

pub record Order : Type 0 where
  pub owner : Bytes
  pub price : ℕ
  pub size : ℕ
  pub seq : ℕ
  pub side : Side

pub record OrderBookAccount : Type 0 where
  pub market : Bytes
  pub next_seq : ℕ
  pub bids : List Order
  pub asks : List Order
  pub bump : ℕ

abbrev pub max_fills_per_place_order : ℕ
max_fills_per_place_order = 16

pub record PlannedFill : Type 0 where
  pub maker_index : ℕ
  pub maker_owner : Bytes
  pub maker_price : ℕ
  pub fill_size : ℕ

pub record PlanFillsResult : Type 0 where
  pub fills : List PlannedFill
  pub total_filled : ℕ
  pub remaining : ℕ

-- `side === SIDE_BID ? book.asks : book.bids`
unfoldable pub makers_of : OrderBookAccount → Side → List Order
makers_of book bid = book.asks
makers_of book ask = book.bids

-- `isMarket`, or the maker crosses the limit price.
unfoldable pub may_fill : Side → ℕ → Bool → Order → Bool
may_fill side price true maker = true
may_fill bid price false maker = leb maker.price price
may_fill ask price false maker = leb price maker.price

abbrev pub fill_of : ℕ → Order → ℕ → PlannedFill
fill_of i maker fill_size = record {
  maker_index = i;
  maker_owner = maker.owner;
  maker_price = maker.price;
  fill_size = fill_size;
}

-- The loop from index `i` on, with `count` fills made so far; what it adds to `fills` and
-- `totalFilled`, and the final `remaining`.
unfoldable pub plan_from : (Order → Bool) → ℕ → ℕ → ℕ → List Order → ℕ → PlanFillsResult
plan_from fillable max_fills i count [] remaining = record {
  fills = [];
  total_filled = 0;
  remaining = remaining;
}
plan_from fillable max_fills i count (maker ∷ makers) remaining =
    let fill_size = if ltb maker.size remaining then maker.size else remaining in
    let rest = plan_from fillable max_fills (i + 1) (count + 1) makers (remaining - fill_size) in
    if ltb count max_fills && ltb 0 remaining && fillable maker
    then record {
      fills = fill_of i maker fill_size ∷ rest.fills;
      total_filled = fill_size + rest.total_filled;
      remaining = rest.remaining;
    }
    else record { fills = []; total_filled = 0; remaining = remaining }

unfoldable pub plan_fills : OrderBookAccount → Side → ℕ → ℕ → Bool → ℕ → PlanFillsResult
plan_fills book side price size is_market max_fills =
    plan_from (may_fill side price is_market) max_fills 0 0 (makers_of book side) size
