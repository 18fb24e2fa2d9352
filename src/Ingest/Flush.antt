-- ===== src/Ingest/Flush.antt =====
-- flush of StreamProcessor: the batches go to the tables and are emptied. The database accepts the
-- write; a chunk of 500 rows is not told apart from the rest.
use kalshi_copilot.Base.{
  ℕ, Bool, false, ◌&&◌, Option, none, some, List, [], ◌∷◌, ◌++◌, any, is_nil, or_else, ◌==◌,
  if◌then◌else◌,
}
use kalshi_copilot.Base.Text.{Text, codes, text_eq}
use kalshi_copilot.Base.Dict.{look_up, assign}
use kalshi_copilot.Socket.{TickerUpdate}
use kalshi_copilot.Ingest.{
  Trade, BucketKey, same_bucket, Candle, CandleBuilder, take_closed, take_all,
}
use kalshi_copilot.Ingest.Streams.{OrderbookSnap, StreamProcessor, tick}

-- The tables that a flush writes: of `markets`, the columns of a ticker update.
pub record MarketData : Type 0 where
  pub tape : List Trade
  pub candles : List (BucketKey × Candle)
  pub orderbook_snaps : List OrderbookSnap
  pub markets : List (Text × TickerUpdate)

-- The key `uq_tape_trade_id`, under which a missing id is equal to no other.
abbrev pub same_id : Option Text → Option Text → Bool
same_id (some a) (some b) = text_eq a b
same_id _ _ = false

abbrev pub same_trade : Trade → Trade → Bool
same_trade a b = same_id a.trade_id b.trade_id && a.ts == b.ts

-- `_insert_tape`: a row whose key is there already is left out.
unfoldable pub insert_tape : List Trade → List Trade → List Trade
insert_tape [] tape = tape
insert_tape (row ∷ rest) tape =
    insert_tape rest (if any (same_trade row) tape then tape else tape ++ row ∷ [])

-- A stored candle under a new one of its key: all but the opening price is overwritten.
abbrev pub overwritten : Option Candle → Candle → Candle
overwritten none new = new
overwritten (some old) new = record new { open_price = old.open_price }

-- `_insert_candles`
unfoldable pub insert_candles :
    List (BucketKey × Candle) → List (BucketKey × Candle) → List (BucketKey × Candle)
insert_candles [] stored = stored
insert_candles ((key, new) ∷ rest) stored =
    insert_candles rest
      (assign same_bucket key (overwritten (look_up same_bucket key stored) new) stored)

-- `coalesce(excluded.c, markets.c)`
abbrev pub coalesce {ℓ} : {A : Type ℓ} → Option A → Option A → Option A
coalesce none old = old
coalesce (some new) old = some new

abbrev pub coalesced : TickerUpdate → TickerUpdate → TickerUpdate
coalesced new old = record {
  last_price = coalesce new.last_price old.last_price;
  yes_bid = coalesce new.yes_bid old.yes_bid;
  yes_ask = coalesce new.yes_ask old.yes_ask;
  volume = coalesce new.volume old.volume;
  open_interest = coalesce new.open_interest old.open_interest;
  yes_bid_size = coalesce new.yes_bid_size old.yes_bid_size;
  yes_ask_size = coalesce new.yes_ask_size old.yes_ask_size;
}

abbrev pub no_columns : TickerUpdate
no_columns = record {
  last_price = none;
  yes_bid = none;
  yes_ask = none;
  volume = none;
  open_interest = none;
  yes_bid_size = none;
  yes_ask_size = none;
}

-- `_update_tickers`
unfoldable pub update_tickers :
    List (Text × TickerUpdate) → List (Text × TickerUpdate) → List (Text × TickerUpdate)
update_tickers [] markets = markets
update_tickers ((ticker, new) ∷ rest) markets = update_tickers rest (
    assign text_eq ticker (coalesced new (or_else (look_up text_eq ticker markets) no_columns))
      markets)

abbrev pub taken_candles : Bool → CandleBuilder → ℕ → CandleBuilder × List (BucketKey × Candle)
taken_candles final b now = if final then take_all b else take_closed b now

abbrev pub emptied : StreamProcessor → CandleBuilder → StreamProcessor
emptied p candles = record p {
  candles = candles;
  tape_batch = [];
  book_batch = [];
  ticker_updates = [];
}

abbrev pub written : StreamProcessor → List (BucketKey × Candle) → MarketData → MarketData
written p closed d = record {
  tape = insert_tape p.tape_batch d.tape;
  candles = insert_candles closed d.candles;
  orderbook_snaps = d.orderbook_snaps ++ p.book_batch;
  markets = update_tickers p.ticker_updates d.markets;
}

-- `not any((candles, tape, books, tickers))`
abbrev pub nothing_held : StreamProcessor → List (BucketKey × Candle) → Bool
nothing_held p closed =
    is_nil closed && (is_nil p.tape_batch && (is_nil p.book_batch && is_nil p.ticker_updates))

-- `flush`
unfoldable pub flush : Bool → ℕ → StreamProcessor → MarketData → StreamProcessor × MarketData
flush final now p d =
    let (candles, closed) = taken_candles final p.candles now in
    if nothing_held p closed
    then (emptied p candles, d)
    else (tick (codes "flushed") (emptied p candles), written p closed d)
