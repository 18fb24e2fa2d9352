-- ===== src/Ingest/Streams.antt =====
-- StreamProcessor of backend/app/ingest/streams.py: the dispatch of the messages of the websocket to
-- the books, the candles and the batches. A handler returns the state also where it raises, since
-- what it has assigned stays assigned; the publication on Redis is left out.
use kalshi_copilot.Base.{
  ℕ, suc, ◌+◌, Bool, true, false, not, Option, none, some, List, [], ◌∷◌, ◌++◌, any, select,
  or_else, ltb, if◌then◌else◌,
}
use kalshi_copilot.Base.Text.{Text, codes, text_eq}
use kalshi_copilot.Base.Dict.{look_up, assign, on_values}
use kalshi_copilot.Base.Outcome.{Outcome, ok, raise}
use kalshi_copilot.Book.{
  Levels, WireLevel, DeltaMsg, StaleReason, OrderBook, BookError, new_book, apply_snapshot,
  apply_delta, mark_stale, top_n,
}
use kalshi_copilot.Socket.{
  KalshiWebSocket, RawTrade, TickerUpdate, trade_body, ticker_body, snapshot_body, delta_body,
  other_body, Frame, Message, resync, passed_on, connect, handle_raw,
}
use kalshi_copilot.Ingest.{
  Trade, filled_text, normalize_trade, normalize_ticker, CandleBuilder, add_trade,
}

-- A row of `orderbook_snaps`.
pub record OrderbookSnap : Type 0 where
  pub ticker : Text
  pub ts : ℕ
  pub seq : Option ℕ
  pub yes_side : Levels
  pub no_side : Levels

pub record StreamProcessor : Type 0 where
  pub candles : CandleBuilder
  pub book_throttle : ℕ
  pub books : List (Text × OrderBook)
  pub last_book_write : List (Text × ℕ)
  pub tape_batch : List Trade
  pub book_batch : List OrderbookSnap
  pub ticker_updates : List (Text × TickerUpdate)
  pub stats : List (Text × ℕ)
  pub resync_needed : List Text

-- `self.stats[name] += 1`
abbrev pub counted_in : Text → List (Text × ℕ) → List (Text × ℕ)
counted_in name stats = assign text_eq name (suc (or_else (look_up text_eq name stats) 0)) stats

abbrev pub tick : Text → StreamProcessor → StreamProcessor
tick name p = record p { stats = counted_in name p.stats }

-- A set of tickers: `in`, `add` and `discard`.
abbrev pub is_in : Text → List Text → Bool
is_in t set = any (text_eq t) set

abbrev pub add_to : Text → List Text → List Text
add_to t set = if is_in t set then set else t ∷ set

abbrev pub discard : Text → List Text → List Text
discard t set = select (λ u. not (text_eq t u)) set

abbrev pub add_each : List (Text × OrderBook) → List Text → List Text
add_each [] set = set
add_each ((t, b) ∷ rest) set = add_each rest (add_to t set)

-- `_on_resync`
unfoldable pub on_resync : StreamProcessor → StaleReason → StreamProcessor
on_resync p reason = tick (codes "resync") (record p {
  books = on_values text_eq (λ b. mark_stale b reason) p.books;
  resync_needed = add_each p.books p.resync_needed;
})

abbrev pub batched : Option Trade → StreamProcessor → StreamProcessor
batched none p = tick (codes "trade_dropped") p
batched (some row) p = record p {
  tape_batch = p.tape_batch ++ row ∷ [];
  candles = add_trade p.candles row.ticker row.ts row.yes_price row.count;
}

-- `_on_trade`
unfoldable pub on_trade : StreamProcessor → RawTrade → StreamProcessor
on_trade p raw = batched (normalize_trade raw) p

-- `_on_ticker`: the last update of a ticker wins.
abbrev pub noted : Option (Text × TickerUpdate) → StreamProcessor → StreamProcessor
noted none p = p
noted (some (ticker, update)) p = record p {
  ticker_updates = assign text_eq ticker update p.ticker_updates;
}

abbrev pub is_throttled : Option ℕ → ℕ → ℕ → Bool
is_throttled none throttle now = false
is_throttled (some last) throttle now = ltb now (last + throttle)

abbrev pub book_snapshot_depth : ℕ
book_snapshot_depth = 10

abbrev pub snap_of : Text → OrderBook → ℕ → OrderbookSnap
snap_of ticker b now = record {
  ticker = ticker;
  ts = now;
  seq = b.seq;
  yes_side = (top_n book_snapshot_depth b).0;
  no_side = (top_n book_snapshot_depth b).1;
}

-- `_maybe_record_book`
unfoldable pub maybe_record_book : Text → OrderBook → ℕ → StreamProcessor → StreamProcessor
maybe_record_book ticker b now p =
    if b.stale
    then p
    else if is_throttled (look_up text_eq ticker p.last_book_write) p.book_throttle now
    then p
    else record p {
      last_book_write = assign text_eq ticker now p.last_book_write;
      book_batch = p.book_batch ++ snap_of ticker b now ∷ [];
    }

abbrev pub Result : Type 0
Result = StreamProcessor × Outcome BookError (Unit {0})

abbrev pub hold : Text → OrderBook → StreamProcessor → StreamProcessor
hold ticker b p = record p { books = assign text_eq ticker b p.books }

abbrev pub after_snapshot :
    StreamProcessor → Text → ℕ → OrderBook × Outcome BookError (Unit {0}) → Result
after_snapshot p ticker now (b, raise e) = (hold ticker b p, raise e)
after_snapshot p ticker now (b, ok done) = (
  maybe_record_book ticker b now (record p {
    books = assign text_eq ticker b p.books;
    resync_needed = discard ticker p.resync_needed;
  }),
  ok tt,
)

-- `_on_snapshot`
unfoldable pub on_snapshot :
    StreamProcessor → Option Text → List WireLevel → List WireLevel → Option ℕ → ℕ → Result
on_snapshot p none raw_yes raw_no seq now = (p, ok tt)
on_snapshot p (some ticker) raw_yes raw_no seq now =
    after_snapshot p ticker now
      (apply_snapshot (or_else (look_up text_eq ticker p.books) new_book) raw_yes raw_no seq)

abbrev pub after_delta : StreamProcessor → Text → ℕ → OrderBook × Outcome BookError Bool → Result
after_delta p ticker now (b, raise e) = (hold ticker b p, raise e)
after_delta p ticker now (b, ok false) = (
  tick (codes "book_gap") (record p {
    books = assign text_eq ticker b p.books;
    resync_needed = add_to ticker p.resync_needed;
  }),
  ok tt,
)
after_delta p ticker now (b, ok true) = (maybe_record_book ticker b now (hold ticker b p), ok tt)

abbrev pub delta_on : StreamProcessor → Text → Option OrderBook → DeltaMsg → Option ℕ → ℕ → Result
delta_on p ticker none m seq now =
    (record p { resync_needed = add_to ticker p.resync_needed }, ok tt)
delta_on p ticker (some b) m seq now = after_delta p ticker now (apply_delta b m seq)

-- `_on_delta`
unfoldable pub on_delta : StreamProcessor → Option Text → DeltaMsg → Option ℕ → ℕ → Result
on_delta p none m seq now = (p, ok tt)
on_delta p (some ticker) m seq now = delta_on p ticker (look_up text_eq ticker p.books) m seq now

-- The counter of the type, unless the handler has raised.
abbrev pub tick_ok : Text → Result → Result
tick_ok name (p, raise e) = (p, raise e)
tick_ok name (p, ok done) = (tick name p, ok done)

-- `handle`; the updates of the two ticker channels share a counter here.
unfoldable pub handle : StreamProcessor → Message → ℕ → Result
handle p (resync reason) now = (on_resync p reason, ok tt)
handle p (passed_on seq (trade_body raw)) now = (tick (codes "trade") (on_trade p raw), ok tt)
handle p (passed_on seq (ticker_body market_ticker ticker u)) now =
    (tick (codes "ticker") (noted (normalize_ticker market_ticker ticker u) p), ok tt)
handle p (passed_on seq (snapshot_body ticker raw_yes raw_no)) now =
    tick_ok (codes "orderbook_snapshot") (on_snapshot p (filled_text ticker) raw_yes raw_no seq now)
handle p (passed_on seq (delta_body ticker m)) now =
    tick_ok (codes "orderbook_delta") (on_delta p (filled_text ticker) m seq now)
handle p (passed_on seq other_body) now = (tick (codes "ignored") p, ok tt)

-- What follows in a loop, unless its body has raised.
abbrev pub unless_raised :
    {S : Type 0}
    → S
    → Outcome BookError (Unit {0})
    → S × Outcome BookError (Unit {0})
    → S × Outcome BookError (Unit {0})
unless_raised s (raise e) on = (s, raise e)
unless_raised s (ok done) on = on

-- The messages of a frame in turn, up to the first that raises.
unfoldable pub handle_each : StreamProcessor → List Message → ℕ → Result
handle_each p [] now = (p, ok tt)
handle_each p (m ∷ rest) now =
    let (q, answer) = handle p m now in unless_raised q answer (handle_each q rest now)

-- The websocket and its consumer, which are run together.
pub record Consumer : Type 0 where
  pub socket : KalshiWebSocket
  pub processor : StreamProcessor

-- One frame through both, for `async for message in ws.stream(): await processor.handle(message)`.
unfoldable pub receive : Consumer → Frame → ℕ → Consumer × Outcome BookError (Unit {0})
receive c frame now =
    let (socket, messages) = handle_raw c.socket frame in
    let (processor, answer) = handle_each c.processor messages now in
    (record { socket = socket; processor = processor }, answer)

-- The loop over the frames of a connection, which ends where a handler raises.
unfoldable pub receive_all : Consumer → List (Frame × ℕ) → Consumer × Outcome BookError (Unit {0})
receive_all c [] = (c, ok tt)
receive_all c ((frame, now) ∷ rest) =
    let (d, answer) = receive c frame now in unless_raised d answer (receive_all d rest)

-- A connection: the socket forgets its sids, and the consumer is handed the marker.
unfoldable pub reconnect : Consumer → ℕ → Consumer
reconnect c now =
    let (socket, commands, messages) = connect c.socket in
    record { socket = socket; processor = (handle_each c.processor messages now).0 }
