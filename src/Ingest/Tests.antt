-- ===== src/Ingest/Tests.antt =====
-- Runs of the websocket and of StreamProcessor on concrete frames.
use kalshi_copilot.Base.{ℕ, ◌≡◌, refl, false, true, none, some, List, [], ◌∷◌, select}
use kalshi_copilot.Base.Int.{ℤ, pos, ◌+ℤ◌}
use kalshi_copilot.Base.Text.{Text, codes, text_eq}
use kalshi_copilot.Base.Dict.{look_up}
use kalshi_copilot.Base.Outcome.{ok}
use kalshi_copilot.Domain.{yes_side}
use kalshi_copilot.Book.{
  OrderBook, level, apply_snapshot, apply_delta, parse_levels_from, mark_stale, new_book,
  sequence_gap,
}
use kalshi_copilot.Socket.{
  KalshiWebSocket, Body, snapshot_body, delta_body, Frame, data_frame, connect, send_subscriptions,
  handle_raw, check_seq, next_state,
}
use kalshi_copilot.Ingest.{Trade, BucketKey, same_bucket}
use kalshi_copilot.Ingest.Streams.{
  StreamProcessor, Consumer, receive, receive_all, reconnect, is_in, handle_each, handle,
  on_snapshot, on_delta, on_resync, maybe_record_book,
}
use kalshi_copilot.Ingest.Arrivals.{Sent, arrives, deliver, all_kept}
use kalshi_copilot.Ingest.Agreement.{SameBook}
use kalshi_copilot.Ingest.Ohlc.{add_rows, no_candles, bar, falls_in, add_rows-bar}
use kalshi_copilot.Ingest.Waiting.{IsCovered}
use kalshi_copilot.Ingest.Covered.{receive_all-resync_needed}
use kalshi_copilot.Ingest.Delivery.{deliver-SameBook}

abbrev market : Text
market = codes "KXA-1"

abbrev connected_socket : KalshiWebSocket
connected_socket = record { subscriptions = []; next_id = 2; sids = [] }

abbrev empty_processor : StreamProcessor
empty_processor = record {
  candles = no_candles 60;
  book_throttle = 1000000;
  books = [];
  last_book_write = [];
  tape_batch = [];
  book_batch = [];
  ticker_updates = [];
  stats = [];
  resync_needed = [];
}

abbrev consumer : Consumer
consumer = record { socket = connected_socket; processor = empty_processor }

abbrev first_snapshot : Body
first_snapshot = snapshot_body (some market) (level (pos 400000) (pos 500) ∷ []) []

abbrev more_size : Body
more_size =
    delta_body (some market)
      (record { price = some (pos 400000); delta = some (pos 100); side = some yes_side })

-- A first_snapshot arrives, a delta is lost, and a second first_snapshot arrives.
abbrev sent : List Sent
sent =
    record { body = first_snapshot; lost = false; now = 1000000 }
    ∷ record { body = more_size; lost = true; now = 2000000 }
    ∷ []

abbrev again : Sent
again = record { body = first_snapshot; lost = false; now = 3000000 }

-- A consumer whose book is a day old when its websocket connects anew.
abbrev old_book : OrderBook
old_book = record {
  yes_levels = (pos 700000, pos 100) ∷ [];
  no_levels = [];
  seq = some 900;
  stale = false;
  stale_reason = none;
  gap_count = 0;
}

abbrev old_consumer : Consumer
old_consumer = record {
  socket = connected_socket;
  processor = record empty_processor { books = (market, old_book) ∷ [] };
}

abbrev after_gap : Consumer
after_gap = arrives 1 3 (deliver 1 0 (reconnect old_consumer 0) sent) again

abbrev book_again : OrderBook
book_again = record {
  yes_levels = (pos 400000, pos 500) ∷ [];
  no_levels = [];
  seq = some 3;
  stale = false;
  stale_reason = none;
  gap_count = 2;
}

none-IsCovered : IsCovered consumer.processor
none-IsCovered t b h stale = cc

found_again : look_up text_eq market after_gap.processor.books ≡ some book_again
unfolding reconnect connect send_subscriptions receive handle_each handle_raw check_seq next_state
    handle on_snapshot apply_snapshot parse_levels_from on_delta on_resync maybe_record_book
    apply_delta mark_stale new_book
found_again = refl

deliver-SameBook_example :
    (b' : OrderBook) × (look_up text_eq market
        (arrives 1 3 (deliver 1 0 (reconnect old_consumer 0) (all_kept sent)) again).processor.books
      ≡ some b')
    × SameBook book_again b'
deliver-SameBook_example =
    deliver-SameBook old_consumer 0 1 0 sent again market book_again found_again refl

-- A first_snapshot, and a delta whose number leaves one out.
abbrev frames : List (Frame × ℕ)
frames =
    (data_frame (some 1) (some 1) first_snapshot, 1000000)
    ∷ (data_frame (some 1) (some 3) more_size, 2000000)
    ∷ []

abbrev book_lost : OrderBook
book_lost = record {
  yes_levels = (pos 400000, pos 500) ∷ [];
  no_levels = [];
  seq = some 1;
  stale = true;
  stale_reason = some sequence_gap;
  gap_count = 1;
}

no_exception : (receive_all consumer frames).1 ≡ ok tt
unfolding receive_all receive handle_each handle_raw check_seq next_state handle on_snapshot
    apply_snapshot parse_levels_from on_delta on_resync maybe_record_book apply_delta mark_stale
    new_book
no_exception = refl

lost_book : look_up text_eq market (receive_all consumer frames).0.processor.books ≡ some book_lost
unfolding receive_all receive handle_each handle_raw check_seq next_state handle on_snapshot
    apply_snapshot parse_levels_from on_delta on_resync maybe_record_book apply_delta mark_stale
    new_book
lost_book = refl

receive_all-resync_needed_example :
    is_in market (receive_all consumer frames).0.processor.resync_needed ≡ true
receive_all-resync_needed_example =
    receive_all-resync_needed consumer frames none-IsCovered no_exception market book_lost lost_book
      refl

abbrev print_at : ℕ → ℤ → Trade
print_at ts price = record {
  trade_id = none;
  ticker = market;
  ts = ts;
  yes_price = price;
  no_price = none;
  count = pos 100;
  taker_side = none;
}

abbrev prints : List Trade
prints =
    print_at 61000000 (pos 400000)
    ∷ print_at 65000000 (pos 450000)
    ∷ print_at 121000000 (pos 300000)
    ∷ []

abbrev first_minute : BucketKey
first_minute = (market, 60)

bars :
    bar (select (falls_in 60 first_minute) prints)
    ≡ some (record {
      open_price = pos 400000;
      high = pos 450000;
      low = pos 400000;
      close = pos 450000;
      volume = pos 200;
      trades = 2;
    })
unfolding ◌+ℤ◌
bars = refl

add_rows-bar_example :
    look_up same_bucket first_minute (add_rows (no_candles 60) prints).open_candles
    ≡ bar (select (falls_in 60 first_minute) prints)
add_rows-bar_example = add_rows-bar 60 prints first_minute
