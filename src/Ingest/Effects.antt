-- ===== src/Ingest/Effects.antt =====
-- What a message of the websocket does to the books that the processor holds.
use kalshi_copilot.Base.{
  ℕ, ◌≡◌, refl, inl, inr, Bool, true, false, Option, none, some, List, or_else, Option-cases, ◌==◌,
  ==_iff, arith,
}
use kalshi_copilot.Base.Text.{Text, text_eq, text_eq_sound, text_eq_refl}
use kalshi_copilot.Base.Dict.{IsEquality, look_up, assign}
use kalshi_copilot.Base.Outcome.{Outcome, ok, raise}
use kalshi_copilot.Book.{DeltaMsg, OrderBook, BookError, new_book, apply_snapshot, apply_delta}
use kalshi_copilot.Socket.{
  Body, trade_body, ticker_body, snapshot_body, delta_body, other_body, passed_on,
}
use kalshi_copilot.Ingest.{Trade, filled_text, normalize_trade, normalize_ticker}
use kalshi_copilot.Socket.{TickerUpdate}
use kalshi_copilot.Ingest.Streams.{
  StreamProcessor, batched, on_trade, noted, maybe_record_book, Result, after_snapshot, on_snapshot,
  after_delta, delta_on, on_delta, tick_ok, handle,
}

pub text_eq-IsEquality : IsEquality text_eq
text_eq-IsEquality = record { sound = text_eq_sound; reflexive = text_eq_refl }

pub ==-IsEquality : IsEquality ◌==◌
==-IsEquality = record { sound = λ j k h. (==_iff j k).0 h; reflexive = λ k. (==_iff k k).1 refl }

abbrev pub BookTable : Type 0
BookTable = List (Text × OrderBook)

-- The book of a ticker, by what it is before.
abbrev pub on_book : Text → Option OrderBook → (OrderBook → OrderBook) → BookTable → BookTable
on_book ticker none f books = books
on_book ticker (some b) f books = assign text_eq ticker (f b) books

abbrev pub books_after_ticker : Body → Option ℕ → Option Text → BookTable → BookTable
books_after_ticker body seq none books = books
books_after_ticker (snapshot_body _ y n) seq (some t) books =
    assign text_eq t (apply_snapshot (or_else (look_up text_eq t books) new_book) y n seq).0 books
books_after_ticker (delta_body _ m) seq (some t) books =
    on_book t (look_up text_eq t books) (λ b. (apply_delta b m seq).0) books
books_after_ticker _ seq (some t) books = books

abbrev pub ticker_of : Body → Option Text
ticker_of (snapshot_body ticker y n) = filled_text ticker
ticker_of (delta_body ticker m) = filled_text ticker
ticker_of _ = none

-- The books after a message, whatever is raised.
abbrev pub books_after : Body → Option ℕ → BookTable → BookTable
books_after body seq books = books_after_ticker body seq (ticker_of body) books

maybe_record_book-books :
    (t : Text) (b : OrderBook) (now : ℕ) (p : StreamProcessor)
    → (maybe_record_book t b now p).books ≡ p.books
unfolding maybe_record_book
maybe_record_book-books t b now p = ground arith

batched-books : (row : Option Trade) (p : StreamProcessor) → (batched row p).books ≡ p.books
batched-books none p = refl
batched-books (some row) p = refl

noted-books : (u : Option (Text × TickerUpdate)) (p : StreamProcessor) → (noted u p).books ≡ p.books
noted-books none p = refl
noted-books (some u) p = refl

tick_ok-books : (name : Text) (r : Result) → (tick_ok name r).0.books ≡ r.0.books
tick_ok-books name (p, raise e) = refl
tick_ok-books name (p, ok done) = refl

after_snapshot-books :
    (p : StreamProcessor) (t : Text) (now : ℕ) (r : OrderBook × Outcome BookError (Unit {0}))
    → (after_snapshot p t now r).0.books ≡ assign text_eq t r.0 p.books
after_snapshot-books p t now (b, raise e) = refl
after_snapshot-books p t now (b, ok done) = maybe_record_book-books t b now _

after_delta-books :
    (p : StreamProcessor) (t : Text) (now : ℕ) (r : OrderBook × Outcome BookError Bool)
    → (after_delta p t now r).0.books ≡ assign text_eq t r.0 p.books
after_delta-books p t now (b, raise e) = refl
after_delta-books p t now (b, ok false) = refl
after_delta-books p t now (b, ok true) = maybe_record_book-books t b now _

delta_on-books :
    (p : StreamProcessor) (t : Text) (o : Option OrderBook) (m : DeltaMsg) (seq : Option ℕ)
    (now : ℕ)
    → (delta_on p t o m seq now).0.books ≡ on_book t o (λ b. (apply_delta b m seq).0) p.books
delta_on-books p t none m seq now = refl
delta_on-books p t (some b) m seq now = after_delta-books p t now (apply_delta b m seq)

pub handle-books_after :
    (p : StreamProcessor) (seq : Option ℕ) (body : Body) (now : ℕ)
    → (handle p (passed_on seq body) now).0.books ≡ books_after body seq p.books
unfolding handle on_trade on_snapshot on_delta
handle-books_after p seq (trade_body raw) now = batched-books (normalize_trade raw) p
handle-books_after p seq (ticker_body a b u) now = noted-books (normalize_ticker a b u) p
handle-books_after p seq other_body now = refl
handle-books_after p seq (snapshot_body ticker y n) now = elim (Option-cases (filled_text ticker)) [
  | inl none_there ↦ rw none_there refl
  | inr (t, there) ↦ rw there (rw (tick_ok-books _ _) (after_snapshot-books p t now _))
]
handle-books_after p seq (delta_body ticker m) now = elim (Option-cases (filled_text ticker)) [
  | inl none_there ↦ rw none_there refl
  | inr (t, there) ↦ rw there (rw (tick_ok-books _ _) (delta_on-books p t _ m seq now))
]
