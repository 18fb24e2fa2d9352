-- ===== src/Ingest/Covered.antt =====
-- Every handler of StreamProcessor keeps the stale books in resync_needed.
use kalshi_copilot.Base.{ℕ, ◌≡◌, refl, Bool, true, false, Option, none, some, List, [], ◌∷◌, arith}
use kalshi_copilot.Base.Text.{Text, text_eq}
use kalshi_copilot.Base.Dict.{look_up, assign}
use kalshi_copilot.Base.Outcome.{Outcome, ok, raise}
use kalshi_copilot.Book.{WireLevel, DeltaMsg, OrderBook, BookError, apply_delta}
use kalshi_copilot.Socket.{
  TickerUpdate, trade_body, ticker_body, snapshot_body, delta_body, other_body, Message, resync,
  passed_on, Frame, handle_raw,
}
use kalshi_copilot.Ingest.{Trade, filled_text, normalize_trade, normalize_ticker}
use kalshi_copilot.Ingest.Streams.{
  StreamProcessor, is_in, add_to, discard, batched, on_trade, noted, maybe_record_book,
  after_snapshot, on_snapshot, after_delta, delta_on, on_delta, tick_ok, handle, Result, hold,
  unless_raised, handle_each, Consumer, receive, receive_all,
}
use kalshi_copilot.Ingest.Waiting.{
  IsCovered, is_in-add_to, is_in-add_to_other, is_in-discard, assigned-AreCovered,
  on_resync-IsCovered, apply_snapshot-fresh, apply_delta-stays_fresh,
}

-- The parts of the state that the claim reads.
abbrev pub SameWait : StreamProcessor → StreamProcessor → Type 0
SameWait p q = (q.books ≡ p.books) × (q.resync_needed ≡ p.resync_needed)

SameWait-IsCovered : (p q : StreamProcessor) → SameWait p q → IsCovered p → IsCovered q
SameWait-IsCovered p q (books, waiting) h = rw (books, waiting) h

batched-SameWait : (row : Option Trade) (p : StreamProcessor) → SameWait p (batched row p)
batched-SameWait none p = (refl, refl)
batched-SameWait (some row) p = (refl, refl)

noted-SameWait : (u : Option (Text × TickerUpdate)) (p : StreamProcessor) → SameWait p (noted u p)
noted-SameWait none p = (refl, refl)
noted-SameWait (some u) p = (refl, refl)

maybe_record_book-SameWait :
    (t : Text) (b : OrderBook) (now : ℕ) (p : StreamProcessor)
    → SameWait p (maybe_record_book t b now p)
unfolding maybe_record_book
maybe_record_book-SameWait t b now p = (ground arith, ground arith)

recorded-IsCovered :
    (t : Text) (b : OrderBook) (now : ℕ) (p : StreamProcessor)
    → IsCovered p
    → IsCovered (maybe_record_book t b now p)
recorded-IsCovered t b now p h =
    SameWait-IsCovered p (maybe_record_book t b now p) (maybe_record_book-SameWait t b now p) h

after_snapshot-IsCovered :
    (p : StreamProcessor) (t : Text) (now : ℕ) (r : OrderBook × Outcome BookError (Unit {0}))
    → IsCovered p
    → (r.1 ≡ ok tt → r.0.stale ≡ false)
    → (after_snapshot p t now r).1 ≡ ok tt
    → IsCovered (after_snapshot p t now r).0
after_snapshot-IsCovered p t now (b, raise e) h fresh done = cc
after_snapshot-IsCovered p t now (b, ok u) h fresh done =
    recorded-IsCovered t b now
      (record p { books = assign text_eq t b p.books; resync_needed = discard t p.resync_needed })
      (assigned-AreCovered t b p.books p.resync_needed (discard t p.resync_needed) h
        (λ q apart there. is_in-discard q t p.resync_needed apart there)
        (λ stale. let no = fresh refl in cc))

after_delta-IsCovered :
    (p : StreamProcessor) (t : Text) (now : ℕ) (r : OrderBook × Outcome BookError Bool)
    → IsCovered p
    → (r.1 ≡ ok true → r.0.stale ≡ false)
    → (after_delta p t now r).1 ≡ ok tt
    → IsCovered (after_delta p t now r).0
after_delta-IsCovered p t now (b, raise e) h fresh done = cc
after_delta-IsCovered p t now (b, ok false) h fresh done =
    assigned-AreCovered t b p.books p.resync_needed (add_to t p.resync_needed) h
      (λ q apart there. is_in-add_to_other q t p.resync_needed there)
      (λ stale. is_in-add_to t p.resync_needed)
after_delta-IsCovered p t now (b, ok true) h fresh done = recorded-IsCovered t b now (hold t b p) (
    assigned-AreCovered t b p.books p.resync_needed p.resync_needed h (λ q apart there. there)
      (λ stale. let no = fresh refl in cc))

delta_on-IsCovered :
    (p : StreamProcessor) (t : Text) (o : Option OrderBook) (m : DeltaMsg) (seq : Option ℕ)
    (now : ℕ)
    → IsCovered p
    → (delta_on p t o m seq now).1 ≡ ok tt
    → IsCovered (delta_on p t o m seq now).0
delta_on-IsCovered p t none m seq now h done =
    λ q b there stale. is_in-add_to_other q t p.resync_needed (h q b there stale)
delta_on-IsCovered p t (some b) m seq now h done =
    after_delta-IsCovered p t now (apply_delta b m seq) h (apply_delta-stays_fresh b m seq) done

tick_ok-IsCovered :
    (name : Text) (r : Result)
    → (r.1 ≡ ok tt → IsCovered r.0)
    → (tick_ok name r).1 ≡ ok tt
    → IsCovered (tick_ok name r).0
tick_ok-IsCovered name (p, raise e) h done = cc
tick_ok-IsCovered name (p, ok u) h done = h refl

on_snapshot-IsCovered :
    (p : StreamProcessor) (ticker : Option Text) (y n : List WireLevel) (seq : Option ℕ) (now : ℕ)
    → IsCovered p
    → (on_snapshot p ticker y n seq now).1 ≡ ok tt
    → IsCovered (on_snapshot p ticker y n seq now).0
unfolding on_snapshot
on_snapshot-IsCovered p none y n seq now h done = h
on_snapshot-IsCovered p (some t) y n seq now h done =
    after_snapshot-IsCovered p t now _ h (apply_snapshot-fresh _ y n seq) done

on_delta-IsCovered :
    (p : StreamProcessor) (ticker : Option Text) (m : DeltaMsg) (seq : Option ℕ) (now : ℕ)
    → IsCovered p
    → (on_delta p ticker m seq now).1 ≡ ok tt
    → IsCovered (on_delta p ticker m seq now).0
unfolding on_delta
on_delta-IsCovered p none m seq now h done = h
on_delta-IsCovered p (some t) m seq now h done = delta_on-IsCovered p t _ m seq now h done

handle-IsCovered :
    (p : StreamProcessor) (m : Message) (now : ℕ)
    → IsCovered p
    → (handle p m now).1 ≡ ok tt
    → IsCovered (handle p m now).0
unfolding handle on_trade
handle-IsCovered p (resync reason) now h done = on_resync-IsCovered p reason
handle-IsCovered p (passed_on seq (trade_body raw)) now h done =
    SameWait-IsCovered p (batched (normalize_trade raw) p)
      (batched-SameWait (normalize_trade raw) p) h
handle-IsCovered p (passed_on seq (ticker_body a b u)) now h done =
    SameWait-IsCovered p (noted (normalize_ticker a b u) p)
      (noted-SameWait (normalize_ticker a b u) p) h
handle-IsCovered p (passed_on seq other_body) now h done = h
handle-IsCovered p (passed_on seq (snapshot_body ticker y n)) now h done =
    tick_ok-IsCovered _ _ (on_snapshot-IsCovered p (filled_text ticker) y n seq now h) done
handle-IsCovered p (passed_on seq (delta_body ticker m)) now h done =
    tick_ok-IsCovered _ _ (on_delta-IsCovered p (filled_text ticker) m seq now h) done

-- What holds at the end of a loop that does not raise.
after_loop :
    {S : Type 0} (P : S → Type 0) (s : S) (answer : Outcome BookError (Unit {0}))
    (on : S × Outcome BookError (Unit {0}))
    → (answer ≡ ok tt → on.1 ≡ ok tt → P on.0)
    → (unless_raised s answer on).1 ≡ ok tt
    → P (unless_raised s answer on).0
after_loop P s (raise e) on h done = cc
after_loop P s (ok u) on h done = h refl done

handle_each-IsCovered :
    (p : StreamProcessor) (ms : List Message) (now : ℕ)
    → IsCovered p
    → (handle_each p ms now).1 ≡ ok tt
    → IsCovered (handle_each p ms now).0
unfolding handle_each
handle_each-IsCovered p [] now h done = h
handle_each-IsCovered p (m ∷ rest) now h done =
    after_loop IsCovered (handle p m now).0 (handle p m now).1
      (handle_each (handle p m now).0 rest now)
      (λ handled rest_done.
        handle_each-IsCovered (handle p m now).0 rest now (handle-IsCovered p m now h handled)
          rest_done)
      done

receive-IsCovered :
    (c : Consumer) (frame : Frame) (now : ℕ)
    → IsCovered c.processor
    → (receive c frame now).1 ≡ ok tt
    → IsCovered (receive c frame now).0.processor
unfolding receive
receive-IsCovered c frame now h done =
    handle_each-IsCovered c.processor (handle_raw c.socket frame).1 now h done

receive_all-IsCovered :
    (c : Consumer) (frames : List (Frame × ℕ))
    → IsCovered c.processor
    → (receive_all c frames).1 ≡ ok tt
    → IsCovered (receive_all c frames).0.processor
unfolding receive_all
receive_all-IsCovered c [] h done = h
receive_all-IsCovered c ((frame, now) ∷ rest) h done =
    after_loop (λ (d : Consumer). IsCovered d.processor) (receive c frame now).0
      (receive c frame now).1 (receive_all (receive c frame now).0 rest)
      (λ handled rest_done.
        receive_all-IsCovered (receive c frame now).0 rest (receive-IsCovered c frame now h handled)
          rest_done)
      done

-- However many frames a consumer takes in without an exception, of any kind, with numbers missing or
-- repeated: if every stale book was in resync_needed before, every stale book is in it afterwards.
pub receive_all-resync_needed :
    (c : Consumer) (frames : List (Frame × ℕ))
    → IsCovered c.processor
    → (receive_all c frames).1 ≡ ok tt
    → (t : Text) (b : OrderBook)
    → look_up text_eq t (receive_all c frames).0.processor.books ≡ some b
    → b.stale ≡ true
    → is_in t (receive_all c frames).0.processor.resync_needed ≡ true
receive_all-resync_needed c frames h done = receive_all-IsCovered c frames h done
