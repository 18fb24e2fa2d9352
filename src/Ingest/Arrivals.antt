-- ===== src/Ingest/Arrivals.antt =====
-- The websocket and its consumer together: what the arrival of a numbered frame does to the books.
use kalshi_copilot.Base.{
  ℕ, suc, ◌≡◌, refl, sym, ap, ◌∙◌, inl, inr, ◌<◌, Bool, true, false, Option, none, some, List, [],
  ◌∷◌, map, Option-cases, ◌==◌, ==_iff, arith, if◌then◌else◌,
}
use kalshi_copilot.Base.Text.{Text, text_eq}
use kalshi_copilot.Base.Dict.{look_up, assign, look_up-assign, look_up-on_values}
use kalshi_copilot.Base.Outcome.{Outcome, ok, raise}
use kalshi_copilot.Book.{BookError, StaleReason, sequence_gap, OrderBook, mark_stale}
use kalshi_copilot.Socket.{
  SidState, state_of, next_state, check_seq, Body, data_frame, resync, passed_on, after_check,
  handle_raw,
}
use kalshi_copilot.Ingest.Streams.{
  StreamProcessor, on_resync, handle, unless_raised, handle_each, Consumer, receive,
}
use kalshi_copilot.Ingest.Effects.{BookTable, ==-IsEquality, books_after, handle-books_after}
use kalshi_copilot.Ingest.Agreement.{Agree, SameFresh}

-- The last number that the websocket has seen on a subscription.
abbrev pub last_seen : Consumer → ℕ → Option ℕ
last_seen c sid = (state_of c.socket.sids sid).last_seq

-- A frame that the exchange sends on the subscription, and whether it is lost.
pub record Sent : Type 0 where
  pub body : Body
  pub lost : Bool
  pub now : ℕ

abbrev pub arrives : ℕ → ℕ → Consumer → Sent → Consumer
arrives sid n c s = (receive c (data_frame (some sid) (some n) s.body) s.now).0

-- The frames are numbered from the one after `n`.
abbrev pub deliver : ℕ → ℕ → Consumer → List Sent → Consumer
deliver sid n c [] = c
deliver sid n c (s ∷ rest) =
    deliver sid (suc n) (if s.lost then c else arrives sid (suc n) c s) rest

-- The same frames, none of them lost.
abbrev pub all_kept : List Sent → List Sent
all_kept = map (λ (s : Sent). record s { lost = false })

-- Every book is stale.
abbrev pub Untrusted : BookTable → Type 0
Untrusted A = (t : Text) (b : OrderBook) → look_up text_eq t A ≡ some b → b.stale ≡ true

pub Untrusted-SameFresh : (A B : BookTable) → Untrusted A → SameFresh A B
Untrusted-SameFresh A B u t = by_entry (look_up text_eq t A) (u t)
  where
    by_entry :
        (o : Option OrderBook)
        → ((b : OrderBook) → o ≡ some b → b.stale ≡ true)
        → Agree o (look_up text_eq t B)
    by_entry none h = tt
    by_entry (some b) h = λ fresh. let stale = h b refl in cc

pub on_resync-Untrusted : (p : StreamProcessor) (r : StaleReason) → Untrusted (on_resync p r).books
unfolding on_resync mark_stale
on_resync-Untrusted p r t b h =
    let entry = look_up-on_values text_eq (λ a. mark_stale a r) t p.books in
    elim (Option-cases (look_up text_eq t p.books)) [
      | inl absent ↦ let clash : none ≡ some b = sym (rw absent at entry) ∙ h in cc
      | inr (a, there) ↦
          let same : some (mark_stale a r) ≡ some b = sym (rw there at entry) ∙ h in cc
    ]

pub unless_raised-books :
    (p : StreamProcessor) (answer : Outcome BookError (Unit {0}))
    → (unless_raised p answer (p, ok tt)).0.books ≡ p.books
unless_raised-books p (raise e) = refl
unless_raised-books p (ok done) = refl

pub one_message :
    (p : StreamProcessor) (seq : Option ℕ) (body : Body) (now : ℕ)
    → (handle_each p (passed_on seq body ∷ []) now).0.books ≡ books_after body seq p.books
unfolding handle_each
one_message p seq body now =
    unless_raised-books _ (handle p (passed_on seq body) now).1 ∙ handle-books_after p seq body now

pub resync_first :
    (p : StreamProcessor) (seq : Option ℕ) (body : Body) (now : ℕ)
    → (handle_each p (resync sequence_gap ∷ passed_on seq body ∷ []) now).0.books
      ≡ books_after body seq (on_resync p sequence_gap).books
unfolding handle_each handle
resync_first p seq body now = one_message (on_resync p sequence_gap) seq body now

-- The books that the handling of the messages of one frame leaves.
pub handled-books :
    (p : StreamProcessor) (gap : Bool) (seq : Option ℕ) (body : Body) (now : ℕ)
    → (handle_each p (after_check gap seq body) now).0.books
      ≡ books_after body seq (if gap then (on_resync p sequence_gap).books else p.books)
handled-books p false seq body now = one_message p seq body now
handled-books p true seq body now = resync_first p seq body now

pub arrives-books :
    (sid n : ℕ) (c : Consumer) (s : Sent)
    → (arrives sid n c s).processor.books
      ≡ books_after s.body (some n) (
          if (next_state (state_of c.socket.sids sid) n).1
          then (on_resync c.processor sequence_gap).books
          else c.processor.books)
unfolding receive handle_raw check_seq
arrives-books sid n c s = handled-books c.processor _ (some n) s.body s.now

pub state_of-assign :
    (sid : ℕ) (st : SidState) (sids : List (ℕ × SidState))
    → state_of (assign ◌==◌ sid st sids) sid ≡ st
state_of-assign sid st sids =
    rw (look_up-assign ◌==◌ ==-IsEquality sid sid st sids, ==-IsEquality.reflexive sid) refl

pub arrives-last_seen :
    (sid n : ℕ) (c : Consumer) (s : Sent)
    → last_seen (arrives sid n c s) sid ≡ (next_state (state_of c.socket.sids sid) n).0.last_seq
unfolding receive handle_raw check_seq
arrives-last_seen sid n c s =
    ap (λ (st : SidState). st.last_seq)
      (state_of-assign sid (next_state (state_of c.socket.sids sid) n).0 c.socket.sids)

-- A number that comes first, or next.
pub next-none :
    (st : SidState) (n : ℕ)
    → st.last_seq ≡ none
    → ((next_state st n).1 ≡ false) × ((next_state st n).0.last_seq ≡ some n)
unfolding next_state
next-none st n h = rw h (refl, refl)

pub next-next :
    (st : SidState) (n : ℕ)
    → st.last_seq ≡ some n
    → ((next_state st (suc n)).1 ≡ false) × ((next_state st (suc n)).0.last_seq ≡ some (suc n))
unfolding next_state
next-next st n h = rw (h, (==_iff (suc n) (suc n)).1 refl) (refl, refl)

-- A number after a gap.
pub next-gap :
    (st : SidState) (m n : ℕ)
    → st.last_seq ≡ some m
    → suc m < n
    → ((next_state st n).1 ≡ true) × ((next_state st n).0.last_seq ≡ some n)
unfolding next_state
next-gap st m n h skipped = rw h (ground arith)

-- What an arrival does, without a gap and with one.
pub record Arrived (sid n : ℕ) (c : Consumer) (s : Sent) (trusted : BookTable) : Type 0 where
  pub seen : last_seen (arrives sid n c s) sid ≡ some n
  pub books : (arrives sid n c s).processor.books ≡ books_after s.body (some n) trusted

pub arrives_in_turn :
    (sid n : ℕ) (c : Consumer) (s : Sent)
    → ((next_state (state_of c.socket.sids sid) n).1 ≡ false)
      × ((next_state (state_of c.socket.sids sid) n).0.last_seq ≡ some n)
    → Arrived sid n c s c.processor.books
arrives_in_turn sid n c s (no_gap, last) = record {
  seen = arrives-last_seen sid n c s ∙ last;
  books =
      arrives-books sid n c s
      ∙ ap
          (λ (g : Bool).
            books_after s.body (some n)
              (if g then (on_resync c.processor sequence_gap).books else c.processor.books))
          no_gap;
}

pub arrives_after_gap :
    (sid n : ℕ) (c : Consumer) (s : Sent)
    → ((next_state (state_of c.socket.sids sid) n).1 ≡ true)
      × ((next_state (state_of c.socket.sids sid) n).0.last_seq ≡ some n)
    → Arrived sid n c s (on_resync c.processor sequence_gap).books
arrives_after_gap sid n c s (gap, last) = record {
  seen = arrives-last_seen sid n c s ∙ last;
  books =
      arrives-books sid n c s
      ∙ ap
          (λ (g : Bool).
            books_after s.body (some n)
              (if g then (on_resync c.processor sequence_gap).books else c.processor.books))
          gap;
}
