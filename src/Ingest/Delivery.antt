-- ===== src/Ingest/Delivery.antt =====
-- The websocket and its consumer together, when frames of a subscription are lost on the way.
use kalshi_copilot.Base.{
  ℕ, suc, ◌+◌, ◌≡◌, refl, ◌⊎◌, inl, inr, ◌≤◌, false, Option, none, some, List, [], ◌∷◌, length,
  Bool-cases, ◌==◌, ==_iff, arith, if◌then◌else◌,
}
use kalshi_copilot.Base.Text.{Text, text_eq}
use kalshi_copilot.Base.Dict.{look_up}
use kalshi_copilot.Book.{connected, sequence_gap, OrderBook}
use kalshi_copilot.Socket.{connect}
use kalshi_copilot.Ingest.Streams.{Consumer, reconnect, handle_each, handle}
use kalshi_copilot.Ingest.Effects.{BookTable}
use kalshi_copilot.Ingest.Agreement.{SameBook, Agree, SameFresh, books_after-SameFresh}
use kalshi_copilot.Ingest.Arrivals.{
  last_seen, Sent, arrives, deliver, all_kept, Untrusted, Untrusted-SameFresh, on_resync-Untrusted,
  next-none, next-next, next-gap, Arrived, arrives_in_turn, arrives_after_gap,
}

-- Of a receiver `c` and one that loses nothing, `p`, when `n` is the last number that was sent: `p`
-- has seen all, and `c` has seen nothing yet and trusts no book, or has seen up to some number, and
-- where that is `n` its fresh books are those of `p`.
pub record IsBehind (sid n : ℕ) (c p : Consumer) : Type 0 where
  pub ahead : (last_seen p sid ≡ none) ⊎ (last_seen p sid ≡ some n)
  pub behind :
      ((last_seen c sid ≡ none) × Untrusted c.processor.books)
      ⊎ ((m : ℕ) × (last_seen c sid ≡ some m)
          × (m ≤ n)
          × (m ≡ n → SameFresh c.processor.books p.processor.books))

-- Both have received the frame of a number, and agree.
record AreLevel (sid n : ℕ) (c p : Consumer) : Type 0 where
  seen : last_seen c sid ≡ some n
  all_seen : last_seen p sid ≡ some n
  same : SameFresh c.processor.books p.processor.books

both-Arrived :
    (sid n : ℕ) (c p : Consumer) (s : Sent) (A B : BookTable)
    → Arrived sid n c s A
    → Arrived sid n p s B
    → SameFresh A B
    → AreLevel sid n (arrives sid n c s) (arrives sid n p s)
both-Arrived sid n c p s A B at_c at_p same = record {
  seen = at_c.seen;
  all_seen = at_p.seen;
  same = rw (at_c.books, at_p.books) (books_after-SameFresh s.body (some n) A B same);
}

kept-AreLevel :
    (sid n : ℕ) (c p : Consumer) (s : Sent)
    → IsBehind sid n c p
    → AreLevel sid (suc n) (arrives sid (suc n) c s) (arrives sid (suc n) p s)
kept-AreLevel sid n c p s h =
    let at_p : Arrived sid (suc n) p s p.processor.books = elim h.ahead [
      | inl first ↦ arrives_in_turn sid (suc n) p s (next-none _ (suc n) first)
      | inr last ↦ arrives_in_turn sid (suc n) p s (next-next _ n last)
    ] in
    elim h.behind [
      | inl (first, untrusted) ↦
          both-Arrived sid (suc n) c p s _ _
            (arrives_in_turn sid (suc n) c s (next-none _ (suc n) first)) at_p
            (Untrusted-SameFresh _ _ untrusted)
      | inr (m, last, le, same) ↦ elim (Bool-cases (m == n)) [
        | inl equal ↦
            let up_to_date = (==_iff m n).0 equal in
            both-Arrived sid (suc n) c p s _ _
              (arrives_in_turn sid (suc n) c s (next-next _ n (rw up_to_date at last))) at_p
              (same up_to_date)
        | inr differ ↦
            both-Arrived sid (suc n) c p s _ _
              (arrives_after_gap sid (suc n) c s (next-gap _ m (suc n) last (ground arith))) at_p
              (Untrusted-SameFresh _ _ (on_resync-Untrusted c.processor sequence_gap))
      ]
    ]

AreLevel-IsBehind : (sid n : ℕ) (c p : Consumer) → AreLevel sid n c p → IsBehind sid n c p
AreLevel-IsBehind sid n c p h = record {
  ahead = inr h.all_seen;
  behind = inr (n, h.seen, omega arith, λ up_to_date. h.same);
}

lost-IsBehind :
    (sid n : ℕ) (c p : Consumer) (s : Sent)
    → IsBehind sid n c p
    → IsBehind sid (suc n) c (arrives sid (suc n) p s)
lost-IsBehind sid n c p s h = record {
  ahead = inr (elim h.ahead [
    | inl first ↦ (arrives_in_turn sid (suc n) p s (next-none _ (suc n) first)).seen
    | inr last ↦ (arrives_in_turn sid (suc n) p s (next-next _ n last)).seen
  ]);
  behind = elim h.behind [
    | inl unseen ↦ inl unseen
    | inr (m, last, le, same) ↦ inr (m, last, omega arith, λ e. absurd (omega arith))
  ];
}

sent-IsBehind :
    (sid n : ℕ) (c p : Consumer) (s : Sent)
    → IsBehind sid n c p
    → IsBehind sid (suc n) (if s.lost then c else arrives sid (suc n) c s) (arrives sid (suc n) p s)
sent-IsBehind sid n c p s h = elim (Bool-cases s.lost) [
  | inl lost ↦ rw lost (lost-IsBehind sid n c p s h)
  | inr kept ↦ rw kept (AreLevel-IsBehind sid (suc n) _ _ (kept-AreLevel sid n c p s h))
]

deliver-IsBehind :
    (sid n : ℕ) (ss : List Sent) (c p : Consumer)
    → IsBehind sid n c p
    → IsBehind sid (n + length ss) (deliver sid n c ss) (deliver sid n p (all_kept ss))
deliver-IsBehind sid n [] c p h = let e : n + 0 ≡ n = omega arith in rw e h
deliver-IsBehind sid n (s ∷ rest) c p h =
    let e : n + suc (length rest) ≡ suc n + length rest = omega arith in
    rw e (deliver-IsBehind sid (suc n) rest _ _ (sent-IsBehind sid n c p s h))

reconnect-last_seen : (sid now : ℕ) (c : Consumer) → last_seen (reconnect c now) sid ≡ none
unfolding reconnect connect
reconnect-last_seen sid now c = refl

reconnect-Untrusted : (now : ℕ) (c : Consumer) → Untrusted (reconnect c now).processor.books
unfolding reconnect connect handle_each handle
reconnect-Untrusted now c = on_resync-Untrusted c.processor connected

-- Let the websocket of any consumer connect anew, let the exchange send any frames on one
-- subscription, numbered one after the other, let any of them be lost, and let one more arrive: a book
-- that is then not stale has the levels and the sequence number that the book of its market has for
-- the same consumer when it has received them all.
pub deliver-SameBook :
    (c : Consumer) (now sid n : ℕ) (ss : List Sent) (s : Sent) (t : Text) (b : OrderBook)
    → look_up text_eq t
        (arrives sid (suc (n + length ss)) (deliver sid n (reconnect c now) ss) s).processor.books
      ≡ some b
    → b.stale ≡ false
    → (b' : OrderBook) × (look_up text_eq t
          (arrives sid
            (suc (n + length ss))
            (deliver sid n (reconnect c now) (all_kept ss))
            s).processor.books
        ≡ some b')
      × SameBook b b'
deliver-SameBook c now sid n ss s t b there fresh =
    let d = reconnect c now in
    let unseen = reconnect-last_seen sid now c in
    let start : IsBehind sid n d d = record {
      ahead = inl unseen;
      behind = inl (unseen, reconnect-Untrusted now c);
    } in
    let level = kept-AreLevel sid (n + length ss) _ _ s (deliver-IsBehind sid n ss d d start) in
    agreed _ _ b (level.same t) there fresh
  where
    agreed :
        (o o' : Option OrderBook) (b : OrderBook)
        → Agree o o'
        → o ≡ some b
        → b.stale ≡ false
        → (b' : OrderBook) × (o' ≡ some b') × SameBook b b'
    agreed o o' b h there fresh = let own : Agree (some b) o' = rw there at h in own fresh
