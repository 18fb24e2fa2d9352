-- ===== src/Ingest/Agreement.antt =====
-- Two holders of books that are handed the same message: where the books of the one that are not
-- stale are the books of the other, they stay so.
use kalshi_copilot.Base.{
  ℕ, ◌≡◌, refl, sym, ap, inl, inr, false, Option, none, some, List, or_else, Bool-cases,
  Option-cases, if◌then◌else◌,
}
use kalshi_copilot.Base.Int.{ℤ}
use kalshi_copilot.Base.Text.{Text, text_eq, text_eq_sound}
use kalshi_copilot.Base.Dict.{look_up, look_up-assign}
use kalshi_copilot.Base.Outcome.{Outcome-cases}
use kalshi_copilot.Domain.{Side, yes_side, no_side}
use kalshi_copilot.Book.{
  WireLevel, DeltaMsg, OrderBook, new_book, parse_levels, change_level, is_replay, apply_parsed,
  apply_snapshot, apply_delta, mark_stale,
}
use kalshi_copilot.Book.Changes.{apply_delta_refused, apply_delta-fresh}
use kalshi_copilot.Socket.{Body, trade_body, ticker_body, snapshot_body, delta_body, other_body}
use kalshi_copilot.Ingest.Effects.{
  BookTable, text_eq-IsEquality, on_book, books_after_ticker, ticker_of, books_after,
}

-- The levels and the sequence number of a book that is not stale.
abbrev pub SameBook : OrderBook → OrderBook → Type 0
SameBook b b' =
    (b'.yes_levels ≡ b.yes_levels)
    × (b'.no_levels ≡ b.no_levels)
    × (b'.seq ≡ b.seq)
    × (b'.stale ≡ false)

-- The first is stale, or the second is the same.
abbrev pub Follows : OrderBook → OrderBook → Type 0
Follows b b' = b.stale ≡ false → SameBook b b'

abbrev pub Agree : Option OrderBook → Option OrderBook → Type 0
Agree none o = Unit
Agree (some b) o = b.stale ≡ false → (b' : OrderBook) × (o ≡ some b') × SameBook b b'

abbrev pub SameFresh : BookTable → BookTable → Type 0
SameFresh A B = (t : Text) → Agree (look_up text_eq t A) (look_up text_eq t B)

apply_snapshot-Follows :
    (a b : OrderBook) (y n : List WireLevel) (seq : Option ℕ)
    → Follows a b
    → Follows (apply_snapshot a y n seq).0 (apply_snapshot b y n seq).0
unfolding apply_snapshot
apply_snapshot-Follows a b y n seq h = elim (Outcome-cases (parse_levels y)) [
  | inr (e, bad) ↦ rw (bad, apply_snapshot) h
  | inl (d, good) ↦ elim (Outcome-cases (parse_levels n)) [
    | inr (e, bad) ↦
        rw (good, bad, apply_snapshot)
          (λ fresh. let same = h fresh in (refl, same.1, same.2, same.3))
    | inl (d', good') ↦ rw (good, good', apply_snapshot) (λ fresh. (refl, refl, refl, refl))
  ]
]

apply_parsed-Follows :
    (a b : OrderBook) (p c : Option ℤ) (s : Option Side) (seq : Option ℕ)
    → SameBook a b
    → Follows (apply_parsed a p c s seq).0 (apply_parsed b p c s seq).0
unfolding apply_parsed mark_stale
apply_parsed-Follows a b none c s seq h = λ fresh. h
apply_parsed-Follows a b (some p) none s seq h = λ fresh. h
apply_parsed-Follows a b (some p) (some c) none seq h = λ fresh. cc
apply_parsed-Follows a b (some p) (some c) (some yes_side) none h =
    λ fresh. (ap (change_level p c) h.0, h.1, h.2, h.3)
apply_parsed-Follows a b (some p) (some c) (some yes_side) (some n) h =
    λ fresh. (ap (change_level p c) h.0, h.1, refl, h.3)
apply_parsed-Follows a b (some p) (some c) (some no_side) none h =
    λ fresh. (h.0, ap (change_level p c) h.1, h.2, h.3)
apply_parsed-Follows a b (some p) (some c) (some no_side) (some n) h =
    λ fresh. (h.0, ap (change_level p c) h.1, refl, h.3)

apply_delta-Follows :
    (a b : OrderBook) (m : DeltaMsg) (seq : Option ℕ)
    → Follows a b
    → Follows (apply_delta a m seq).0 (apply_delta b m seq).0
apply_delta-Follows a b m seq h = elim (Bool-cases a.stale) [
  | inl stale ↦ rw (apply_delta_refused a m seq (inl stale)) (λ fresh. cc)
  | inr fresh ↦
      let same = h fresh in
      elim (Bool-cases (is_replay seq a.seq)) [
        | inl replay ↦
            rw
              (
                apply_delta_refused a m seq (inr replay),
                apply_delta_refused b m seq (inr (rw (same.2) replay)),
              )
              (λ fresh'. same)
        | inr new ↦
            rw
              (
                apply_delta-fresh a m seq fresh new,
                apply_delta-fresh b m seq (same.3) (rw (same.2) new),
              )
              (apply_parsed-Follows a b m.price m.delta m.side seq same)
      ]
]

-- The entry of the ticker of a message after it.
abbrev pub entry_after : Body → Option ℕ → Option OrderBook → Option OrderBook
entry_after (snapshot_body _ y n) seq o = some (apply_snapshot (or_else o new_book) y n seq).0
entry_after (delta_body _ m) seq none = none
entry_after (delta_body _ m) seq (some b) = some (apply_delta b m seq).0
entry_after _ seq o = o

look_up-on_book :
    (q t : Text) (f : OrderBook → OrderBook) (o : Option OrderBook) (A : BookTable)
    → look_up text_eq t A ≡ o
    → look_up text_eq q (on_book t o f A)
      ≡ (if text_eq q t then elim o [ none ↦ none | some b ↦ some (f b) ] else look_up text_eq q A)
look_up-on_book q t f none A h = elim (Bool-cases (text_eq q t)) [
  | inl here ↦ rw (here, text_eq_sound q t here) h
  | inr past ↦ rw past refl
]
look_up-on_book q t f (some b) A h = look_up-assign text_eq text_eq-IsEquality q t (f b) A

own_entry :
    (q t : Text) (A : BookTable)
    → (if text_eq q t then look_up text_eq t A else look_up text_eq q A) ≡ look_up text_eq q A
own_entry q t A = elim (Bool-cases (text_eq q t)) [
  | inl here ↦ rw (here, text_eq_sound q t here) refl
  | inr past ↦ rw past refl
]

pub look_up-books_after :
    (q t : Text) (body : Body) (seq : Option ℕ) (A : BookTable)
    → look_up text_eq q (books_after_ticker body seq (some t) A)
      ≡ (if text_eq q t then entry_after body seq (look_up text_eq t A) else look_up text_eq q A)
look_up-books_after q t (snapshot_body k y n) seq A =
    look_up-assign text_eq text_eq-IsEquality q t _ A
look_up-books_after q t (delta_body k m) seq A = elim (Option-cases (look_up text_eq t A)) [
  | inl h ↦ rw h (look_up-on_book q t (λ b. (apply_delta b m seq).0) none A h)
  | inr (b, h) ↦ rw h (look_up-on_book q t (λ b. (apply_delta b m seq).0) (some b) A h)
]
look_up-books_after q t (trade_body raw) seq A = sym (own_entry q t A)
look_up-books_after q t (ticker_body a b u) seq A = sym (own_entry q t A)
look_up-books_after q t other_body seq A = sym (own_entry q t A)

-- The book that a snapshot is applied to.
with_default :
    (b : OrderBook) (o : Option OrderBook) → Agree (some b) o → Follows b (or_else o new_book)
with_default b o h fresh = let (b', there, same) = h fresh in rw there same

-- A book that is not stale after a delta was not stale before it.
delta-fresh_before :
    (b : OrderBook) (m : DeltaMsg) (seq : Option ℕ)
    → (apply_delta b m seq).0.stale ≡ false
    → b.stale ≡ false
delta-fresh_before b m seq h = elim (Bool-cases b.stale) [
  | inl stale ↦ rw (apply_delta_refused b m seq (inl stale)) at h
  | inr fresh ↦ fresh
]

entry_after-Agree :
    (body : Body) (seq : Option ℕ) (o o' : Option OrderBook)
    → Agree o o'
    → Agree (entry_after body seq o) (entry_after body seq o')
unfolding new_book
entry_after-Agree (snapshot_body k y n) seq none o' h =
    λ fresh. (_, refl, apply_snapshot-Follows new_book _ y n seq (λ no. cc) fresh)
entry_after-Agree (snapshot_body k y n) seq (some b) o' h =
    λ fresh. (_, refl, apply_snapshot-Follows b _ y n seq (with_default b o' h) fresh)
entry_after-Agree (delta_body k m) seq none o' h = tt
entry_after-Agree (delta_body k m) seq (some b) o' h = λ fresh.
    let (b', there, same) = h (delta-fresh_before b m seq fresh) in
    ((apply_delta b' m seq).0, rw there refl, apply_delta-Follows b b' m seq (λ before. same) fresh)
entry_after-Agree (trade_body raw) seq o o' h = h
entry_after-Agree (ticker_body a b u) seq o o' h = h
entry_after-Agree other_body seq o o' h = h

-- A message that both holders are handed keeps them in agreement.
pub books_after-SameFresh :
    (body : Body) (seq : Option ℕ) (A B : BookTable)
    → SameFresh A B
    → SameFresh (books_after body seq A) (books_after body seq B)
books_after-SameFresh body seq A B h q = on_ticker (ticker_of body)
  where
    on_ticker :
        (o : Option Text)
        → Agree
            (look_up text_eq q (books_after_ticker body seq o A))
            (look_up text_eq q (books_after_ticker body seq o B))
    on_ticker none = h q
    on_ticker (some t) =
        rw (look_up-books_after q t body seq A, look_up-books_after q t body seq B)
          (elim (Bool-cases (text_eq q t)) [
            | inl here ↦ rw here (entry_after-Agree body seq _ _ (h t))
            | inr past ↦ rw past (h q)
          ])
