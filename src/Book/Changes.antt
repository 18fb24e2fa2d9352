-- ===== src/Book/Changes.antt =====
-- What the operations of orderbook.py do to a book: the invariant of its levels, the exact effect of
-- a delta, and when a book is stale.
use kalshi_copilot.Base.{
  ℕ, ◌≡◌, refl, ◌⊎◌, inl, inr, Bool, true, false, Option, none, some, List, [], ◌∷◌, arith,
}
use kalshi_copilot.Base.Int.{ℤ}
use kalshi_copilot.Base.Outcome.{ok, raise, Outcome-cases}
use kalshi_copilot.Domain.{Side, yes_side, no_side}
use kalshi_copilot.Book.{
  Levels, OrderBook, WireLevel, parse_levels, book_stale, apply_snapshot, StaleReason, mark_stale,
  DeltaMsg, is_replay, apply_parsed, apply_delta, yes_bids, no_bids, yes_asks, executable_cost,
  spread, mid, best_yes_bid, best_yes_ask,
}
use kalshi_copilot.Book.Levels.{AreValid, change_level-AreValid, parse_levels_from-AreValid}

pub record IsValid (b : OrderBook) : Type 0 where
  pub yes_valid : AreValid b.yes_levels
  pub no_valid : AreValid b.no_levels

-- What can happen to a book.
pub data BookEvent : Type 0 where
  snapshot : List WireLevel → List WireLevel → Option ℕ → BookEvent
  delta_msg : DeltaMsg → Option ℕ → BookEvent
  distrust : StaleReason → BookEvent

abbrev pub step : OrderBook → BookEvent → OrderBook
step b (snapshot y n seq) = (apply_snapshot b y n seq).0
step b (delta_msg m seq) = (apply_delta b m seq).0
step b (distrust reason) = mark_stale b reason

abbrev pub run : OrderBook → List BookEvent → OrderBook
run b [] = b
run b (e ∷ es) = run (step b e) es

apply_snapshot-IsValid :
    (b : OrderBook) (y n : List WireLevel) (seq : Option ℕ)
    → IsValid b
    → IsValid (apply_snapshot b y n seq).0
unfolding apply_snapshot
apply_snapshot-IsValid b y n seq v = elim (Outcome-cases (parse_levels y)) [
  | inr (e, h) ↦ ground arith
  | inl (d, h) ↦
      let yes_ok = parse_levels_from-AreValid [] y tt h in
      elim (Outcome-cases (parse_levels n)) [
        | inr (e, k) ↦ ground arith
        | inl (d', k) ↦ let no_ok = parse_levels_from-AreValid [] n tt k in ground arith
      ]
]

mark_stale-IsValid : (b : OrderBook) (r : StaleReason) → IsValid b → IsValid (mark_stale b r)
unfolding mark_stale
mark_stale-IsValid b r v = record { yes_valid = v.yes_valid; no_valid = v.no_valid }

apply_parsed-IsValid :
    (b : OrderBook) (p c : Option ℤ) (s : Option Side) (seq : Option ℕ)
    → IsValid b
    → IsValid (apply_parsed b p c s seq).0
unfolding apply_parsed
apply_parsed-IsValid b none c s seq v = v
apply_parsed-IsValid b (some p) none s seq v = v
apply_parsed-IsValid b (some p) (some c) none seq v = mark_stale-IsValid b _ v
apply_parsed-IsValid b (some p) (some c) (some yes_side) none v = record {
  yes_valid = change_level-AreValid p c _ v.yes_valid;
  no_valid = v.no_valid;
}
apply_parsed-IsValid b (some p) (some c) (some yes_side) (some n) v = record {
  yes_valid = change_level-AreValid p c _ v.yes_valid;
  no_valid = v.no_valid;
}
apply_parsed-IsValid b (some p) (some c) (some no_side) none v = record {
  yes_valid = v.yes_valid;
  no_valid = change_level-AreValid p c _ v.no_valid;
}
apply_parsed-IsValid b (some p) (some c) (some no_side) (some n) v = record {
  yes_valid = v.yes_valid;
  no_valid = change_level-AreValid p c _ v.no_valid;
}

apply_delta-IsValid :
    (b : OrderBook) (m : DeltaMsg) (seq : Option ℕ) → IsValid b → IsValid (apply_delta b m seq).0
unfolding apply_delta
apply_delta-IsValid b m seq v = ground (arith, apply_parsed-IsValid b m.price m.delta m.side seq v)

step-IsValid : (b : OrderBook) (e : BookEvent) → IsValid b → IsValid (step b e)
step-IsValid b (snapshot y n seq) v = apply_snapshot-IsValid b y n seq v
step-IsValid b (delta_msg m seq) v = apply_delta-IsValid b m seq v
step-IsValid b (distrust r) v = mark_stale-IsValid b r v

-- Whatever snapshots, deltas and invalidations a valid book goes through, malformed ones included,
-- every level on either side keeps a positive size and no price is listed twice.
pub run-IsValid : (b : OrderBook) (es : List BookEvent) → IsValid b → IsValid (run b es)
run-IsValid b [] v = v
run-IsValid b (e ∷ es) v = run-IsValid (step b e) es (step-IsValid b e v)

-- The levels of one side.
abbrev pub side_levels : Side → OrderBook → Levels
side_levels yes_side b = b.yes_levels
side_levels no_side b = b.no_levels

abbrev pub other : Side → Side
other yes_side = no_side
other no_side = yes_side

pub apply_delta-fresh :
    (b : OrderBook) (m : DeltaMsg) (seq : Option ℕ)
    → b.stale ≡ false
    → is_replay seq b.seq ≡ false
    → apply_delta b m seq ≡ apply_parsed b m.price m.delta m.side seq
unfolding apply_delta
apply_delta-fresh b m seq fresh new = ground arith

-- A delta on a stale book, and one whose sequence number is not above the book's, changes nothing
-- and is answered by false.
pub apply_delta_refused :
    (b : OrderBook) (m : DeltaMsg) (seq : Option ℕ)
    → (b.stale ≡ true) ⊎ (is_replay seq b.seq ≡ true)
    → apply_delta b m seq ≡ (b, ok false)
unfolding apply_delta
apply_delta_refused b m seq (inl h) = ground arith
apply_delta_refused b m seq (inr h) = ground arith

-- No event of the list is a snapshot that parses on both sides.
abbrev pub parses : BookEvent → Bool
parses (snapshot y n seq) = elim (parse_levels y) [
  | raise e ↦ false
  | ok d ↦ elim (parse_levels n) [ raise e ↦ false | ok d' ↦ true ]
]
parses (delta_msg m seq) = false
parses (distrust r) = false

abbrev pub NoSnapshot : List BookEvent → Type 0
NoSnapshot [] = Unit
NoSnapshot (e ∷ es) = (parses e ≡ false) × NoSnapshot es

step-stale :
    (b : OrderBook) (e : BookEvent) → b.stale ≡ true → parses e ≡ false → (step b e).stale ≡ true
unfolding apply_snapshot mark_stale
step-stale b (snapshot y n seq) h p = ground arith
step-stale b (delta_msg m seq) h p =
    let same : apply_delta b m seq ≡ (b, ok false) = apply_delta_refused b m seq (inl h) in
    rw (same, step) h
step-stale b (distrust r) h p = refl

run-stale :
    (b : OrderBook) (es : List BookEvent) → b.stale ≡ true → NoSnapshot es → (run b es).stale ≡ true
run-stale b [] h n = h
run-stale b (e ∷ es) h n = run-stale (step b e) es (step-stale b e h n.0) n.1

-- The questions that a book refuses to answer, by the same error.
pub record IsRefused (b : OrderBook) : Type 0 where
  pub bids : yes_bids b ≡ raise book_stale
  pub offers : yes_asks b ≡ raise book_stale
  pub no_side_bids : no_bids b ≡ raise book_stale
  pub best_bid : best_yes_bid b ≡ raise book_stale
  pub best_offer : best_yes_ask b ≡ raise book_stale
  pub spreads : spread b ≡ raise book_stale
  pub mids : mid b ≡ raise book_stale
  pub costs : (s : Side) (c : ℤ) → executable_cost b s c ≡ raise book_stale

IsRefused-of_stale : (b : OrderBook) → b.stale ≡ true → IsRefused b
unfolding yes_bids yes_asks no_bids spread mid executable_cost best_yes_bid best_yes_ask
IsRefused-of_stale b h = record {
  bids = ground arith;
  offers = ground arith;
  no_side_bids = ground arith;
  best_bid = ground arith;
  best_offer = ground arith;
  spreads = ground arith;
  mids = ground arith;
  costs = costs_refused;
}
  where
    costs_refused : (s : Side) (c : ℤ) → executable_cost b s c ≡ raise book_stale
    costs_refused yes_side c = ground arith
    costs_refused no_side c = ground arith

-- A book that is invalidated raises when it is asked for its bids on either side, its offers, its
-- best bid and offer, its spread, its mid price or the cost of a size, through any events after it,
-- until a snapshot that parses on both sides arrives; `top_n` is not among them.
pub mark_stale-IsRefused :
    (b : OrderBook) (r : StaleReason) (es : List BookEvent)
    → NoSnapshot es
    → IsRefused (run (mark_stale b r) es)
unfolding mark_stale
mark_stale-IsRefused b r es n = IsRefused-of_stale _ (run-stale (mark_stale b r) es refl n)
