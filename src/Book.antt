-- ===== src/Book.antt =====
-- backend/app/kalshi/orderbook.py: one market's book from a snapshot and deltas. A method returns
-- the new book, also where it raises, since what it assigned before stays assigned.
pub mod Levels
pub mod Changes
pub mod Sorting
pub mod Cost
mod Tests
use kalshi_copilot.Base.{
  ℕ, suc, ◌+◌, ◌≤◌, Bool, true, false, ◌&&◌, ◌||◌, Option, none, some, List, [], ◌∷◌, leb,
  if◌then◌else◌, map, take,
}
use kalshi_copilot.Base.Int.{ℤ, pos, pos_part, ◌+ℤ◌, ◌-ℤ◌, ◌*ℤ◌, ltb_ℤ, leb_ℤ, eqb_ℤ, min_ℤ}
use kalshi_copilot.Base.Outcome.{Outcome, ok, raise, ◌>>=◌}
use kalshi_copilot.Domain.{Side, yes_side, no_side, one, is_yes}
use kalshi_copilot.Fees.{Ratio}

-- A dict from price to size, in insertion order.
abbrev pub Levels : Type 0
Levels = List (ℤ × ℤ)

-- `d.get(price)`
abbrev pub get : ℤ → Levels → Option ℤ
get p [] = none
get p ((q, s) ∷ d) = if eqb_ℤ p q then some s else get p d

-- `d[price] = size`
abbrev pub put : ℤ → ℤ → Levels → Levels
put p s [] = (p, s) ∷ []
put p s ((q, t) ∷ d) = if eqb_ℤ p q then (q, s) ∷ d else (q, t) ∷ put p s d

-- `d.pop(price, None)`
abbrev pub remove : ℤ → Levels → Levels
remove p [] = []
remove p ((q, t) ∷ d) = if eqb_ℤ p q then d else (q, t) ∷ remove p d

pub data StaleReason : Type 0 where
  awaiting_snapshot unknown_side : StaleReason
  sequence_gap terminal_error connected : StaleReason

pub record OrderBook : Type 0 where
  pub yes_levels : Levels
  pub no_levels : Levels
  pub seq : Option ℕ
  pub stale : Bool
  pub stale_reason : Option StaleReason
  pub gap_count : ℕ

-- A book as the dataclass makes it.
unfoldable pub new_book : OrderBook
new_book = record {
  yes_levels = [];
  no_levels = [];
  seq = none;
  stale = true;
  stale_reason = some awaiting_snapshot;
  gap_count = 0;
}

-- An entry of a snapshot: fewer than two items, a price and a size, or text that does not parse.
pub data WireLevel : Type 0 where
  too_short : WireLevel
  level : ℤ → ℤ → WireLevel
  malformed : WireLevel

-- `MoneyParseError` and `BookStaleError`.
pub data BookError : Type 0 where
  money_parse_error book_stale : BookError

-- The loop of `_parse_levels`, from the levels read so far.
unfoldable pub parse_levels_from : Levels → List WireLevel → Outcome BookError Levels
parse_levels_from levels [] = ok levels
parse_levels_from levels (too_short ∷ rest) = parse_levels_from levels rest
parse_levels_from levels (malformed ∷ rest) = raise money_parse_error
parse_levels_from levels (level price size ∷ rest) =
    parse_levels_from (if ltb_ℤ (pos 0) size then put price size levels else levels) rest

abbrev pub parse_levels : List WireLevel → Outcome BookError Levels
parse_levels raw = parse_levels_from [] raw

-- `apply_snapshot`. The YES side is assigned before the NO side is parsed.
unfoldable pub apply_snapshot :
    OrderBook
    → List WireLevel
    → List WireLevel
    → Option ℕ
    → OrderBook × Outcome BookError (Unit {0})
apply_snapshot b raw_yes raw_no seq = elim (parse_levels raw_yes) [
  | raise e ↦ (b, raise e)
  | ok yes_side_levels ↦ elim (parse_levels raw_no) [
    | raise e ↦ (record b { yes_levels = yes_side_levels }, raise e)
    | ok no_side_levels ↦ (
      record {
        yes_levels = yes_side_levels;
        no_levels = no_side_levels;
        seq = seq;
        stale = false;
        stale_reason = none;
        gap_count = b.gap_count;
      },
      ok tt,
    )
  ]
]

unfoldable pub mark_stale : OrderBook → StaleReason → OrderBook
mark_stale b reason = record b {
  stale = true;
  stale_reason = some reason;
  gap_count = if b.stale then b.gap_count else suc b.gap_count;
}

-- The body of a delta; a price or size that does not parse is `none`, a side that is neither is
-- `none`.
pub record DeltaMsg : Type 0 where
  pub price : Option ℤ
  pub delta : Option ℤ
  pub side : Option Side

-- `seq is not None and self.seq is not None and seq <= self.seq`
abbrev pub is_replay : Option ℕ → Option ℕ → Bool
is_replay (some new) (some last) = leb new last
is_replay _ _ = false

-- `d.get(price, 0) + delta`
abbrev pub asked_size : Option ℤ → ℤ → ℤ
asked_size none c = pos 0 +ℤ c
asked_size (some s) c = s +ℤ c

unfoldable pub change_level : ℤ → ℤ → Levels → Levels
change_level price delta d =
    let new_size = asked_size (get price d) delta in
    if leb_ℤ new_size (pos 0) then remove price d else put price new_size d

abbrev pub change_side : Side → ℤ → ℤ → OrderBook → OrderBook
change_side yes_side price delta b = record b { yes_levels = change_level price delta b.yes_levels }
change_side no_side price delta b = record b { no_levels = change_level price delta b.no_levels }

abbrev pub record_seq : Option ℕ → OrderBook → OrderBook
record_seq none b = b
record_seq (some n) b = record b { seq = some n }

-- `apply_delta` past its guards.
unfoldable pub apply_parsed :
    OrderBook → Option ℤ → Option ℤ → Option Side → Option ℕ → OrderBook × Outcome BookError Bool
apply_parsed b none delta side seq = (b, raise money_parse_error)
apply_parsed b (some price) none side seq = (b, raise money_parse_error)
apply_parsed b (some price) (some delta) none seq = (mark_stale b unknown_side, ok false)
apply_parsed b (some price) (some delta) (some side) seq =
    (record_seq seq (change_side side price delta b), ok true)

unfoldable pub apply_delta : OrderBook → DeltaMsg → Option ℕ → OrderBook × Outcome BookError Bool
apply_delta b m seq =
    if b.stale
    then (b, ok false)
    else if is_replay seq b.seq
    then (b, ok false)
    else apply_parsed b m.price m.delta m.side seq

-- `_check`, then the answer.
abbrev pub unless_stale {ℓ} : {A : Type ℓ} → OrderBook → A → Outcome BookError A
unless_stale b a = if b.stale then raise book_stale else ok a

-- `sorted(items, key=lambda kv: -kv[0])`: stable, highest price first.
abbrev pub insert_desc : ℤ × ℤ → Levels → Levels
insert_desc e [] = e ∷ []
insert_desc e (x ∷ xs) = if leb_ℤ x.0 e.0 then e ∷ x ∷ xs else x ∷ insert_desc e xs

unfoldable pub sort_desc : Levels → Levels
sort_desc [] = []
sort_desc (e ∷ d) = insert_desc e (sort_desc d)

-- A NO bid at `p` as an offer of YES at `1 - p`.
abbrev pub as_offer : ℤ × ℤ → ℤ × ℤ
as_offer (p, s) = (one -ℤ p, s)

unfoldable pub yes_bids : OrderBook → Outcome BookError Levels
yes_bids b = unless_stale b (sort_desc b.yes_levels)

unfoldable pub no_bids : OrderBook → Outcome BookError Levels
no_bids b = unless_stale b (sort_desc b.no_levels)

unfoldable pub yes_asks : OrderBook → Outcome BookError Levels
yes_asks b = unless_stale b (map as_offer (sort_desc b.no_levels))

-- `levels[0] if levels else None`
abbrev pub first : Levels → Option (ℤ × ℤ)
first [] = none
first (x ∷ xs) = some x

unfoldable pub best_yes_bid : OrderBook → Outcome BookError (Option (ℤ × ℤ))
best_yes_bid b = yes_bids b >>= λ bids. ok (first bids)

unfoldable pub best_yes_ask : OrderBook → Outcome BookError (Option (ℤ × ℤ))
best_yes_ask b = yes_asks b >>= λ asks. ok (first asks)

abbrev pub both_best : {A : Type 0} → (ℤ → ℤ → A) → Option (ℤ × ℤ) → Option (ℤ × ℤ) → Option A
both_best f (some bid) (some ask) = some (f bid.0 ask.0)
both_best f _ _ = none

unfoldable pub spread : OrderBook → Outcome BookError (Option ℤ)
spread b = do bid ← best_yes_bid b; ask ← best_yes_ask b; ok (both_best (λ p q. q -ℤ p) bid ask)

unfoldable pub mid : OrderBook → Outcome BookError (Option Ratio)
mid b = do
  bid ← best_yes_bid b
  ask ← best_yes_ask b
  ok (both_best (λ p q. record { numerator = p +ℤ q; denominator = 2 }) bid ask)

-- The loop of `executable_cost`, on what remains, the cost and the size so far.
unfoldable pub walk : Levels → ℤ → ℤ → ℤ → ℤ × ℤ
walk [] remaining cost filled = (cost, filled)
walk ((price, size) ∷ rest) remaining cost filled =
    let taken = min_ℤ size remaining in
    let on = walk rest (remaining -ℤ taken) (cost +ℤ taken *ℤ price) (filled +ℤ taken) in
    if leb_ℤ remaining (pos 0) then (cost, filled) else on

-- The levels that `executable_cost` walks.
abbrev pub cost_levels : OrderBook → Side → Outcome BookError Levels
cost_levels b yes_side = yes_asks b
cost_levels b no_side = no_bids b

-- `executable_cost`: the average price as a quotient, and the size.
unfoldable pub executable_cost : OrderBook → Side → ℤ → Outcome BookError (Option (Ratio × ℤ))
executable_cost b side contracts = do
  levels ← cost_levels b side
  (let (cost, filled) = walk levels contracts (pos 0) (pos 0) in
      ok (
        if leb_ℤ filled (pos 0)
        then none
        else some (record { numerator = cost; denominator = pos_part filled }, filled)))

-- `top_n`: the best levels of each side, which a stale book gives as well.
abbrev pub top_n : ℕ → OrderBook → Levels × Levels
top_n n b = (take n (sort_desc b.yes_levels), take n (sort_desc b.no_levels))
