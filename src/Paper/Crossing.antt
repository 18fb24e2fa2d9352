-- ===== src/Paper/Crossing.antt =====
-- The levels of paper.py against the cost walk of backend/app/kalshi/orderbook.py, on one book.
use kalshi_copilot.Base.{
  ◌≡◌, refl, inl, inr, true, false, List, [], ◌∷◌, arith, Bool-cases, map, ap, ◌∙◌,
}
use kalshi_copilot.Base.Int.{ℤ, pos, ◌-ℤ◌, ◌<ℤ◌, ◌≤ℤ◌, leb_ℤ, int_laws}
use kalshi_copilot.Base.Outcome.{ok}
use kalshi_copilot.Domain.{Side, yes_side, no_side, Action, buy, sell, one}
use kalshi_copilot.Book.{
  Levels, OrderBook, WireLevel, level, as_offer, insert_desc, sort_desc, cost_levels,
}
use kalshi_copilot.Book.Changes.{IsValid}
use kalshi_copilot.Book.Sorting.{Positive, Positive-of_AreValid}
use kalshi_copilot.Book.Cost.{walked, cost_levels-fresh}
use kalshi_copilot.Paper.{PaperBook, levels_for, read_levels, insert_asc, sort_asc}

-- A dict of levels as the endpoint quotes it.
abbrev pub quotes : Levels → List WireLevel
quotes [] = []
quotes ((p, s) ∷ d) = level p s ∷ quotes d

abbrev pub quoted_book : OrderBook → PaperBook
quoted_book b = record { yes_quotes = quotes b.yes_levels; no_quotes = quotes b.no_levels }

read_levels-quotes_bids : (d : Levels) → Positive d → read_levels false (quotes d) ≡ ok d
unfolding read_levels
read_levels-quotes_bids [] h = refl
read_levels-quotes_bids ((p, s) ∷ d) h =
    let some_size : leb_ℤ s (pos 0) ≡ false = ground arith in
    rw (read_levels-quotes_bids d h.1, some_size)

read_levels-quotes_offers :
    (d : Levels) → Positive d → read_levels true (quotes d) ≡ ok (map as_offer d)
unfolding read_levels
read_levels-quotes_offers [] h = refl
read_levels-quotes_offers ((p, s) ∷ d) h =
    let some_size : leb_ℤ s (pos 0) ≡ false = ground arith in
    rw (read_levels-quotes_offers d h.1, some_size)

leb_of_le : (a b : ℤ) → a ≤ℤ b → leb_ℤ a b ≡ true
leb_of_le a b h = ground arith

leb_of_lt : (a b : ℤ) → b <ℤ a → leb_ℤ a b ≡ false
leb_of_lt a b h = ground arith

offer_order : (p q : ℤ) → leb_ℤ (one -ℤ p) (one -ℤ q) ≡ leb_ℤ q p
offer_order p q = elim (Bool-cases (leb_ℤ q p)) [
  | inl b ↦
      let le : q ≤ℤ p = ground arith in
      rw b (leb_of_le (one -ℤ p) (one -ℤ q) (omega (int_laws, le)))
  | inr b ↦
      let lt : p <ℤ q = ground arith in
      rw b (leb_of_lt (one -ℤ p) (one -ℤ q) (omega (int_laws, lt)))
]

insert_asc-as_offer :
    (e : ℤ × ℤ) (d : Levels)
    → insert_asc (as_offer e) (map as_offer d) ≡ map as_offer (insert_desc e d)
insert_asc-as_offer e [] = refl
insert_asc-as_offer e (x ∷ d) = elim (Bool-cases (leb_ℤ x.0 e.0)) [
  | inl front ↦ rw (offer_order e.0 x.0, front)
  | inr behind ↦ rw (offer_order e.0 x.0, behind, insert_asc-as_offer e d)
]

sort_asc-as_offer : (d : Levels) → sort_asc (map as_offer d) ≡ map as_offer (sort_desc d)
unfolding sort_asc sort_desc
sort_asc-as_offer [] = refl
sort_asc-as_offer (e ∷ d) =
    ap (insert_asc (as_offer e)) (sort_asc-as_offer d) ∙ insert_asc-as_offer e (sort_desc d)

-- The action whose levels the cost of a side is walked over.
abbrev pub crossing : Side → Action
crossing yes_side = buy
crossing no_side = sell

-- On a valid book that is not stale, the cost of YES walks the levels that the simulator fills when
-- YES is bought, and the cost of NO walks the levels that it fills when NO is sold.
pub cost_levels-levels_for :
    (s : Side) (b : OrderBook)
    → IsValid b
    → b.stale ≡ false
    → (d : Levels) × (cost_levels b s ≡ ok d) × (levels_for (quoted_book b) s (crossing s) ≡ ok d)
unfolding levels_for
cost_levels-levels_for yes_side b v fresh = (
  walked yes_side b,
  cost_levels-fresh yes_side b fresh,
  rw (read_levels-quotes_offers b.no_levels (Positive-of_AreValid _ v.no_valid))
      (ap ok (sort_asc-as_offer b.no_levels)),
)
cost_levels-levels_for no_side b v fresh = (
  walked no_side b,
  cost_levels-fresh no_side b fresh,
  rw (read_levels-quotes_bids b.no_levels (Positive-of_AreValid _ v.no_valid)),
)
