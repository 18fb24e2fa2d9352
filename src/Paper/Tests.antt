-- ===== src/Paper/Tests.antt =====
-- Runs and instances for backend/app/trading/paper.py, with a flat fee of 1 centicent.
use kalshi_copilot.Base.{◌≡◌, refl, true, false, none, some, [], ◌∷◌, All, arith}
use kalshi_copilot.Base.Int.{pos, ◌+ℤ◌, ◌-ℤ◌, ◌≤ℤ◌}
use kalshi_copilot.Base.Outcome.{ok}
use kalshi_copilot.Domain.{yes_side, buy}
use kalshi_copilot.Book.{OrderBook, level}
use kalshi_copilot.Book.Changes.{IsValid}
use kalshi_copilot.Paper.{
  PaperBook, FeeOf, read_levels, sort_asc, levels_for, fill_levels, simulate_fills,
}
use kalshi_copilot.Paper.Fills.{simulate_fills-AreFills, IsFill, total}

abbrev flat_fee : FeeOf
flat_fee p c = ok 1

-- NO bids at 0.54 and 0.55: YES is offered at 0.45 and 0.46.
abbrev book : PaperBook
book = record {
  yes_quotes = [];
  no_quotes = level (pos 540000) (pos 30000) ∷ level (pos 550000) (pos 8000) ∷ [];
}

-- Buy 100 YES to 0.46 with a slippage of 0.01: 80 at 0.46, and the rest is beyond the limit.
filled :
    simulate_fills flat_fee book yes_side buy (pos 460000) (pos 10000) (pos 10000)
    ≡ ok (record { price = pos 460000; contracts = pos 8000; fee_cents = 1 } ∷ [])
unfolding simulate_fills levels_for read_levels sort_asc fill_levels ◌+ℤ◌ ◌-ℤ◌
filled = refl

simulate_fills-AreFills_example :
    All
      (IsFill flat_fee true (pos 460000))
      (record { price = pos 460000; contracts = pos 8000; fee_cents = 1 } ∷ [])
    × (total (record { price = pos 460000; contracts = pos 8000; fee_cents = 1 } ∷ []) ≤ℤ pos 10000)
simulate_fills-AreFills_example =
    simulate_fills-AreFills flat_fee book yes_side buy (pos 460000) (pos 10000) (pos 10000)
      (omega arith) filled

abbrev live_book : OrderBook
live_book = record {
  yes_levels = (pos 400000, pos 10000) ∷ [];
  no_levels = (pos 540000, pos 30000) ∷ (pos 550000, pos 8000) ∷ [];
  seq = some 5;
  stale = false;
  stale_reason = none;
  gap_count = 0;
}

live_book-IsValid : IsValid live_book
live_book-IsValid = record {
  yes_valid = (omega arith, refl, tt);
  no_valid = (omega arith, refl, (omega arith, refl, tt));
}
