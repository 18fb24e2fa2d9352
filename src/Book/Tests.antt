-- ===== src/Book/Tests.antt =====
-- Runs and instances for backend/app/kalshi/orderbook.py.
use kalshi_copilot.Base.{◌≡◌, refl, false, none, some, [], ◌∷◌, arith, min}
use kalshi_copilot.Base.Int.{pos, ◌+ℤ◌, ◌-ℤ◌, ◌*ℤ◌}
use kalshi_copilot.Base.Outcome.{ok}
use kalshi_copilot.Domain.{yes_side}
use kalshi_copilot.Fees.{Ratio}
use kalshi_copilot.Book.{
  OrderBook, new_book, level, malformed, too_short, sequence_gap, apply_snapshot, mark_stale,
  executable_cost, sort_desc, walk, yes_asks, parse_levels_from,
}
use kalshi_copilot.Book.Changes.{
  IsValid, snapshot, delta_msg, distrust, run, run-IsValid, mark_stale-IsRefused, IsRefused,
}
use kalshi_copilot.Book.Sorting.{depth}
use kalshi_copilot.Book.Cost.{executable_cost_bounds, NoBetter}

-- YES bids 0.40 x 100, 0.39 x 50; NO bids 0.54 x 300 and 0.55 x 80.
abbrev book : OrderBook
book = record {
  yes_levels = (pos 400000, pos 10000) ∷ (pos 390000, pos 5000) ∷ [];
  no_levels = (pos 540000, pos 30000) ∷ (pos 550000, pos 8000) ∷ [];
  seq = some 5;
  stale = false;
  stale_reason = none;
  gap_count = 0;
}

abbrev from_snapshot : OrderBook
from_snapshot =
    (apply_snapshot new_book
      (level (pos 400000) (pos 10000) ∷ too_short ∷ level (pos 390000) (pos 5000) ∷ [])
      (level (pos 540000) (pos 30000) ∷ level (pos 550000) (pos 8000) ∷ []) (some 5)).0

snapshot_builds : from_snapshot ≡ book
unfolding apply_snapshot parse_levels_from new_book
snapshot_builds = refl

-- 80 at 0.45, then 120 at 0.46: 91.20 dollars, that is 0.456 on average.
cost_of_200 :
    executable_cost book yes_side (pos 20000)
    ≡ ok (some (record { numerator = pos 9120000000; denominator = 20000 }, pos 20000))
unfolding executable_cost yes_asks sort_desc walk ◌-ℤ◌ ◌+ℤ◌ ◌*ℤ◌
cost_of_200 = refl

book-IsValid : IsValid book
book-IsValid = record {
  yes_valid = (omega arith, refl, (omega arith, refl, tt));
  no_valid = (omega arith, refl, (omega arith, refl, tt));
}

run-IsValid_example :
    IsValid (run book (distrust sequence_gap ∷ snapshot [] (malformed ∷ []) none ∷ []))
run-IsValid_example =
    run-IsValid book (distrust sequence_gap ∷ snapshot [] (malformed ∷ []) none ∷ []) book-IsValid

mark_stale-IsRefused_example : IsRefused (
    run (mark_stale book sequence_gap) (
      delta_msg
        (record { price = some (pos 1); delta = some (pos 1); side = some yes_side })
        (some 9)
      ∷ []))
mark_stale-IsRefused_example =
    mark_stale-IsRefused book sequence_gap
      (delta_msg (record { price = some (pos 1); delta = some (pos 1); side = some yes_side })
          (some 9)
        ∷ [])
      (refl, tt)

executable_cost_bounds_example :
    (r : Ratio) × (executable_cost book yes_side (pos 20000)
      ≡ ok (some (r, pos (min 20000 (depth book.no_levels)))))
    × (r.denominator ≡ min 20000 (depth book.no_levels))
    × NoBetter yes_side (pos 450000) r
unfolding sort_desc ◌-ℤ◌
executable_cost_bounds_example =
    executable_cost_bounds yes_side (pos 450000, pos 8000) ((pos 460000, pos 30000) ∷ []) book 20000
      book-IsValid refl refl (omega arith)
