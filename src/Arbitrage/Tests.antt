-- ===== src/Arbitrage/Tests.antt =====
-- Sets of legs costed and settled.
use kalshi_copilot.Base.{◌≡◌, ◌≤◌, refl, Bool, some, List, [], ◌∷◌, arith}
use kalshi_copilot.Base.Int.{pos, ◌+ℤ◌, ◌-ℤ◌, ◌*ℤ◌}
use kalshi_copilot.Base.Text.{Text, codes, text_eq}
use kalshi_copilot.Base.Outcome.{ok}
use kalshi_copilot.Book.{sort_desc}
use kalshi_copilot.Fees.{taker_fee_cents, taker_rate, multipliers, round_up_centicents, validate}
use kalshi_copilot.Samples.{schedule}
use kalshi_copilot.Arbitrage.{
  sell_set, LegBook, SetOpportunity, consume, walk_set, fees_of, price_legs, price_set, leg_fill,
}
use kalshi_copilot.Arbitrage.Profit.{settled_yes}
use kalshi_copilot.Arbitrage.Riskless.{IsRiskless, price_set-IsRiskless}

-- Two legs that are bid at 60 and 55 cents.
abbrev first_leg : LegBook
first_leg = record { ticker = codes "KXA-1"; yes = (pos 600000, pos 1000) ∷ []; no = [] }

abbrev second_leg : LegBook
second_leg = record {
  ticker = codes "KXA-2";
  yes = (pos 550000, pos 300) ∷ (pos 540000, pos 900) ∷ [];
  no = [];
}

abbrev set_books : List LegBook
set_books = first_leg ∷ second_leg ∷ []

abbrev costed_set : SetOpportunity
costed_set = record {
  event_ticker = codes "KXA";
  direction = sell_set;
  contracts = pos 1000;
  legs =
      leg_fill (codes "KXA-1") (pos 600000000) (pos 1000) (pos 16800000)
      ∷ leg_fill (codes "KXA-2") (pos 543000000) (pos 1000) (pos 17380000)
      ∷ [];
  gross_sum = record { numerator = pos 1143000000; denominator = 1000 };
  total_fee_cents = pos 34180000;
  net_edge_cents = pos 108820000;
}

-- Only the second leg resolves YES.
abbrev second_wins : Text → Bool
second_wins t = text_eq t (codes "KXA-2")

set_costed :
    price_set schedule (codes "KXA") set_books (pos 1000) sell_set (pos 0) ≡ ok (some costed_set)
unfolding price_set price_legs walk_set consume fees_of sort_desc ◌+ℤ◌ ◌-ℤ◌ ◌*ℤ◌ taker_fee_cents
    validate taker_rate multipliers round_up_centicents
set_costed = refl

price_set-IsRiskless_example :
    IsRiskless schedule sell_set (pos 0) (pos 1000) set_books second_wins costed_set
price_set-IsRiskless_example =
    price_set-IsRiskless schedule (codes "KXA") set_books (pos 1000) sell_set (pos 0) costed_set
      second_wins set_costed one_wins
  where
    one_wins : settled_yes second_wins costed_set.legs ≤ 1
    one_wins = omega arith
