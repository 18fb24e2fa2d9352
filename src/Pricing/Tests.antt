-- ===== src/Pricing/Tests.antt =====
-- Runs and instances for backend/app/trading/pricing.py.
use kalshi_copilot.Base.{◌≡◌, refl, true, none, some}
use kalshi_copilot.Base.Int.{pos, ◌+ℤ◌, ◌-ℤ◌, ◌*ℤ◌}
use kalshi_copilot.Base.Text.{codes, strip}
use kalshi_copilot.Base.Outcome.{ok, raise, ◌>>=◌}
use kalshi_copilot.Domain.{no_side, buy, sell, ask, one}
use kalshi_copilot.Direction.{book_side, to_yes_price, opposite_side}
use kalshi_copilot.Fees.{
  series_of, series_key, validate, multipliers, taker_rate, round_up_centicents, taker_fee_cents,
  net_edge_cents,
}
use kalshi_copilot.Samples.{live_config, schedule}
use kalshi_copilot.Pricing.{TicketQuote, ticket, edge_of, bad_fair_price, price_ticket}
use kalshi_copilot.Pricing.Settled.{Priced, price_ticket-Priced}
use kalshi_copilot.Pricing.Opposite.{terms, rest_of, price_ticket-opposite_side}

-- 100 NO at 30 cents with a fair value of 40: the fee is 1.47 dollars.
abbrev quote : TicketQuote
quote =
    ticket (codes "KXA-1") no_side buy (pos 300000) (pos 10000) none (some (pos 400000)) true 14700
      (some (record { numerator = pos 803000000; denominator = 10000 })) ask

priced :
    price_ticket schedule
      (codes "KXA-1")
      no_side
      buy
      (pos 300000)
      (pos 10000)
      none
      live_config
      (some (pos 400000))
      none
    ≡ ok quote
unfolding price_ticket series_of strip taker_fee_cents validate taker_rate multipliers series_key
    round_up_centicents edge_of net_edge_cents book_side to_yes_price ◌+ℤ◌ ◌-ℤ◌ ◌*ℤ◌
priced = refl

-- 56 dollars is no fair value.
cents_refused :
    price_ticket schedule
      (codes "KXA-1")
      no_side
      buy
      (pos 300000)
      (pos 10000)
      none
      live_config
      (some (pos 56000000))
      none
    ≡ raise bad_fair_price
unfolding price_ticket series_of strip taker_fee_cents validate taker_rate multipliers series_key
    round_up_centicents edge_of ◌-ℤ◌
cents_refused = refl

price_ticket-Priced_example : Priced schedule quote
price_ticket-Priced_example =
    price_ticket-Priced schedule (codes "KXA-1") no_side buy (pos 300000) (pos 10000) none
      live_config (some (pos 400000)) none priced

price_ticket-opposite_side_example :
    (price_ticket schedule
        (codes "KXA-1")
        (opposite_side no_side)
        buy
        (one -ℤ pos 300000)
        (pos 10000)
        none
        live_config
        (rest_of (some (pos 400000)))
        none
      >>= λ q. ok (terms q))
    ≡ (price_ticket schedule
          (codes "KXA-1")
          no_side
          sell
          (pos 300000)
          (pos 10000)
          none
          live_config
          (some (pos 400000))
          none
        >>= λ q. ok (terms q))
price_ticket-opposite_side_example =
    price_ticket-opposite_side schedule (codes "KXA-1") no_side (pos 300000) (pos 10000) none
      live_config (some (pos 400000)) none
