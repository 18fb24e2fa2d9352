-- ===== src/Direction/Tests.antt =====
-- Runs and instances for backend/app/trading/direction.py.
use kalshi_copilot.Base.{◌≡◌, refl}
use kalshi_copilot.Base.Int.{pos, ◌-ℤ◌, ◌*ℤ◌}
use kalshi_copilot.Base.Outcome.{ok, ◌>>=◌}
use kalshi_copilot.Domain.{no_side, buy, ask, one}
use kalshi_copilot.Direction.{
  book_side, to_yes_price, from_yes_price, opposite_side, signed_contracts,
}
use kalshi_copilot.Direction.Economics.{
  from_yes_price-to_yes_price, signed_contracts_profit, ticket_profit,
}

-- Buy NO at 0.30 is an ask at 0.70.
buy_no_is_ask : book_side no_side buy ≡ ok ask
unfolding book_side
buy_no_is_ask = refl

buy_no_price : to_yes_price no_side (pos 300000) ≡ pos 700000
unfolding to_yes_price ◌-ℤ◌
buy_no_price = refl

from_yes_price-to_yes_price_example :
    (from_yes_price no_side (to_yes_price no_side (pos 300000)) ≡ pos 300000)
    × (to_yes_price (opposite_side no_side) (pos 300000) ≡ one -ℤ to_yes_price no_side (pos 300000))
from_yes_price-to_yes_price_example = from_yes_price-to_yes_price no_side (pos 300000)

signed_contracts_profit_example : ticket_profit no_side buy (pos 500) (pos 300000) (pos 0) ≡ (
    signed_contracts no_side buy (pos 500) >>= λ d.
    ok (d *ℤ (pos 0 -ℤ to_yes_price no_side (pos 300000))))
signed_contracts_profit_example = signed_contracts_profit no_side buy (pos 500) (pos 300000) (pos 0)
