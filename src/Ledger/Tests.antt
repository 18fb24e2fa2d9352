-- ===== src/Ledger/Tests.antt =====
-- Runs and instances for the ledgers of backend/app/trading/positions.py.
use kalshi_copilot.Base.{◌≡◌, refl, [], ◌∷◌}
use kalshi_copilot.Base.Int.{ℤ, pos, negsuc, ◌+ℤ◌, ◌-ℤ◌, scale, negate}
use kalshi_copilot.Base.Text.{codes}
use kalshi_copilot.Base.Outcome.{ok}
use kalshi_copilot.Domain.{yes_side, no_side, buy}
use kalshi_copilot.Direction.{signed_contracts, to_yes_price}
use kalshi_copilot.Positions.{whole, realized_from_fill}
use kalshi_copilot.Interlocks.{simulated}
use kalshi_copilot.Ledger.{Fill, Books, position_of, apply_fill, roll_daily, add_amount}
use kalshi_copilot.Ledger.Net.{apply_fills, net_of_fills, apply_fills-net_of_fills}

abbrev empty : Books
empty = record { positions = []; pnl_daily = []; settled = [] }

-- 2 YES at 0.40, then 3 NO at 0.50: a YES price of 0.50.
abbrev yes_fill : Fill
yes_fill = record {
  order_id = 1;
  ticker = codes "KX";
  side = yes_side;
  action = buy;
  price = pos 400000;
  contracts = pos 200;
  fee_cents = pos 0;
  realized_pnl_cents = whole (pos 0);
  ts = 1;
}

abbrev no_fill : Fill
no_fill = record yes_fill { side = no_side; price = pos 500000; contracts = pos 300 }

abbrev after : Books
after = record {
  positions =
      record {
        ticker = codes "KX";
        route = simulated;
        net_contracts = negsuc 99;
        avg_price = whole (pos 500000);
        realized_pnl_cents = record { numerator = pos 4000000000; denominator = 200 };
        fees_paid_cents = pos 0;
      }
      ∷ [];
  pnl_daily =
      record {
        day = 0;
        route = simulated;
        realized_pnl_cents = record { numerator = pos 4000000000; denominator = 200 };
        fees_paid_cents = pos 0;
        trades = 2;
        settlements = 0;
      }
      ∷ [];
  settled = [];
}

two_fills : apply_fills ((yes_fill, simulated) ∷ (no_fill, simulated) ∷ []) empty ≡ ok after
unfolding apply_fill signed_contracts to_yes_price realized_from_fill roll_daily add_amount ◌+ℤ◌
    ◌-ℤ◌ scale negate
two_fills = refl

apply_fills-net_of_fills_example :
    (n : ℤ) × (net_of_fills
        (codes "KX")
        simulated
        ((yes_fill, simulated) ∷ (no_fill, simulated) ∷ [])
      ≡ ok n)
    × ((position_of (codes "KX") simulated after).net_contracts
        ≡ (position_of (codes "KX") simulated empty).net_contracts +ℤ n)
apply_fills-net_of_fills_example =
    apply_fills-net_of_fills (codes "KX") simulated
      ((yes_fill, simulated) ∷ (no_fill, simulated) ∷ []) empty two_fills
