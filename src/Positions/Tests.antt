-- ===== src/Positions/Tests.antt =====
-- Runs and instances for backend/app/trading/positions.py.
use kalshi_copilot.Base.{◌≡◌, refl}
use kalshi_copilot.Base.Int.{pos, negsuc, ◌+ℤ◌, ◌-ℤ◌, scale}
use kalshi_copilot.Positions.{whole, realized_from_fill}
use kalshi_copilot.Positions.Basis.{Balanced}
use kalshi_copilot.Positions.Conservation.{realized_from_fill-Balanced}

-- Long 1 contract at 0.40, then 3 are sold at 0.50: 10 cents on the one that closes, and the two
-- that are left are short at 0.50.
crossing_zero :
    realized_from_fill (pos 100) (whole (pos 400000)) (negsuc 299) (pos 500000) ≡ record {
      net_contracts = negsuc 199;
      avg_price = whole (pos 500000);
      realized_cents = whole (pos 10000000);
    }
unfolding realized_from_fill ◌+ℤ◌ ◌-ℤ◌ scale
crossing_zero = refl

realized_from_fill-Balanced_example :
    ((realized_from_fill (pos 100) (whole (pos 400000)) (negsuc 299) (pos 500000)).net_contracts
      ≡ pos 100 +ℤ negsuc 299)
    × Balanced
        (pos 100)
        (whole (pos 400000))
        (negsuc 299)
        (pos 500000)
        (realized_from_fill (pos 100) (whole (pos 400000)) (negsuc 299) (pos 500000))
realized_from_fill-Balanced_example =
    realized_from_fill-Balanced (pos 100) (whole (pos 400000)) (negsuc 299) (pos 500000)
