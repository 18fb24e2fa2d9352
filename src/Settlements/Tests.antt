-- ===== src/Settlements/Tests.antt =====
-- Runs and instances for backend/app/trading/settlements.py.
use kalshi_copilot.Base.{◌≡◌, refl, none, some, List, [], ◌∷◌}
use kalshi_copilot.Base.Int.{pos, negsuc, ◌+ℤ◌, ◌-ℤ◌, ◌*ℤ◌, scale, negate}
use kalshi_copilot.Base.Text.{codes, strip}
use kalshi_copilot.Base.Outcome.{ok}
use kalshi_copilot.Domain.{one, yes_side, buy}
use kalshi_copilot.Positions.{whole, realized_from_fill}
use kalshi_copilot.Interlocks.{simulated}
use kalshi_copilot.Direction.{signed_contracts, to_yes_price}
use kalshi_copilot.Ledger.{
  Books, Position, Fill, Settlement, position_of, apply_fill, roll_daily, add_amount,
}
use kalshi_copilot.Settlements.{
  Payout, Market, settled_yes_value, cents, realized_from_settlement, settle, apply_settlement,
  settle_markets, sync_local_settlements,
}
use kalshi_copilot.Settlements.Once.{filled, entered, apply_settlement_once}
use kalshi_copilot.Settlements.Passes.{sync_local_settlements_twice}
use kalshi_copilot.Settlements.Profit.{realized_from_settlement-realized_from_fill}

-- 5 NO at 0.30 that settle NO: 350 cents.
five_no : realized_from_settlement (negsuc 499) (whole (pos 700000)) (pos 0) ≡ whole (pos 350000000)
unfolding realized_from_settlement ◌*ℤ◌ ◌-ℤ◌ scale
five_no = refl

scalar_value :
    settled_yes_value (some (codes " Scalar ")) (cents (pos 370000)) none ≡ ok (some (pos 370000))
unfolding settled_yes_value strip
scalar_value = refl

abbrev held : Books
held = record {
  positions =
      record {
        ticker = codes "KX";
        route = simulated;
        net_contracts = pos 100;
        avg_price = whole (pos 400000);
        realized_pnl_cents = whole (pos 0);
        fees_paid_cents = pos 0;
      }
      ∷ [];
  pnl_daily = [];
  settled = [];
}

abbrev markets : List Market
markets =
    record {
      ticker = codes "KX";
      result = some (codes "yes");
      settlement_value = none;
      settlement_ts = some 7;
    }
    ∷ []

abbrev settled_books : Books
settled_books = record {
  positions =
      record {
        ticker = codes "KX";
        route = simulated;
        net_contracts = pos 0;
        avg_price = whole (pos 0);
        realized_pnl_cents = whole (pos 60000000);
        fees_paid_cents = pos 0;
      }
      ∷ [];
  pnl_daily =
      record {
        day = 0;
        route = simulated;
        realized_pnl_cents = whole (pos 60000000);
        fees_paid_cents = pos 0;
        trades = 0;
        settlements = 1;
      }
      ∷ [];
  settled =
      record {
        ticker = codes "KX";
        route = simulated;
        settled_yes_value = one;
        net_contracts = pos 100;
        avg_price = whole (pos 400000);
        realized_pnl_cents = whole (pos 60000000);
        fee_cents = pos 0;
        created_at = 9;
      }
      ∷ [];
}

first_pass : sync_local_settlements markets 9 held ≡ ok (1, settled_books)
unfolding sync_local_settlements settle_markets settled_yes_value apply_settlement settle
    realized_from_settlement roll_daily add_amount strip ◌+ℤ◌ ◌-ℤ◌ ◌*ℤ◌ scale
first_pass = refl

sync_local_settlements_twice_example :
    sync_local_settlements markets 50 settled_books ≡ ok (0, settled_books)
sync_local_settlements_twice_example = sync_local_settlements_twice markets 9 50 held first_pass

abbrev paid_yes : Payout
paid_yes = record { ticker = codes "KX"; payout_yes = one; fee_cents = pos 0; settled_at = none }

abbrev paid_row : Settlement
paid_row = record {
  ticker = codes "KX";
  route = simulated;
  settled_yes_value = one;
  net_contracts = pos 100;
  avg_price = whole (pos 400000);
  realized_pnl_cents = whole (pos 60000000);
  fee_cents = pos 0;
  created_at = 9;
}

pays_yes : apply_settlement paid_yes simulated 9 held ≡ (some paid_row, settled_books)
unfolding apply_settlement settle realized_from_settlement roll_daily add_amount ◌+ℤ◌ ◌-ℤ◌ ◌*ℤ◌
    scale
pays_yes = refl

-- A fill that opens the position again.
abbrev bought_again : Fill
bought_again = record {
  order_id = 4;
  ticker = codes "KX";
  side = yes_side;
  action = buy;
  price = pos 500000;
  contracts = pos 100;
  fee_cents = pos 0;
  realized_pnl_cents = whole (pos 0);
  ts = 10;
}

opens_again :
    Position.net_contracts (
      position_of
        (codes "KX")
        simulated
        (entered settled_books (filled bought_again simulated ∷ [])))
    ≡ pos 100
unfolding apply_fill signed_contracts to_yes_price realized_from_fill roll_daily add_amount ◌+ℤ◌
    ◌-ℤ◌ ◌*ℤ◌ scale
opens_again = refl

apply_settlement_once_example :
    apply_settlement
      (record paid_yes { payout_yes = pos 0 })
      simulated
      12
      (entered settled_books (filled bought_again simulated ∷ []))
    ≡ (none, entered settled_books (filled bought_again simulated ∷ []))
apply_settlement_once_example =
    apply_settlement_once paid_yes (record paid_yes { payout_yes = pos 0 }) simulated 9 12 held
      settled_books (filled bought_again simulated ∷ []) pays_yes refl

realized_from_settlement-realized_from_fill_example :
    (realized_from_fill (pos 500) (whole (pos 700000)) (negate (pos 500)) (pos 0) ≡ record {
      net_contracts = pos 0;
      avg_price = whole (pos 0);
      realized_cents = realized_from_settlement (pos 500) (whole (pos 700000)) (pos 0);
    })
    × (realized_from_fill (negsuc 499) (whole (pos 700000)) (negate (negsuc 499)) (pos 0) ≡ record {
      net_contracts = pos 0;
      avg_price = whole (pos 0);
      realized_cents = realized_from_settlement (negsuc 499) (whole (pos 700000)) (pos 0);
    })
realized_from_settlement-realized_from_fill_example =
    realized_from_settlement-realized_from_fill 499 (whole (pos 700000)) (pos 0)
