-- ===== src/Risk/Tests.antt =====
-- Runs and instances for backend/app/trading/risk.py.
use kalshi_copilot.Base.{◌≡◌, refl, ◌↔◌, none, some, [], ◌∷◌, or_else, arith, count_if}
use kalshi_copilot.Base.Int.{pos, negsuc, ◌+ℤ◌, ◌-ℤ◌, ◌≤ℤ◌, scale, negate}
use kalshi_copilot.Base.Text.{codes}
use kalshi_copilot.Base.Outcome.{ok, raise}
use kalshi_copilot.Settings.{credentials_present, exceeds_market_limit}
use kalshi_copilot.Interlocks.{simulated, resolve_route}
use kalshi_copilot.Positions.{whole}
use kalshi_copilot.Ledger.{add_amount}
use kalshi_copilot.Store.{Store}
use kalshi_copilot.Samples.{any_file, paper_settings, paper_config, small_trade}
use kalshi_copilot.Settlements.{realized_from_settlement}
use kalshi_copilot.Exposure.{position_cost_cents, market_exposure_cents}
use kalshi_copilot.Risk.{
  consecutive_losses, is_loss, snapshot, recent_losses, recent_closes, check_limits, guard_approval,
}
use kalshi_copilot.Risk.Limits.{guard_approval-Within, Within}
use kalshi_copilot.Risk.Streak.{consecutive_losses-before_gain, before_gain}
use kalshi_copilot.Risk.Worst.{position_cost_cents_worst, worst_payout}

-- 99 YES at 0.50, on the market of the trade: 49.50 dollars of a cap of 50.
abbrev invested : Store
invested = record {
  books = record {
    positions =
        record {
          ticker = codes "KXINX-1";
          route = simulated;
          net_contracts = pos 9900;
          avg_price = whole (pos 500000);
          realized_pnl_cents = whole (pos 0);
          fees_paid_cents = pos 0;
        }
        ∷ [];
    pnl_daily = [];
    settled = [];
  };
  proposals = small_trade ∷ [];
  legs = [];
  orders = [];
  fills = [];
  audit_log = [];
}

on_simulator : resolve_route any_file paper_settings paper_config ≡ ok simulated
unfolding resolve_route credentials_present
on_simulator = refl

over_the_cap :
    guard_approval invested paper_config paper_settings any_file
      (some (pos 400000000))
      10
      (codes "KXINX-1" ∷ [])
      none
      (some 7)
    ≡ raise exceeds_market_limit
unfolding guard_approval resolve_route credentials_present check_limits snapshot recent_losses
    recent_closes market_exposure_cents position_cost_cents add_amount ◌+ℤ◌ ◌-ℤ◌ scale negate
over_the_cap = refl

guard_approval-Within_example :
    (guard_approval invested paper_config paper_settings any_file
        (some (pos 400000000))
        10
        (codes "KXINX-1" ∷ [])
        none
        (some 7)
      ≡ ok (some (snapshot invested paper_config simulated 10)))
    ↔ Within invested paper_config simulated 10
        (or_else (some (pos 400000000)) (pos 0))
        (codes "KXINX-1" ∷ [])
        none
        (some 7)
guard_approval-Within_example =
    guard_approval-Within invested paper_config paper_settings any_file (some (pos 400000000)) 10
      (codes "KXINX-1" ∷ []) none (some 7) simulated on_simulator

consecutive_losses-before_gain_example :
    consecutive_losses (whole (negsuc 4) ∷ whole (pos 0) ∷ whole (negsuc 1) ∷ whole (pos 3) ∷ [])
    ≡ count_if is_loss
        (before_gain (whole (negsuc 4) ∷ whole (pos 0) ∷ whole (negsuc 1) ∷ whole (pos 3) ∷ []))
consecutive_losses-before_gain_example =
    consecutive_losses-before_gain
      (whole (negsuc 4) ∷ whole (pos 0) ∷ whole (negsuc 1) ∷ whole (pos 3) ∷ [])

position_cost_cents_worst_example :
    ((realized_from_settlement
        (negsuc 499)
        (whole (pos 700000))
        (worst_payout (negsuc 499))).numerator
      ≡ negate (position_cost_cents (negsuc 499) (whole (pos 700000))).numerator)
    × (negate (position_cost_cents (negsuc 499) (whole (pos 700000))).numerator
        ≤ℤ (realized_from_settlement (negsuc 499) (whole (pos 700000)) (pos 0)).numerator)
    × ((realized_from_settlement (negsuc 499) (whole (pos 700000)) (pos 0)).denominator
        ≡ (position_cost_cents (negsuc 499) (whole (pos 700000))).denominator)
position_cost_cents_worst_example =
    position_cost_cents_worst (negsuc 499) (whole (pos 700000)) (pos 0) refl (omega arith)
      (omega arith)
