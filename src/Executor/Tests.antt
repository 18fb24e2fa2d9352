-- ===== src/Executor/Tests.antt =====
-- Runs and instances for backend/app/trading/executor.py, with a fee of 1 centicent a fill.
use kalshi_copilot.Base.{◌≡◌, refl, ◌⊎◌, true, false, none, some, []}
use kalshi_copilot.Base.Int.{pos, ◌+ℤ◌, ◌-ℤ◌, ◌*ℤ◌, scale, negate}
use kalshi_copilot.Base.Text.{codes, strip}
use kalshi_copilot.Base.Outcome.{ok}
use kalshi_copilot.Domain.{yes_side, buy, OrderStatus}
use kalshi_copilot.Direction.{book_side, to_yes_price, signed_contracts}
use kalshi_copilot.Settings.{credentials_present, gtc}
use kalshi_copilot.Interlocks.{
  ExecutionRoute, simulated, demo_exchange, operator, autonomous_actor, system_actor, resolve_route,
  check_open, check_route, check_execution,
}
use kalshi_copilot.Paper.{simulate_fills, levels_for, read_levels, sort_asc, fill_levels}
use kalshi_copilot.Positions.{realized_from_fill}
use kalshi_copilot.Ledger.{apply_fill, roll_daily, add_amount}
use kalshi_copilot.Store.{Order, derived}
use kalshi_copilot.Exposure.{market_exposure_cents, position_cost_cents}
use kalshi_copilot.Risk.{guard_approval, check_limits, snapshot, recent_losses, recent_closes}
use kalshi_copilot.Samples.{queued, exchange, executor, small_trade, small_consent}
use kalshi_copilot.Executor.{settle_status, record_fill, record_fills, fill_simulated, each_order}
use kalshi_copilot.Executor.Legs.{outcome, new_orders, place_legs}
use kalshi_copilot.Executor.Approval.{carry_out, approve_and_execute, locked}
use kalshi_copilot.Executor.Once.{approve_and_execute_once}
use kalshi_copilot.Executor.Audit.{approve_and_execute-Recorded, Recorded}
use kalshi_copilot.Executor.Cancel.{cancel, cancel-NotHeld, NotHeld, mark_canceled}

abbrev part_filled : Order
part_filled = record {
  id = 1;
  proposal_id = 7;
  client_order_id = derived 7 0 0;
  exchange_order_id = none;
  ticker = codes "KXINX-1";
  side = yes_side;
  action = buy;
  limit_price = pos 460000;
  contracts = pos 10000;
  filled_contracts = pos 8000;
  time_in_force = gtc;
  status = OrderStatus.partially_filled;
  route = simulated;
  error = none;
}

-- The operator approves: 80 of the 100 contracts fill.
approved_by_hand :
    (approve_and_execute executor queued small_trade true none none operator false 800).1
    ≡ ok part_filled
unfolding approve_and_execute check_execution check_open resolve_route check_route
    credentials_present guard_approval check_limits snapshot recent_losses recent_closes
    market_exposure_cents position_cost_cents carry_out place_legs new_orders each_order
    fill_simulated simulate_fills levels_for read_levels sort_asc fill_levels record_fills
    record_fill apply_fill signed_contracts book_side to_yes_price realized_from_fill roll_daily
    add_amount settle_status outcome strip ◌+ℤ◌ ◌-ℤ◌ ◌*ℤ◌ scale negate
approved_by_hand = refl

approve_and_execute_once_example :
    let s' =
      (approve_and_execute executor queued small_trade true none none operator false 800).0 in
    (s' ≡ queued)
    ⊎ ((approve_and_execute executor s' small_trade false none
          (some small_consent)
          autonomous_actor
          false
          900).0
        ≡ s')
approve_and_execute_once_example =
    approve_and_execute_once executor executor queued small_trade small_trade true false none none
      none (some small_consent) operator autonomous_actor false false 800 900 refl refl

approve_and_execute-Recorded_example :
    ((approve_and_execute executor queued small_trade false none
        (some small_consent)
        operator
        false
        800).0
      ≡ queued)
    ⊎ ((route : ExecutionRoute) × (check_execution executor.files
            (locked queued small_trade)
            executor.settings
            executor.config
            false
            false
            (some small_consent)
            none
            800
          ≡ ok route)
        × Recorded
            (locked queued small_trade)
            (some small_consent)
            operator
            800
            route
            (approve_and_execute executor queued small_trade false none
              (some small_consent)
              operator
              false
              800).0)
approve_and_execute-Recorded_example =
    approve_and_execute-Recorded executor queued small_trade false none (some small_consent)
      operator false 800

abbrev on_exchange : Order
on_exchange = record part_filled { route = demo_exchange; exchange_order_id = some (codes "x1") }

gone :
    cancel (some exchange) on_exchange system_actor 5 []
    ≡ ok (mark_canceled on_exchange system_actor 5 [])
unfolding cancel
gone = refl

cancel-NotHeld_example : NotHeld (some exchange) on_exchange
cancel-NotHeld_example = cancel-NotHeld (some exchange) on_exchange system_actor 5 [] refl gone
