-- ===== src/Sweep/Tests.antt =====
-- Runs and instances for the sweep of backend/app/trading/autonomy.py.
use kalshi_copilot.Base.{◌≡◌, refl, ◌⊎◌, inl, true, false, none, some, [], ◌∷◌}
use kalshi_copilot.Base.Int.{pos, ◌+ℤ◌, ◌-ℤ◌, ◌*ℤ◌, scale, negate}
use kalshi_copilot.Base.Text.{codes, strip}
use kalshi_copilot.Base.Outcome.{ok}
use kalshi_copilot.Domain.{yes_side, buy}
use kalshi_copilot.Direction.{book_side, to_yes_price, signed_contracts}
use kalshi_copilot.Store.{Store}
use kalshi_copilot.Settings.{credentials_present, disarmed}
use kalshi_copilot.Interlocks.{
  simulated, resolve_route, check_open, check_route, check_machine_consent, check_execution,
}
use kalshi_copilot.Paper.{simulate_fills, levels_for, read_levels, sort_asc, fill_levels}
use kalshi_copilot.Positions.{realized_from_fill}
use kalshi_copilot.Ledger.{apply_fill, roll_daily, add_amount}
use kalshi_copilot.Exposure.{market_exposure_cents, position_cost_cents}
use kalshi_copilot.Risk.{guard_approval, check_limits, snapshot, recent_losses, recent_closes}
use kalshi_copilot.Autonomy.{
  disarm_reason, disarm, budget_state, check_budget, check_evidence, check_gate, evaluate,
}
use kalshi_copilot.Samples.{paper_settings, paper_config, small_trade, measured, queued, executor}
use kalshi_copilot.Executor.{settle_status, record_fill, record_fills, fill_simulated, each_order}
use kalshi_copilot.Executor.Legs.{outcome, new_orders, place_legs}
use kalshi_copilot.Executor.Approval.{carry_out, approve_and_execute}
use kalshi_copilot.Sweep.{Sweeper, SweepResult, candidates, consider, was_ambiguous, sweep}
use kalshi_copilot.Sweep.Latched.{sweep_stopped}
use kalshi_copilot.Sweep.Passes.{AccountedPass, consider-Accounted, Swept, sweep-Swept}

abbrev sweeper : Sweeper
sweeper = record {
  executor = executor;
  settings = paper_settings;
  config = paper_config;
  evidence = some measured;
  kill_switch = false;
  kill_switch_at = λ p. false;
  clock_at = λ p. 20000001;
  latch_answers_at = λ p. true;
  latch_persists = true;
  now = 20000000;
}

approves_one :
    (sweep sweeper queued none).result
    ≡ ok (record { considered = 1; approved = 1; failed = 0; refusals = []; disarmed = none })
unfolding sweep candidates consider was_ambiguous evaluate check_gate check_evidence check_budget
    budget_state disarm_reason approve_and_execute check_execution check_open resolve_route
    check_route check_machine_consent credentials_present guard_approval check_limits snapshot
    recent_losses recent_closes market_exposure_cents position_cost_cents carry_out place_legs
    new_orders each_order fill_simulated simulate_fills levels_for read_levels sort_asc fill_levels
    record_fills record_fill apply_fill signed_contracts book_side to_yes_price realized_from_fill
    roll_daily add_amount settle_status outcome strip ◌+ℤ◌ ◌-ℤ◌ ◌*ℤ◌ scale negate
approves_one = refl

-- A latch that is set refuses every candidate.
latched :
    (sweep sweeper queued (some (codes "drift"))).result
    ≡ ok (record {
      considered = 1;
      approved = 0;
      failed = 0;
      refusals = disarmed ∷ [];
      disarmed = none;
    })
unfolding sweep candidates consider evaluate check_gate disarm_reason resolve_route
latched = refl

consider-Accounted_example :
    AccountedPass true none 1 (consider sweeper simulated (small_trade ∷ []) queued none)
consider-Accounted_example = consider-Accounted sweeper simulated (small_trade ∷ []) queued none

sweep-Swept_example :
    ((sweep sweeper queued none).store ≡ queued)
    ⊎ Swept sweeper none queued (sweep sweeper queued none).store
sweep-Swept_example = sweep-Swept sweeper queued none

-- Two legs, of which the second asks for a price that no level has.
abbrev unbalanced_legs : Store
unbalanced_legs = record queued {
  legs =
      record {
        proposal_id = 7;
        seq = 1;
        ticker = codes "KXINX-2";
        side = yes_side;
        action = buy;
        limit_price = pos 100000;
        contracts = pos 10000;
        fair_price = none;
        est_fee_cents = none;
      }
      ∷ queued.legs;
}

abbrev half : SweepResult
half = record {
  considered = 1;
  approved = 1;
  failed = 0;
  refusals = [];
  disarmed = some (codes "filled partially");
}

stops_on_half : (sweep sweeper unbalanced_legs none).result ≡ ok half
unfolding sweep candidates consider was_ambiguous evaluate check_gate check_evidence check_budget
    budget_state disarm_reason approve_and_execute check_execution check_open resolve_route
    check_route check_machine_consent credentials_present guard_approval check_limits snapshot
    recent_losses recent_closes market_exposure_cents position_cost_cents carry_out place_legs
    new_orders each_order fill_simulated simulate_fills levels_for read_levels sort_asc fill_levels
    record_fills record_fill apply_fill signed_contracts book_side to_yes_price realized_from_fill
    roll_daily add_amount settle_status outcome strip ◌+ℤ◌ ◌-ℤ◌ ◌*ℤ◌ scale negate
stops_on_half = refl

-- The write of the latch is lost, and Redis answers again: the next pass trades.
abbrev lost : Sweeper
lost = record sweeper { latch_persists = false }

trades_on :
    (sweep sweeper queued (sweep lost unbalanced_legs none).latch).result
    ≡ ok (record { considered = 1; approved = 1; failed = 0; refusals = []; disarmed = none })
unfolding sweep candidates consider was_ambiguous evaluate check_gate check_evidence check_budget
    budget_state disarm_reason disarm approve_and_execute check_execution check_open resolve_route
    check_route check_machine_consent credentials_present guard_approval check_limits snapshot
    recent_losses recent_closes market_exposure_cents position_cost_cents carry_out place_legs
    new_orders each_order fill_simulated simulate_fills levels_for read_levels sort_asc fill_levels
    record_fills record_fill apply_fill signed_contracts book_side to_yes_price realized_from_fill
    roll_daily add_amount settle_status outcome strip ◌+ℤ◌ ◌-ℤ◌ ◌*ℤ◌ scale negate
trades_on = refl

sweep_stopped_example :
    (sweep sweeper queued (sweep sweeper unbalanced_legs none).latch).store ≡ queued
sweep_stopped_example =
    sweep_stopped sweeper sweeper unbalanced_legs queued none stops_on_half refl (inl refl)
