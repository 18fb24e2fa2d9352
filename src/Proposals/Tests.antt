-- ===== src/Proposals/Tests.antt =====
-- Runs and instances for backend/app/trading/proposals.py.
use kalshi_copilot.Base.{
  ◌+◌, ◌*◌, ◌≡◌, refl, true, false, none, some, [], ◌∷◌, All, arith, find, length,
}
use kalshi_copilot.Base.Int.{pos, ◌+ℤ◌, ◌-ℤ◌, ◌*ℤ◌, scale, negate}
use kalshi_copilot.Base.Text.{codes, strip}
use kalshi_copilot.Base.Outcome.{ok, raise}
use kalshi_copilot.Domain.{ProposalStatus, no_side, buy, ask}
use kalshi_copilot.Direction.{book_side, to_yes_price}
use kalshi_copilot.Fees.{
  Ratio, series_of, series_key, validate, multipliers, taker_rate, round_up_centicents,
  taker_fee_cents,
}
use kalshi_copilot.Ledger.{add_amount}
use kalshi_copilot.Settings.{credentials_present}
use kalshi_copilot.Interlocks.{
  rejected_by_operator, operator, system_actor, simulated, ProposedTrade, resolve_route,
}
use kalshi_copilot.Store.{Store}
use kalshi_copilot.Exposure.{market_exposure_cents}
use kalshi_copilot.Risk.{active_route, snapshot, recent_losses, recent_closes, consecutive_losses}
use kalshi_copilot.Risk.AtRisk.{at_risk}
use kalshi_copilot.Risk.Thresholds.{AtMost}
use kalshi_copilot.Executor.Approval.{is_proposal}
use kalshi_copilot.Samples.{any_file, paper_settings, paper_config, small_trade, queued, schedule}
use kalshi_copilot.Pricing.{TicketQuote, ticket, edge_of, price_ticket}
use kalshi_copilot.Proposals.{
  Desk, Request, guard_queue_depth, guard_duplicate, guard_halted, guard_market_size, quote_for,
  added, new_proposal, only_leg, already_pending, queue_full, create_proposal,
}
use kalshi_copilot.Proposals.Sets.{SetRequest, create_multi_leg_proposal}
use kalshi_copilot.Proposals.Decisions.{is_stale, reject, expire_stale}
use kalshi_copilot.Proposals.Lifecycle.{Steps, at_rest, then_step, created, swept, turned_down}
use kalshi_copilot.Proposals.Queue.{IsOrderly, pending_count}
use kalshi_copilot.Proposals.Orderly.{steps-IsOrderly, steps-decided}
use kalshi_copilot.Proposals.Expiry.{expire_stale_settles}
use kalshi_copilot.Proposals.Caps.{create_proposal-AtMost}

abbrev desk : Desk
desk = record {
  settings = paper_settings;
  config = paper_config;
  files = any_file;
  schedule = schedule;
  markets = λ t. some (record { status = some (codes "active"); category = none });
}

-- 100 NO at 30 cents.
abbrev request : Request
request = record {
  ticker = codes "KXA-1";
  side = no_side;
  action = buy;
  limit_price = pos 300000;
  contracts = pos 10000;
  source = codes "whale_flow";
  fair_price = none;
  ttl_sec = none;
  actor = system_actor;
}

abbrev quote : TicketQuote
quote = ticket (codes "KXA-1") no_side buy (pos 300000) (pos 10000) none none true 14700 none ask

-- 31.47 of 1000 dollars.
abbrev share : Ratio
share = record { numerator = pos 3147000000; denominator = 100000000000 }

abbrev proposed : ProposedTrade
proposed = new_proposal desk queued request quote share 1000

abbrev later : Store
later = added proposed (only_leg proposed request quote ∷ []) system_actor 1000 queued

creates : create_proposal desk queued request 1000 ≡ ok (later, proposed, quote)
unfolding create_proposal quote_for price_ticket series_of strip taker_fee_cents validate taker_rate
    multipliers series_key round_up_centicents edge_of book_side to_yes_price guard_halted
    guard_queue_depth guard_duplicate guard_market_size resolve_route credentials_present snapshot
    recent_losses recent_closes consecutive_losses market_exposure_cents add_amount ◌+ℤ◌ ◌-ℤ◌ ◌*ℤ◌
    scale negate
creates = refl

-- The queue is full: the configuration lets two proposals wait.
refuses_third : create_proposal desk later request 1000 ≡ raise queue_full
unfolding create_proposal quote_for price_ticket series_of strip taker_fee_cents validate taker_rate
    multipliers series_key round_up_centicents edge_of book_side to_yes_price guard_halted
    guard_queue_depth resolve_route credentials_present snapshot recent_losses recent_closes
    consecutive_losses ◌+ℤ◌ ◌-ℤ◌ ◌*ℤ◌ scale negate
refuses_third = refl

-- A set on the event that the detector has in the queue already.
abbrev repeated : SetRequest
repeated = record {
  event_ticker = codes "KXINX-1";
  legs =
      record {
        ticker = codes "KXINX-1";
        side = no_side;
        action = buy;
        limit_price = pos 300000;
        contracts = pos 100;
        fair_price = none;
        est_fee_cents = none;
      }
      ∷ record {
        ticker = codes "KXINX-2";
        side = no_side;
        action = buy;
        limit_price = pos 300000;
        contracts = pos 100;
        fair_price = none;
        est_fee_cents = none;
      }
      ∷ [];
  source = codes "sniper";
  net_edge_cents = none;
  est_fee_cents = none;
  max_loss_cents = none;
  ttl_sec = none;
  actor = system_actor;
}

refuses_repeat : create_multi_leg_proposal desk queued repeated 1000 ≡ raise already_pending
unfolding create_multi_leg_proposal guard_halted guard_queue_depth guard_duplicate resolve_route
    credentials_present snapshot recent_losses recent_closes consecutive_losses ◌+ℤ◌ ◌-ℤ◌ ◌*ℤ◌ scale
    negate
refuses_repeat = refl

orderly : IsOrderly desk queued.proposals
orderly = record { unique = (tt, tt); bounded = omega arith; no_repeats = (tt, tt) }

-- A detector proposes, the operator turns the older one down, and the expiry runs.
abbrev some_steps :
    Steps desk queued (expire_stale 200000000 (reject later small_trade none operator 900).0).0
some_steps =
    then_step
      (then_step (then_step (at_rest queued) (created request 1000 creates))
        (turned_down later small_trade none operator 900))
      (swept (reject later small_trade none operator 900).0 200000000)

steps-IsOrderly_example :
    IsOrderly desk
      (expire_stale 200000000 (reject later small_trade none operator 900).0).0.proposals
steps-IsOrderly_example = steps-IsOrderly desk queued _ orderly some_steps

abbrev declined : Store
declined = (reject queued small_trade none operator 900).0

abbrev declined_row : ProposedTrade
declined_row = record small_trade {
  status = ProposalStatus.rejected;
  decided_at = some 900;
  decision_reason = some rejected_by_operator;
}

declined_found : find (is_proposal 7) declined.proposals ≡ some declined_row
unfolding reject
declined_found = refl

declined-IsOrderly : IsOrderly desk declined.proposals
declined-IsOrderly =
    steps-IsOrderly desk queued declined orderly
      (then_step (at_rest queued) (turned_down queued small_trade none operator 900))

steps-decided_example :
    find (is_proposal 7) (expire_stale 200000000 declined).0.proposals ≡ some declined_row
steps-decided_example =
    steps-decided desk declined (expire_stale 200000000 declined).0 7 declined-IsOrderly
      declined_found refl (then_step (at_rest declined) (swept declined 200000000))

expire_stale_settles_example :
    let (t, expired) = expire_stale 200000000 later in
    All (λ (p : ProposedTrade). is_stale 200000000 p ≡ false) t.proposals
    × (pending_count t.proposals + expired ≡ pending_count later.proposals)
    × (length t.audit_log ≡ length later.audit_log + expired)
    × (expire_stale 100000000 t ≡ (t, 0))
expire_stale_settles_example = expire_stale_settles 200000000 100000000 later (omega arith)

active_simulated : active_route any_file paper_settings paper_config ≡ some simulated
unfolding resolve_route
active_simulated = refl

create_proposal-AtMost_example :
    AtMost (at_risk later simulated (codes "KXA-1" ∷ []) none none) (100000 * 50000)
create_proposal-AtMost_example =
    create_proposal-AtMost desk queued later request 1000 simulated active_simulated (omega arith)
      creates
