-- ===== src/Samples.antt =====
-- Concrete settings, rows and consents that the tests of several modules run on.
use kalshi_copilot.Base.{true, false, none, some, [], ◌∷◌}
use kalshi_copilot.Base.Int.{pos}
use kalshi_copilot.Base.Text.{codes}
use kalshi_copilot.Base.Outcome.{ok, raise}
use kalshi_copilot.Domain.{ProposalStatus, yes_side, buy}
use kalshi_copilot.Settings.{Settings, Files, is_file, prod, demo, live, paper, gtc, Config}
use kalshi_copilot.Fees.{FeeSchedule}
use kalshi_copilot.Book.{level}
use kalshi_copilot.Store.{Store}
use kalshi_copilot.Autonomy.{Evidence, edge_shown, Latch}
use kalshi_copilot.Wire.{Rest, failure}
use kalshi_copilot.Executor.Legs.{Executor}
use kalshi_copilot.Interlocks.{ProposedTrade, MachineConsent, live_exchange, simulated}

abbrev pub any_file : Files
any_file path = is_file

abbrev pub armed : Settings
armed = record {
  kalshi_env = prod;
  live_trading = true;
  autonomous_trading = true;
  kalshi_prod_key_id = codes "key";
  kalshi_demo_key_id = [];
  kalshi_prod_private_key_path = codes "/k";
  kalshi_demo_private_key_path = [];
}

abbrev pub live_config : Config
live_config = record {
  trading = record {
    mode = live;
    paper_uses_demo_exchange = true;
    time_in_force = gtc;
    default_proposal_ttl_sec = 120;
  };
  risk = record {
    bankroll_cents = 100000;
    max_pct_per_market = 50000;
    max_total_exposure_pct = 400000;
    daily_loss_limit_pct = 50000;
    cooldown_after_consecutive_losses = 3;
    cooldown_minutes = 60;
    kill_switch = false;
    max_pending_proposals = 2;
    kelly_fraction = 250000;
  };
  autonomous = record {
    enabled = true;
    routes = record { simulated = false; demo_exchange = false; live_exchange = true };
    evidence = record {
      require_edge_shown = true;
      require_coverage_usable = true;
      max_report_age_sec = 900;
    };
    budget = record {
      max_trades_per_hour = 2;
      max_trades_per_detector_per_hour = 1;
      max_daily_risk_cents = 1000;
      max_open_positions = 3;
      max_working_orders = 1;
      repeat_cooldown_sec = 3600;
    };
    min_proposal_age_sec = 15;
  };
  costs = record { slippage_buffer_cents = pos 5000; assume_taker = true };
}

abbrev pub proposal : ProposedTrade
proposal = record {
  id = 7;
  source = codes "sniper";
  event_ticker = some (codes "KXINX");
  ticker = codes "KXINX-1";
  leg_count = 2;
  net_edge_cents = none;
  est_fee_cents = none;
  max_loss_cents = none;
  pct_of_bankroll = record { numerator = pos 0; denominator = 1 };
  status = ProposalStatus.pending;
  expires_at = some 900;
  created_at = some 0;
  decided_at = none;
  decision_reason = none;
}

abbrev pub consent : MachineConsent
consent = record {
  proposal_id = 7;
  route = live_exchange;
  detector = codes "sniper";
  trades = 40;
  ci_low_cents = none;
  evidence_computed_at = 100;
  issued_at = 500;
}

-- Paper mode on the simulator, with the machine armed on it.
abbrev pub paper_settings : Settings
paper_settings = record armed { kalshi_env = demo; live_trading = false }

abbrev pub paper_config : Config
paper_config = record live_config {
  trading = record {
    mode = paper;
    paper_uses_demo_exchange = false;
    time_in_force = gtc;
    default_proposal_ttl_sec = 120;
  };
  autonomous = record live_config.autonomous {
    routes = record { simulated = true; demo_exchange = false; live_exchange = false };
  };
}

-- A proposal that puts 4 dollars at risk.
abbrev pub small_trade : ProposedTrade
small_trade = record proposal {
  leg_count = 1;
  event_ticker = none;
  max_loss_cents = some (pos 400000000);
  expires_at = none;
}

abbrev pub small_consent : MachineConsent
small_consent = record consent { route = simulated }

abbrev pub measured : Evidence
measured = record {
  computed_at = 100;
  min_trades = 20;
  coverage_usable = true;
  reports =
      record {
        detector = codes "sniper";
        route = simulated;
        verdict = edge_shown;
        trades = 40;
        ci_low_cents = some (pos 5);
      }
      ∷ [];
}

abbrev pub unlatched : Latch
unlatched = record { reachable = true; reason = none }

abbrev pub queued : Store
queued = record {
  books = record { positions = []; pnl_daily = []; settled = [] };
  proposals = small_trade ∷ [];
  legs =
      record {
        proposal_id = 7;
        seq = 0;
        ticker = codes "KXINX-1";
        side = yes_side;
        action = buy;
        limit_price = pos 460000;
        contracts = pos 10000;
        fair_price = none;
        est_fee_cents = none;
      }
      ∷ [];
  orders = [];
  fills = [];
  audit_log = [];
}

-- A book that offers 80 YES at 0.45, and an exchange that knows no order.
abbrev pub exchange : Rest
exchange = record {
  get_orderbook =
      λ t. some (record { yes_quotes = []; no_quotes = level (pos 550000) (pos 8000) ∷ [] });
  create_order = λ o. raise (failure (some 500));
  create_orders_batch = λ os. raise (failure none);
  cancel_order = λ id. raise (failure (some 404));
}

abbrev pub executor : Executor
executor = record {
  rest = some exchange;
  settings = paper_settings;
  config = paper_config;
  files = any_file;
  costs = record { fee = λ t p c. ok 1; slippage = pos 0 };
}

-- The standard rates, with no table of series.
abbrev pub schedule : FeeSchedule
schedule = record {
  base_taker_rate = 700;
  base_maker_rate = 175;
  default_taker_multiplier = 10000;
  default_maker_multiplier = 0;
  series = [];
  verified_on = some (codes "2026-01-01");
}
