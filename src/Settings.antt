-- ===== src/Settings.antt =====
-- What an approval reads of backend/app/settings.py and backend/app/config.py, and the codes of its
-- refusals. A fraction of the configuration is in millionths, an amount of whole cents in cents, and a
-- time in microseconds.
use kalshi_copilot.Base.{ℕ, Bool, true, false, ◌&&◌, if◌then◌else◌, is_nil}
use kalshi_copilot.Base.Int.{ℤ}
use kalshi_copilot.Base.Text.{Text}

pub data KalshiEnv : Type 0 where
  demo prod : KalshiEnv

abbrev pub is_prod_env : KalshiEnv → Bool
is_prod_env prod = true
is_prod_env demo = false

pub record Settings : Type 0 where
  pub kalshi_env : KalshiEnv
  pub live_trading : Bool
  pub autonomous_trading : Bool
  pub kalshi_prod_key_id : Text
  pub kalshi_demo_key_id : Text
  pub kalshi_prod_private_key_path : Text
  pub kalshi_demo_private_key_path : Text

-- What the operating system says of a path: `Path.is_file()`, or an OSError.
pub data FileAnswer : Type 0 where
  is_file not_file os_error : FileAnswer

abbrev pub Files : Type 0
Files = Text → FileAnswer

abbrev pub is_prod : Settings → Bool
is_prod s = is_prod_env s.kalshi_env

abbrev pub key_id : Settings → Text
key_id s = if is_prod s then s.kalshi_prod_key_id else s.kalshi_demo_key_id

abbrev pub private_key_path : Settings → Text
private_key_path s =
    if is_prod s then s.kalshi_prod_private_key_path else s.kalshi_demo_private_key_path

abbrev pub live_trading_armed : Settings → Bool
live_trading_armed s = is_prod s && s.live_trading

abbrev pub autonomous_live_armed : Settings → Bool
autonomous_live_armed s = is_prod s && s.live_trading && s.autonomous_trading

-- The `try` around `is_file()`.
abbrev pub readable : FileAnswer → Bool
readable is_file = true
readable not_file = false
readable os_error = false

unfoldable pub credentials_present : Files → Settings → Bool
credentials_present files s =
    if is_nil (key_id s) then false else readable (files (private_key_path s))

pub data Mode : Type 0 where
  paper live : Mode

abbrev pub is_live_mode : Mode → Bool
is_live_mode live = true
is_live_mode paper = false

pub data TimeInForce : Type 0 where
  gtc ioc : TimeInForce

pub record TradingConfig : Type 0 where
  pub mode : Mode
  pub paper_uses_demo_exchange : Bool
  pub time_in_force : TimeInForce
  pub default_proposal_ttl_sec : ℕ

pub record RouteConfig : Type 0 where
  pub simulated : Bool
  pub demo_exchange : Bool
  pub live_exchange : Bool

pub record EvidenceConfig : Type 0 where
  pub require_edge_shown : Bool
  pub require_coverage_usable : Bool
  pub max_report_age_sec : ℕ

pub record BudgetConfig : Type 0 where
  pub max_trades_per_hour : ℕ
  pub max_trades_per_detector_per_hour : ℕ
  pub max_daily_risk_cents : ℕ
  pub max_open_positions : ℕ
  pub max_working_orders : ℕ
  pub repeat_cooldown_sec : ℕ

pub record AutonomousConfig : Type 0 where
  pub enabled : Bool
  pub routes : RouteConfig
  pub evidence : EvidenceConfig
  pub budget : BudgetConfig
  pub min_proposal_age_sec : ℕ

pub record RiskConfig : Type 0 where
  pub bankroll_cents : ℕ
  pub max_pct_per_market : ℕ
  pub max_total_exposure_pct : ℕ
  pub daily_loss_limit_pct : ℕ
  pub cooldown_after_consecutive_losses : ℕ
  pub cooldown_minutes : ℕ
  pub kill_switch : Bool
  pub max_pending_proposals : ℕ
  pub kelly_fraction : ℕ

-- The slippage buffer is in ten-thousandths of a cent.
pub record CostsConfig : Type 0 where
  pub slippage_buffer_cents : ℤ
  pub assume_taker : Bool

pub record Config : Type 0 where
  pub trading : TradingConfig
  pub risk : RiskConfig
  pub autonomous : AutonomousConfig
  pub costs : CostsConfig

-- The `code` of an InterlockError, a RiskError or a GateRefusal.
pub data Refusal : Type 0 where
  live_mode_not_armed not_confirmed ambiguous_consent kill_switch_engaged not_pending : Refusal
  proposal_expired confirmation_phrase_mismatch no_credentials actor_spoofed : Refusal
  autonomy_disabled autonomous_not_armed autonomous_route_not_armed : Refusal
  autonomous_live_not_armed consent_proposal_mismatch consent_route_mismatch consent_stale : Refusal
  daily_loss_limit loss_cooldown exceeds_total_exposure exceeds_market_limit : Refusal
  disarmed manual_proposal veto_window_open no_evidence evidence_stale coverage_unusable : Refusal
  no_report insufficient_trades no_edge_shown edge_not_measured hourly_trade_cap : Refusal
  detector_hourly_cap daily_risk_cap open_position_cap working_order_cap repeat_cooldown : Refusal
