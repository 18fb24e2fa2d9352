-- ===== src/Interlocks.antt =====
-- backend/app/trading/interlocks.py: where an approved order goes, and every check before it does.
pub mod Cleared
pub mod Execution
pub mod Routes
mod Tests
use kalshi_copilot.Base.{
  ℕ, ◌+◌, Bool, true, false, not, ◌&&◌, ◌||◌, Option, none, some, List, [], ◌∷◌, if◌then◌else◌, ltb,
  leb, ◌==◌, is_some, is_nil, or_else,
}
use kalshi_copilot.Base.Int.{ℤ, pos, negsuc, sub_ℕ, ltb_ℤ}
use kalshi_copilot.Base.Text.{Text, text_eq, strip, upper}
use kalshi_copilot.Base.Outcome.{Outcome, ok, raise, ◌>>=◌, ◌>>◌, raise_if}
use kalshi_copilot.Domain.{ProposalStatus, is_pending}
use kalshi_copilot.Fees.{Ratio}
use kalshi_copilot.Settings.{
  Settings, Files, is_prod, live_trading_armed, autonomous_live_armed, credentials_present, Mode,
  is_live_mode, RouteConfig, Config, Refusal, live_mode_not_armed, not_confirmed, ambiguous_consent,
  kill_switch_engaged, not_pending, proposal_expired, confirmation_phrase_mismatch, no_credentials,
  autonomy_disabled, autonomous_not_armed, autonomous_route_not_armed, autonomous_live_not_armed,
  consent_proposal_mismatch, consent_route_mismatch, consent_stale,
}

pub data ExecutionRoute : Type 0 where
  simulated demo_exchange live_exchange : ExecutionRoute

abbrev pub is_live : ExecutionRoute → Bool
is_live live_exchange = true
is_live _ = false

abbrev pub is_simulated : ExecutionRoute → Bool
is_simulated simulated = true
is_simulated _ = false

abbrev pub hits_exchange : ExecutionRoute → Bool
hits_exchange r = not (is_simulated r)

abbrev pub same_route : ExecutionRoute → ExecutionRoute → Bool
same_route simulated simulated = true
same_route demo_exchange demo_exchange = true
same_route live_exchange live_exchange = true
same_route _ _ = false

-- `getattr(config.autonomous.routes, route.value, False)`
abbrev pub armed_route : RouteConfig → ExecutionRoute → Bool
armed_route r simulated = r.simulated
armed_route r demo_exchange = r.demo_exchange
armed_route r live_exchange = r.live_exchange

-- Who acts, in the audit log.
pub data Actor : Type 0 where
  operator autonomous_actor system_actor : Actor

-- The text of `decision_reason`, by its template.
pub data DecisionReason : Type 0 where
  auto_approved : Text → ℕ → Option ℤ → DecisionReason
  approved_by : Actor → DecisionReason
  placement_failed : DecisionReason
  unbalanced : ℕ → ℕ → DecisionReason
  ttl_elapsed : DecisionReason
  rejected_by_operator : DecisionReason
  rejected_for : Text → DecisionReason

-- A `ProposedTrade` row, without its rationale and the signal it came from; an amount is in microcents.
pub record ProposedTrade : Type 0 where
  pub id : ℕ
  pub source : Text
  pub event_ticker : Option Text
  pub ticker : Text
  pub leg_count : ℕ
  pub net_edge_cents : Option Ratio
  pub est_fee_cents : Option ℤ
  pub max_loss_cents : Option ℤ
  pub pct_of_bankroll : Ratio
  pub status : ProposalStatus
  pub expires_at : Option ℕ
  pub created_at : Option ℕ
  pub decided_at : Option ℕ
  pub decision_reason : Option DecisionReason

-- The subject of a `MachineConsent`, its age, and what its audit row repeats.
pub record MachineConsent : Type 0 where
  pub proposal_id : ℕ
  pub route : ExecutionRoute
  pub detector : Text
  pub trades : ℕ
  pub ci_low_cents : Option ℤ
  pub evidence_computed_at : ℕ
  pub issued_at : ℕ

unfoldable pub resolve_route : Files → Settings → Config → Outcome Refusal ExecutionRoute
resolve_route files settings config =
    if is_live_mode config.trading.mode
    then (raise_if (not (live_trading_armed settings)) live_mode_not_armed >> ok live_exchange)
    else if is_prod settings
    then ok simulated
    else if config.trading.paper_uses_demo_exchange && credentials_present files settings
    then ok demo_exchange
    else ok simulated

-- `age > MAX_CONSENT_AGE or age < -MAX_CONSENT_AGE`, at 30 seconds.
abbrev pub out_of_date : ℕ → ℕ → Bool
out_of_date issued_at now =
    let age = sub_ℕ now issued_at in ltb_ℤ (pos 30000000) age || ltb_ℤ age (negsuc 29999999)

-- `_check_machine_consent`
unfoldable pub check_machine_consent :
    MachineConsent
    → Settings
    → Config
    → ProposedTrade
    → ExecutionRoute
    → ℕ
    → Outcome Refusal (Unit {0})
check_machine_consent consent settings config proposal route now =
    raise_if (not config.autonomous.enabled) autonomy_disabled
    >> raise_if (not settings.autonomous_trading) autonomous_not_armed
    >> raise_if (not (armed_route config.autonomous.routes route)) autonomous_route_not_armed
    >> raise_if (is_live route && not (autonomous_live_armed settings)) autonomous_live_not_armed
    >> raise_if (not (consent.proposal_id == proposal.id)) consent_proposal_mismatch
    >> raise_if (not (same_route consent.route route)) consent_route_mismatch
    >> raise_if (out_of_date consent.issued_at now) consent_stale

-- `if machine_consent is not None: _check_machine_consent(...)`
abbrev pub check_any_consent :
    Option MachineConsent
    → Settings
    → Config
    → ProposedTrade
    → ExecutionRoute
    → ℕ
    → Outcome Refusal (Unit {0})
check_any_consent none settings config proposal route now = ok tt
check_any_consent (some consent) settings config proposal route now =
    check_machine_consent consent settings config proposal route now

-- A text that is neither None nor empty.
abbrev pub given : Option Text → Option Text
given none = none
given (some t) = if is_nil t then none else some t

-- `(proposal.leg_count or 1) > 1 and proposal.event_ticker`
abbrev pub confirmation_target : ProposedTrade → Text
confirmation_target p =
    if ltb 1 p.leg_count then or_else (given p.event_ticker) p.ticker else p.ticker

abbrev pub phrase_matches : Option Text → ProposedTrade → Bool
phrase_matches phrase p =
    text_eq (upper (strip (or_else phrase []))) (upper (confirmation_target p))

-- `proposal.expires_at is not None and proposal.expires_at <= now`
abbrev pub has_expired : Option ℕ → ℕ → Bool
has_expired none now = false
has_expired (some t) now = leb t now

-- The checks before the route is known.
unfoldable pub check_open :
    ProposedTrade → Config → Bool → Bool → Option MachineConsent → ℕ → Outcome Refusal (Unit {0})
check_open proposal config confirmed kill_switch consent now =
    raise_if (not (is_some consent) && not confirmed) not_confirmed
    >> raise_if (is_some consent && confirmed) ambiguous_consent
    >> raise_if (kill_switch || config.risk.kill_switch) kill_switch_engaged
    >> raise_if (not (is_pending proposal.status)) not_pending
    >> raise_if (has_expired proposal.expires_at now) proposal_expired

-- The checks on the route.
unfoldable pub check_route :
    Files
    → ProposedTrade
    → Settings
    → Config
    → Option MachineConsent
    → Option Text
    → ℕ
    → ExecutionRoute
    → Outcome Refusal (Unit {0})
check_route files proposal settings config consent phrase now route =
    check_any_consent consent settings config proposal route now
    >> raise_if (not (is_some consent) && is_live route && not (phrase_matches phrase proposal))
        confirmation_phrase_mismatch
    >> raise_if (hits_exchange route && not (credentials_present files settings)) no_credentials

unfoldable pub check_execution :
    Files
    → ProposedTrade
    → Settings
    → Config
    → Bool
    → Bool
    → Option MachineConsent
    → Option Text
    → ℕ
    → Outcome Refusal ExecutionRoute
check_execution files proposal settings config confirmed kill_switch consent phrase now =
    check_open proposal config confirmed kill_switch consent now
    >> (resolve_route files settings config >>= λ route.
        check_route files proposal settings config consent phrase now route >> ok route)

-- The flags of `posture` that say what may happen.
pub record Posture : Type 0 where
  pub execution_route : Option ExecutionRoute
  pub route_blocked_by : Option Refusal
  pub real_money : Bool
  pub autonomy_route_armed : Bool
  pub autonomy_live_armed : Bool
  pub autonomy_configured : Bool

-- What `posture` says of a route, or of the refusal of one.
abbrev pub posture_of : Settings → Config → Outcome Refusal ExecutionRoute → Posture
posture_of settings config (ok route) = record {
  execution_route = some route;
  route_blocked_by = none;
  real_money = is_live route;
  autonomy_route_armed = armed_route config.autonomous.routes route;
  autonomy_live_armed = autonomous_live_armed settings;
  autonomy_configured =
      config.autonomous.enabled
      && settings.autonomous_trading
      && armed_route config.autonomous.routes route;
}
posture_of settings config (raise code) = record {
  execution_route = none;
  route_blocked_by = some code;
  real_money = false;
  autonomy_route_armed = false;
  autonomy_live_armed = autonomous_live_armed settings;
  autonomy_configured = config.autonomous.enabled && settings.autonomous_trading && false;
}

unfoldable pub posture : Files → Settings → Config → Posture
posture files settings config = posture_of settings config (resolve_route files settings config)
