-- ===== src/Autonomy.antt =====
-- backend/app/trading/autonomy.py: the gate that authorises the machine for one proposal, from measured
-- evidence and a budget that is read off the audit log.
pub mod Granted
pub mod Refresh
mod Tests
use kalshi_copilot.Base.{
  ℕ, ◌+◌, ◌*◌, ◌/◌, Bool, true, false, not, ◌&&◌, ◌||◌, Option, none, some, List, [], ◌∷◌,
  if◌then◌else◌, find, is_nil, is_some, or_else, leb, ltb, max, count_if,
}
use kalshi_copilot.Base.Int.{ℤ, pos, ◌+ℤ◌, scale, sub_ℕ, ltb_ℤ, leb_ℤ}
use kalshi_copilot.Base.Text.{Text, codes, text_eq, strip}
use kalshi_copilot.Base.Outcome.{Outcome, ok, raise, ◌>>=◌, ◌>>◌, raise_if}
use kalshi_copilot.Domain.{OrderStatus, resting, partially_filled}
use kalshi_copilot.Settings.{
  Settings, autonomous_live_armed, Config, BudgetConfig, Refusal, autonomy_disabled,
  autonomous_not_armed, autonomous_route_not_armed, autonomous_live_not_armed, disarmed,
  manual_proposal, veto_window_open, no_evidence, evidence_stale, coverage_unusable, no_report,
  insufficient_trades, edge_not_measured, hourly_trade_cap, detector_hourly_cap, daily_risk_cap,
  open_position_cap, working_order_cap, repeat_cooldown,
}
use kalshi_copilot.Interlocks.{
  ExecutionRoute, is_live, same_route, armed_route, given, Actor, operator, autonomous_actor,
  system_actor, ProposedTrade, MachineConsent,
}
use kalshi_copilot.Store.{Order, AuditEvent, proposal_approved, AuditLog, Store}
use kalshi_copilot.Exposure.{holds}

pub data Verdict : Type 0 where
  insufficient_evidence no_edge_shown edge_shown losing : Verdict

abbrev pub is_edge_shown : Verdict → Bool
is_edge_shown edge_shown = true
is_edge_shown _ = false

-- What the gate reads of a row of the report card.
pub record DetectorReport : Type 0 where
  pub detector : Text
  pub route : ExecutionRoute
  pub verdict : Verdict
  pub trades : ℕ
  pub ci_low_cents : Option ℤ

pub record Evidence : Type 0 where
  pub computed_at : ℕ
  pub min_trades : ℕ
  pub coverage_usable : Bool
  pub reports : List DetectorReport

abbrev pub report_for : Evidence → Text → ExecutionRoute → Option DetectorReport
report_for e detector route =
    find (λ (r : DetectorReport). text_eq detector r.detector && same_route route r.route) e.reports

-- The latch in Redis; `reachable` is whether it can be read at all.
pub record Latch : Type 0 where
  pub reachable : Bool
  pub reason : Option Text

unfoldable pub disarm_reason : Latch → Option Text
disarm_reason l = if l.reachable then l.reason else some (codes "redis unreachable")

-- What Redis holds of the latch after `disarm`: a write that fails is only logged.
unfoldable pub disarm : Bool → Text → Option Text → Option Text
disarm persists reason stored = if persists then some reason else stored

pub record Budget : Type 0 where
  pub trades_this_hour : ℕ
  pub detector_trades_this_hour : ℕ
  pub daily_risk_cents : ℤ
  pub open_positions : ℕ
  pub working_orders : ℕ
  pub cooldown_until : Option ℕ

abbrev pub is_autonomous : Actor → Bool
is_autonomous autonomous_actor = true
is_autonomous operator = false
is_autonomous system_actor = false

-- `_approved_rows`
abbrev pub approved_on : ExecutionRoute → AuditEvent → Bool
approved_on route (proposal_approved id r detector max_loss) = same_route route r
approved_on route _ = false

abbrev pub approved_row : ExecutionRoute → AuditLog → Bool
approved_row route row = is_autonomous row.actor && approved_on route row.event

abbrev pub by_detector : Text → AuditEvent → Bool
by_detector detector (proposal_approved id r d max_loss) = text_eq detector d
by_detector detector _ = false

abbrev pub risk_of : AuditEvent → ℤ
risk_of (proposal_approved id r d max_loss) = max_loss
risk_of _ = pos 0

-- Within the last hour, and since midnight in UTC.
abbrev pub this_hour : ℕ → AuditLog → Bool
this_hour now row = leb now (row.ts + 3600000000)

abbrev pub this_day : ℕ → AuditLog → Bool
this_day now row = leb (now / 86400000000 * 86400000000) row.ts

abbrev pub sum_risk : (AuditLog → Bool) → List AuditLog → ℤ
sum_risk p [] = pos 0
sum_risk p (row ∷ rest) =
    let others = sum_risk p rest in if p row then risk_of row.event +ℤ others else others

-- `max(AuditLog.ts)`
abbrev pub latest : (AuditLog → Bool) → List AuditLog → Option ℕ
latest p [] = none
latest p (row ∷ rest) =
    let before = latest p rest in
    if p row then some (elim before [ none ↦ row.ts | some t ↦ max row.ts t ]) else before

abbrev pub is_working : OrderStatus → Bool
is_working OrderStatus.pending = true
is_working resting = true
is_working partially_filled = true
is_working _ = false

unfoldable pub budget_state : Store → ExecutionRoute → Text → Text → ℕ → Budget
budget_state s route detector ticker now = record {
  trades_this_hour = count_if (λ row. approved_row route row && this_hour now row) s.audit_log;
  detector_trades_this_hour =
      count_if
        (λ row. approved_row route row && (this_hour now row && by_detector detector row.event))
        s.audit_log;
  daily_risk_cents = sum_risk (λ row. approved_row route row && this_day now row) s.audit_log;
  open_positions = count_if (holds route) s.books.positions;
  working_orders =
      count_if (λ (o : Order). same_route route o.route && is_working o.status) s.orders;
  cooldown_until =
      latest
        (λ row.
          approved_row route row && (by_detector detector row.event && text_eq ticker row.ticker))
        s.audit_log;
}

-- Less than `seconds` have passed since a time.
abbrev pub sooner_than : ℕ → ℕ → ℕ → Bool
sooner_than seconds since now = ltb_ℤ (sub_ℕ now since) (pos (seconds * 1000000))

abbrev pub in_repeat : ℕ → Option ℕ → ℕ → Bool
in_repeat cooldown_sec none now = false
in_repeat cooldown_sec (some last) now =
    if leb cooldown_sec 0 then false else sooner_than cooldown_sec last now

abbrev pub max_loss_of : ProposedTrade → ℤ
max_loss_of p = or_else p.max_loss_cents (pos 0)

-- `_check_budget` with `_check_cooldown`; a ceiling of cents is compared in microcents.
unfoldable pub check_budget : Budget → BudgetConfig → ProposedTrade → ℕ → Outcome Refusal (Unit {0})
check_budget b limits proposal now =
    raise_if (leb limits.max_trades_per_hour b.trades_this_hour) hourly_trade_cap
    >> raise_if (leb limits.max_trades_per_detector_per_hour b.detector_trades_this_hour)
        detector_hourly_cap
    >> raise_if
        (ltb_ℤ (pos (limits.max_daily_risk_cents * 1000000))
          (b.daily_risk_cents +ℤ max_loss_of proposal))
        daily_risk_cap
    >> raise_if (leb limits.max_open_positions b.open_positions) open_position_cap
    >> raise_if (leb limits.max_working_orders b.working_orders) working_order_cap
    >> raise_if (in_repeat limits.repeat_cooldown_sec b.cooldown_until now) repeat_cooldown

-- The lower bound of the interval is missing or not above zero.
abbrev pub not_measured : Option ℤ → Bool
not_measured none = true
not_measured (some low) = leb_ℤ low (pos 0)

-- The checks of `_check_evidence` on the report that was found.
abbrev pub check_report : Evidence → Config → Option DetectorReport → Outcome Refusal DetectorReport
check_report e config none = raise no_report
check_report e config (some report) =
    raise_if (ltb report.trades e.min_trades) insufficient_trades
    >> raise_if
        (config.autonomous.evidence.require_edge_shown && not (is_edge_shown report.verdict))
        Refusal.no_edge_shown
    >> raise_if (not_measured report.ci_low_cents) edge_not_measured
    >> ok report

unfoldable pub check_evidence :
    Option Evidence → Config → Text → ExecutionRoute → ℕ → Outcome Refusal DetectorReport
check_evidence none config detector route now = raise no_evidence
check_evidence (some e) config detector route now =
    raise_if
      (ltb_ℤ (pos (config.autonomous.evidence.max_report_age_sec * 1000000))
        (sub_ℕ now e.computed_at))
      evidence_stale
    >> raise_if (config.autonomous.evidence.require_coverage_usable && not e.coverage_usable)
        coverage_unusable
    >> check_report e config (report_for e detector route)

-- The first half of `evaluate`: is the machine armed, and has a person had the chance to veto?
unfoldable pub check_gate :
    ProposedTrade → Settings → Config → ExecutionRoute → Latch → ℕ → Outcome Refusal (Unit {0})
check_gate proposal settings config route latch now =
    raise_if (not config.autonomous.enabled) autonomy_disabled
    >> raise_if (not settings.autonomous_trading) autonomous_not_armed
    >> raise_if (not (armed_route config.autonomous.routes route)) autonomous_route_not_armed
    >> raise_if (is_live route && not (autonomous_live_armed settings)) autonomous_live_not_armed
    >> raise_if (is_some (given (disarm_reason latch))) disarmed
    >> raise_if (text_eq (strip proposal.source) (codes "manual") || is_nil (strip proposal.source))
        manual_proposal
    >> raise_if
        (sooner_than config.autonomous.min_proposal_age_sec (or_else proposal.created_at now) now)
        veto_window_open

abbrev pub computed : Option Evidence → ℕ → ℕ
computed none now = now
computed (some e) now = e.computed_at

unfoldable pub evaluate :
    Store
    → ProposedTrade
    → Settings
    → Config
    → ExecutionRoute
    → Option Evidence
    → Latch
    → ℕ
    → Outcome Refusal MachineConsent
evaluate s proposal settings config route evidence latch now =
    let detector = strip proposal.source in
    check_gate proposal settings config route latch now
    >> (check_evidence evidence config detector route now >>= λ report.
        check_budget (budget_state s route detector proposal.ticker now) config.autonomous.budget
          proposal now
        >> ok (record {
          proposal_id = proposal.id;
          route = route;
          detector = detector;
          trades = report.trades;
          ci_low_cents = report.ci_low_cents;
          evidence_computed_at = computed evidence now;
          issued_at = now;
        }))
