-- ===== src/Autonomy/Granted.antt =====
-- What the gate of autonomy.py has established when it authorises the machine.
use mathlib.Core.Path.{subst}
use kalshi_copilot.Base.{
  ℕ, ◌+◌, ◌*◌, ◌≤◌, ◌<◌, ◌≡◌, refl, sym, ap, ◌⊎◌, inl, inr, Bool, true, false, not, ◌&&◌, Option,
  none, some, arith, is_some, or_else, ◌==◌,
}
use kalshi_copilot.Base.Int.{ℤ, pos, ◌+ℤ◌, ◌≤ℤ◌, ◌<ℤ◌}
use kalshi_copilot.Base.Text.{Text, codes, text_eq, strip}
use kalshi_copilot.Base.Outcome.{ok, >>_ok, >>=-eq-ok, passed, then_passes, raise_if_ok, ok_inj}
use kalshi_copilot.Settings.{Settings, Config, BudgetConfig}
use kalshi_copilot.Interlocks.{
  ExecutionRoute, same_route, given, ProposedTrade, MachineConsent, out_of_date,
  check_machine_consent,
}
use kalshi_copilot.Store.{Store}
use kalshi_copilot.Autonomy.{
  Verdict, edge_shown, is_edge_shown, DetectorReport, Evidence, report_for, Latch, disarm_reason,
  Budget, budget_state, max_loss_of, check_budget, not_measured, check_report, check_evidence,
  check_gate, evaluate,
}

-- Every ceiling of the budget has room for the trade.
pub record HasRoom (b : Budget) (limits : BudgetConfig) (p : ProposedTrade) : Type 0 where
  pub hour : b.trades_this_hour < limits.max_trades_per_hour
  pub detector_hour : b.detector_trades_this_hour < limits.max_trades_per_detector_per_hour
  pub day : (b.daily_risk_cents +ℤ max_loss_of p) ≤ℤ pos (limits.max_daily_risk_cents * 1000000)
  pub positions : b.open_positions < limits.max_open_positions
  pub orders : b.working_orders < limits.max_working_orders

-- A report that shows an edge: enough trades, and an interval that lies above zero.
pub record ShowsEdge (e : Evidence) (config : Config) (r : DetectorReport) : Type 0 where
  pub enough : e.min_trades ≤ r.trades
  pub verdict : (config.autonomous.evidence.require_edge_shown ≡ false) ⊎ (r.verdict ≡ edge_shown)
  pub above_zero : (low : ℤ) × (r.ci_low_cents ≡ some low) × (pos 0 <ℤ low)

-- The evidence behind a consent: a snapshot that is not too old, of usable coverage unless that is
-- waived, with a report of this detector on this route.
abbrev pub Evidenced : Option Evidence → Config → Text → ExecutionRoute → ℕ → Type 0
Evidenced evidence config detector route now =
    (e : Evidence) × (r : DetectorReport) × (evidence ≡ some e)
    × (report_for e detector route ≡ some r)
    × ShowsEdge e config r
    × (now ≤ e.computed_at + config.autonomous.evidence.max_report_age_sec * 1000000)
    × ((config.autonomous.evidence.require_coverage_usable ≡ false) ⊎ (e.coverage_usable ≡ true))

check_budget-HasRoom :
    (b : Budget) (limits : BudgetConfig) (p : ProposedTrade) (now : ℕ)
    → check_budget b limits p now ≡ ok tt
    → HasRoom b limits p
unfolding check_budget
check_budget-HasRoom b limits p now h =
    let (h₁, cooldown) = passed _ _ _ h in
    let (h₂, working) = passed _ _ _ h₁ in
    let (h₃, open_markets) = passed _ _ _ h₂ in
    let (h₄, risk) = passed _ _ _ h₃ in
    let (h₅, detector) = passed _ _ _ h₄ in
    let hourly = raise_if_ok _ _ h₅ in
    record {
      hour = ground arith;
      detector_hour = ground arith;
      day = ground arith;
      positions = ground arith;
      orders = ground arith;
    }

either_test : (a b : Bool) → (a && not b) ≡ false → (a ≡ false) ⊎ (b ≡ true)
either_test false b h = inl refl
either_test true b h = inr (ground arith)

shown : (v : Verdict) → is_edge_shown v ≡ true → v ≡ edge_shown
shown v h = ground arith

measured : (o : Option ℤ) → not_measured o ≡ false → (low : ℤ) × (o ≡ some low) × (pos 0 <ℤ low)
measured none h = cc
measured (some low) h = (low, refl, ground arith)

check_report-ShowsEdge :
    (e : Evidence) (config : Config) (o : Option DetectorReport) {r : DetectorReport}
    → check_report e config o ≡ ok r
    → (o ≡ some r) × ShowsEdge e config r
check_report-ShowsEdge e config none h = cc
check_report-ShowsEdge e config (some x) {r} h =
    let (checked, named) = >>_ok _ _ h in
    let (h₁, above) = passed _ _ _ checked in
    let (h₂, verdict) = passed _ _ _ h₁ in
    let few = raise_if_ok _ _ h₂ in
    let same : x ≡ r = ok_inj named in
    let edge : ShowsEdge e config x = record {
      enough = ground arith;
      verdict = elim (either_test _ _ verdict) [
        | inl waived ↦ inl waived
        | inr s ↦ inr (shown x.verdict s)
      ];
      above_zero = measured x.ci_low_cents above;
    } in
    (ap some same, subst (ShowsEdge e config) same edge)

check_evidence-Evidenced :
    (evidence : Option Evidence) (config : Config) (detector : Text) (route : ExecutionRoute)
    (now : ℕ) {r : DetectorReport}
    → check_evidence evidence config detector route now ≡ ok r
    → Evidenced evidence config detector route now
unfolding check_evidence
check_evidence-Evidenced none config detector route now h = cc
check_evidence-Evidenced (some e) config detector route now {r} h =
    let (checked, found) = >>_ok _ (check_report e config (report_for e detector route)) h in
    let (old, coverage) = passed _ _ _ checked in
    let stale = raise_if_ok _ _ old in
    let (listed, edge) = check_report-ShowsEdge e config (report_for e detector route) found in
    (e, r, refl, listed, edge, ground arith, either_test _ _ coverage)

-- A consent of the gate, issued at `now`.
pub record Granted (s : Store) (p : ProposedTrade) (settings : Settings) (config : Config)
    (route : ExecutionRoute) (evidence : Option Evidence) (latch : Latch) (now : ℕ)
    (c : MachineConsent) : Type 0 where
  pub passes_interlock : check_machine_consent c settings config p route now ≡ ok tt
  pub not_latched : given (disarm_reason latch) ≡ none
  pub not_manual : text_eq (strip p.source) (codes "manual") ≡ false
  pub veto_window_over :
      or_else p.created_at now + config.autonomous.min_proposal_age_sec * 1000000 ≤ now
  pub evidenced : Evidenced evidence config (strip p.source) route now
  pub has_room :
      HasRoom (budget_state s route (strip p.source) p.ticker now) config.autonomous.budget p

no_reason : (o : Option Text) → is_some o ≡ false → o ≡ none
no_reason none h = refl
no_reason (some t) h = cc

own_subject :
    (c : MachineConsent) (p : ProposedTrade) (route : ExecutionRoute) (now : ℕ)
    → c.proposal_id ≡ p.id
    → c.route ≡ route
    → c.issued_at ≡ now
    → (not (c.proposal_id == p.id) ≡ false)
      × (not (same_route c.route route) ≡ false)
      × (out_of_date c.issued_at now ≡ false)
own_subject c p route now i r t = (ground arith, rw r (reflexive route), rw t (ground arith))
  where
    reflexive : (r : ExecutionRoute) → not (same_route r r) ≡ false
    reflexive r = ground arith

gate_checks :
    (p : ProposedTrade) (settings : Settings) (config : Config) (route : ExecutionRoute)
    (latch : Latch) (now : ℕ) (c : MachineConsent)
    → check_gate p settings config route latch now ≡ ok tt
    → (not (c.proposal_id == p.id) ≡ false)
      × (not (same_route c.route route) ≡ false)
      × (out_of_date c.issued_at now ≡ false)
    → (check_machine_consent c settings config p route now ≡ ok tt)
      × (given (disarm_reason latch) ≡ none)
      × (text_eq (strip p.source) (codes "manual") ≡ false)
      × (or_else p.created_at now + config.autonomous.min_proposal_age_sec * 1000000 ≤ now)
unfolding check_gate check_machine_consent
gate_checks p settings config route latch now c h (subject, own_route, fresh) =
    let (h₁, young) = passed _ _ _ h in
    let (h₂, manual) = passed _ _ _ h₁ in
    let (h₃, latched) = passed _ _ _ h₂ in
    (
      then_passes _ (then_passes _ (then_passes _ h₃ subject) own_route) fresh,
      no_reason (given (disarm_reason latch)) latched,
      ground arith,
      ground arith,
    )

pub evaluate-Granted :
    (s : Store) (p : ProposedTrade) (settings : Settings) (config : Config) (route : ExecutionRoute)
    (evidence : Option Evidence) (latch : Latch) (now : ℕ) {c : MachineConsent}
    → evaluate s p settings config route evidence latch now ≡ ok c
    → Granted s p settings config route evidence latch now c
unfolding evaluate
evaluate-Granted s p settings config route evidence latch now {c} h =
    let (gate, rest) = >>_ok (check_gate p settings config route latch now) _ h in
    let (report, found, spent) =
      >>=-eq-ok (check_evidence evidence config (strip p.source) route now) _ rest in
    let (budget, named) =
      >>_ok
        (check_budget (budget_state s route (strip p.source) p.ticker now) config.autonomous.budget
          p now)
        _ spent in
    let same = ok_inj named in
    let subject =
      own_subject c p route now (sym (ap (λ (x : MachineConsent). x.proposal_id) same))
        (sym (ap (λ (x : MachineConsent). x.route) same))
        (sym (ap (λ (x : MachineConsent). x.issued_at) same)) in
    let (interlock, latched, manual, veto) =
      gate_checks p settings config route latch now c gate subject in
    record {
      passes_interlock = interlock;
      not_latched = latched;
      not_manual = manual;
      veto_window_over = veto;
      evidenced = check_evidence-Evidenced evidence config (strip p.source) route now found;
      has_room = check_budget-HasRoom _ _ p now budget;
    }

-- Some ceiling of the budget is zero.
abbrev pub ZeroCeiling : BudgetConfig → Type 0
ZeroCeiling b =
    (b.max_trades_per_hour ≡ 0)
    ⊎ (b.max_trades_per_detector_per_hour ≡ 0)
    ⊎ (b.max_open_positions ≡ 0)
    ⊎ (b.max_working_orders ≡ 0)

no_room :
    (b : Budget) (limits : BudgetConfig) (p : ProposedTrade)
    → ZeroCeiling limits
    → ¬ (HasRoom b limits p)
no_room b limits p (inl z) r = let room = r.hour in omega arith
no_room b limits p (inr (inl z)) r = let room = r.detector_hour in omega arith
no_room b limits p (inr (inr (inl z))) r = let room = r.positions in omega arith
no_room b limits p (inr (inr (inr z))) r = let room = r.orders in omega arith

-- A ceiling of zero on the trades of an hour, of a detector's hour, on open positions or on working
-- orders refuses every proposal, whatever the evidence.
pub evaluate-ZeroCeiling :
    (s : Store) (p : ProposedTrade) (settings : Settings) (config : Config) (route : ExecutionRoute)
    (evidence : Option Evidence) (latch : Latch) (now : ℕ) (c : MachineConsent)
    → ZeroCeiling config.autonomous.budget
    → ¬ (evaluate s p settings config route evidence latch now ≡ ok c)
evaluate-ZeroCeiling s p settings config route evidence latch now c z h =
    no_room (budget_state s route (strip p.source) p.ticker now) config.autonomous.budget p z
      (evaluate-Granted s p settings config route evidence latch now h).has_room
