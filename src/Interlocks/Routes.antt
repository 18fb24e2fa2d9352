-- ===== src/Interlocks/Routes.antt =====
-- Where an order may go by interlocks.py: the routes of a configuration, what the machine needs on the
-- live route, and what the dashboard is told.
use mathlib.Core.Path.{subst}
use kalshi_copilot.Base.{
  ℕ, ◌≡◌, refl, sym, ◌⊎◌, inl, inr, ◌↔◌, Bool, true, false, ◌&&◌, Option, none, some, arith,
  Bool-cases,
}
use kalshi_copilot.Base.Text.{Text}
use kalshi_copilot.Base.Outcome.{Outcome, ok, raise}
use kalshi_copilot.Settings.{
  Settings, Files, is_prod, live_trading_armed, autonomous_live_armed, credentials_present, Mode,
  paper, live, Config, Refusal, live_mode_not_armed,
}
use kalshi_copilot.Interlocks.{
  ExecutionRoute, simulated, demo_exchange, live_exchange, is_live, armed_route, ProposedTrade,
  MachineConsent, resolve_route, check_execution, Posture, posture,
}
use kalshi_copilot.Interlocks.Cleared.{Cleared}
use kalshi_copilot.Interlocks.Execution.{check_execution-Cleared}

-- The route of a configuration, or its refusal, read off the settings.
abbrev pub Routed : Files → Settings → Config → Outcome Refusal ExecutionRoute → Type 0
Routed files s c (ok live_exchange) =
    (c.trading.mode ≡ live) × (is_prod s ≡ true) × (s.live_trading ≡ true)
Routed files s c (ok demo_exchange) =
    (c.trading.mode ≡ paper)
    × (is_prod s ≡ false)
    × (c.trading.paper_uses_demo_exchange ≡ true)
    × (credentials_present files s ≡ true)
Routed files s c (ok simulated) =
    (c.trading.mode ≡ paper)
    × ((is_prod s ≡ true)
        ⊎ (c.trading.paper_uses_demo_exchange ≡ false)
        ⊎ (credentials_present files s ≡ false))
Routed files s c (raise e) =
    (e ≡ live_mode_not_armed) × (c.trading.mode ≡ live) × (live_trading_armed s ≡ false)

Mode-cases : (m : Mode) → (m ≡ live) ⊎ (m ≡ paper)
Mode-cases live = inl refl
Mode-cases paper = inr refl

resolve_route_all :
    (files : Files) (s : Settings) (c : Config) (o : Outcome Refusal ExecutionRoute)
    → Routed files s c o
    → resolve_route files s c ≡ o
unfolding resolve_route
resolve_route_all files s c (ok live_exchange) (mode, on_prod, armed) =
    rw (mode, on_prod, armed) refl
resolve_route_all files s c (ok demo_exchange) (mode, off_prod, wanted, usable) =
    rw (mode, off_prod, wanted, usable) refl
resolve_route_all files s c (ok simulated) (mode, inl on_prod) = rw (mode, on_prod) refl
resolve_route_all files s c (ok simulated) (mode, inr (inl unwanted)) =
    elim (Bool-cases (is_prod s)) [
      | inl on_prod ↦ rw (mode, on_prod) refl
      | inr off_prod ↦ rw (mode, off_prod, unwanted) refl
    ]
resolve_route_all files s c (ok simulated) (mode, inr (inr unusable)) =
    let not_wanted : (c.trading.paper_uses_demo_exchange && credentials_present files s) ≡ false =
      rw unusable (ground arith) in
    elim (Bool-cases (is_prod s)) [
      | inl on_prod ↦ rw (mode, on_prod) refl
      | inr off_prod ↦ rw (mode, off_prod, not_wanted) refl
    ]
resolve_route_all files s c (raise e) (code, mode, unarmed) = rw (code, mode, unarmed) refl

resolve_route_only :
    (files : Files) (s : Settings) (c : Config) → Routed files s c (resolve_route files s c)
resolve_route_only files s c =
    let decided = λ (o : Outcome Refusal ExecutionRoute) (w : Routed files s c o).
      subst (Routed files s c) (sym (resolve_route_all files s c o w)) w in
    elim (Mode-cases c.trading.mode) [
      | inl mode ↦ elim (Bool-cases (live_trading_armed s)) [
        | inl armed ↦ decided (ok live_exchange) (mode, ground arith, ground arith)
        | inr unarmed ↦ decided (raise live_mode_not_armed) (refl, mode, unarmed)
      ]
      | inr mode ↦ elim (Bool-cases (is_prod s)) [
        | inl on_prod ↦ decided (ok simulated) (mode, inl on_prod)
        | inr off_prod ↦ elim (Bool-cases c.trading.paper_uses_demo_exchange) [
          | inr unwanted ↦ decided (ok simulated) (mode, inr (inl unwanted))
          | inl wanted ↦ elim (Bool-cases (credentials_present files s)) [
            | inl usable ↦ decided (ok demo_exchange) (mode, off_prod, wanted, usable)
            | inr unusable ↦ decided (ok simulated) (mode, inr (inr unusable))
          ]
        ]
      ]
    ]

-- An order goes to the live exchange exactly in live mode on the production environment with
-- LIVE_TRADING set, to the demo exchange exactly in paper mode off production with the demo exchange
-- wanted and its credentials usable, and to the simulator in every other paper configuration; the one
-- refusal is of live mode that is not armed.
pub resolve_route-Routed :
    (files : Files) (s : Settings) (c : Config) (o : Outcome Refusal ExecutionRoute)
    → (resolve_route files s c ≡ o) ↔ Routed files s c o
resolve_route-Routed files s c o =
    (λ h. subst (Routed files s c) h (resolve_route_only files s c), resolve_route_all files s c o)

-- An order that the machine sends to the live exchange needs all of: the production environment,
-- LIVE_TRADING, AUTONOMOUS_TRADING, live mode, autonomy enabled, its live route armed, and no kill
-- switch.
pub machine_live_needs :
    (files : Files) (p : ProposedTrade) (s : Settings) (c : Config) (confirmed kill_switch : Bool)
    (consent : MachineConsent) (phrase : Option Text) (now : ℕ)
    → check_execution files p s c confirmed kill_switch (some consent) phrase now ≡ ok live_exchange
    → (is_prod s ≡ true)
      × (s.live_trading ≡ true)
      × (s.autonomous_trading ≡ true)
      × (c.trading.mode ≡ live)
      × (c.autonomous.enabled ≡ true)
      × (c.autonomous.routes.live_exchange ≡ true)
      × (kill_switch ≡ false)
      × (c.risk.kill_switch ≡ false)
machine_live_needs files p s c confirmed kill_switch consent phrase now h =
    let cleared =
      (check_execution-Cleared files p s c confirmed kill_switch (some consent) phrase now
          live_exchange).0
        h in
    let m = cleared.authorised.1 in
    let (mode, prod, armed) =
      (resolve_route-Routed files s c (ok live_exchange)).0 cleared.own_route in
    (
      prod, armed, m.environment_armed, mode, m.enabled, m.route_armed, cleared.runtime_switch_off,
      cleared.config_switch_off,
    )

-- The dashboard is told that autonomy is configured wherever the machine may act.
abbrev pub AutonomyShown : Option MachineConsent → Posture → Type 0
AutonomyShown none shown = Unit
AutonomyShown (some c) shown = shown.autonomy_configured ≡ true

posture_of_route :
    (files : Files) (s : Settings) (c : Config) (r : ExecutionRoute)
    → resolve_route files s c ≡ ok r
    → posture files s c ≡ record {
      execution_route = some r;
      route_blocked_by = none;
      real_money = is_live r;
      autonomy_route_armed = armed_route c.autonomous.routes r;
      autonomy_live_armed = autonomous_live_armed s;
      autonomy_configured =
          c.autonomous.enabled && s.autonomous_trading && armed_route c.autonomous.routes r;
    }
unfolding posture
posture_of_route files s c r h = rw h refl

autonomy_shown :
    (files : Files) (p : ProposedTrade) (s : Settings) (c : Config) (confirmed kill_switch : Bool)
    (consent : Option MachineConsent) (phrase : Option Text) (now : ℕ) (r : ExecutionRoute)
    → Cleared files p s c confirmed kill_switch consent phrase now r
    → AutonomyShown consent (posture files s c)
autonomy_shown files p s c confirmed kill_switch none phrase now r h = tt
autonomy_shown files p s c confirmed kill_switch (some consent) phrase now r h =
    let m = h.authorised.1 in
    rw (posture_of_route files s c r h.own_route, m.enabled, m.environment_armed, m.route_armed)
      refl

-- The dashboard never understates what an approval can do: the route of any cleared approval is the
-- one it shows, as real money exactly on the live route, and with autonomy shown as configured where
-- the approval is the machine's.
pub check_execution-posture :
    (files : Files) (p : ProposedTrade) (s : Settings) (c : Config) (confirmed kill_switch : Bool)
    (consent : Option MachineConsent) (phrase : Option Text) (now : ℕ) (r : ExecutionRoute)
    → check_execution files p s c confirmed kill_switch consent phrase now ≡ ok r
    → ((posture files s c).execution_route ≡ some r)
      × ((posture files s c).real_money ≡ is_live r)
      × ((posture files s c).route_blocked_by ≡ none)
      × AutonomyShown consent (posture files s c)
check_execution-posture files p s c confirmed kill_switch consent phrase now r h =
    let cleared =
      (check_execution-Cleared files p s c confirmed kill_switch consent phrase now r).0 h in
    let shown = posture_of_route files s c r cleared.own_route in
    (
      rw shown refl,
      rw shown refl,
      rw shown refl,
      autonomy_shown files p s c confirmed kill_switch consent phrase now r cleared,
    )
