-- ===== src/Interlocks/Tests.antt =====
-- Runs and instances for backend/app/trading/interlocks.py.
use kalshi_copilot.Base.{◌≡◌, refl, ◌↔◌, true, false, none, some}
use kalshi_copilot.Base.Text.{codes, strip}
use kalshi_copilot.Base.Outcome.{ok, raise}
use kalshi_copilot.Settings.{credentials_present, live, is_prod, confirmation_phrase_mismatch}
use kalshi_copilot.Interlocks.{
  live_exchange, resolve_route, check_machine_consent, check_open, check_route, check_execution,
  posture, is_live,
}
use kalshi_copilot.Samples.{any_file, armed, live_config, proposal, consent}
use kalshi_copilot.Interlocks.Cleared.{Cleared}
use kalshi_copilot.Interlocks.Execution.{check_execution-Cleared}
use kalshi_copilot.Interlocks.Routes.{
  Routed, resolve_route-Routed, machine_live_needs, check_execution-posture, AutonomyShown,
}

-- The operator types the event of a proposal with two legs, in any case.
typed :
    check_execution any_file proposal armed live_config true false none (some (codes " kxinx ")) 800
    ≡ ok live_exchange
unfolding check_execution check_open resolve_route check_route credentials_present strip
typed = refl

misclick :
    check_execution any_file proposal armed live_config true false none none 800
    ≡ raise confirmation_phrase_mismatch
unfolding check_execution check_open resolve_route check_route credentials_present strip
misclick = refl

by_machine :
    check_execution any_file proposal armed live_config false false (some consent) none 800
    ≡ ok live_exchange
unfolding check_execution check_open resolve_route check_route check_machine_consent
    credentials_present strip
by_machine = refl

check_execution-Cleared_example :
    (check_execution any_file proposal armed live_config true false none
        (some (codes " kxinx "))
        800
      ≡ ok live_exchange)
    ↔ Cleared any_file proposal armed live_config true false none
        (some (codes " kxinx "))
        800
        live_exchange
check_execution-Cleared_example =
    check_execution-Cleared any_file proposal armed live_config true false none
      (some (codes " kxinx ")) 800 live_exchange

resolve_route-Routed_example :
    (resolve_route any_file armed live_config ≡ ok live_exchange)
    ↔ Routed any_file armed live_config (ok live_exchange)
resolve_route-Routed_example = resolve_route-Routed any_file armed live_config (ok live_exchange)

machine_live_needs_example :
    (is_prod armed ≡ true)
    × (armed.live_trading ≡ true)
    × (armed.autonomous_trading ≡ true)
    × (live_config.trading.mode ≡ live)
    × (live_config.autonomous.enabled ≡ true)
    × (live_config.autonomous.routes.live_exchange ≡ true)
    × (false ≡ false)
    × (live_config.risk.kill_switch ≡ false)
machine_live_needs_example =
    machine_live_needs any_file proposal armed live_config false false consent none 800 by_machine

check_execution-posture_example :
    ((posture any_file armed live_config).execution_route ≡ some live_exchange)
    × ((posture any_file armed live_config).real_money ≡ is_live live_exchange)
    × ((posture any_file armed live_config).route_blocked_by ≡ none)
    × AutonomyShown (some consent) (posture any_file armed live_config)
check_execution-posture_example =
    check_execution-posture any_file proposal armed live_config false false (some consent) none 800
      live_exchange by_machine
