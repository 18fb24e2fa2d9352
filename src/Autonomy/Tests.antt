-- ===== src/Autonomy/Tests.antt =====
-- Runs and instances for backend/app/trading/autonomy.py.
use kalshi_copilot.Base.{true, ◌≡◌, refl, none, some, [], ◌∷◌}
use kalshi_copilot.Base.Int.{pos}
use kalshi_copilot.Base.Text.{codes, strip}
use kalshi_copilot.Base.Outcome.{ok, raise}
use kalshi_copilot.Settings.{no_evidence}
use kalshi_copilot.Interlocks.{MachineConsent, simulated}
use kalshi_copilot.Store.{Store}
use kalshi_copilot.Samples.{measured, unlatched, paper_settings, paper_config, small_trade}
use kalshi_copilot.Autonomy.{
  disarm_reason, budget_state, check_budget, check_evidence, check_gate, evaluate,
}
use kalshi_copilot.Autonomy.Refresh.{unavailable, refresh_evidence, refresh_once, rearm}
use kalshi_copilot.Autonomy.Granted.{Granted}

abbrev quiet : Store
quiet = record {
  books = record { positions = []; pnl_daily = []; settled = [] };
  proposals = small_trade ∷ [];
  legs = [];
  orders = [];
  fills = [];
  audit_log = [];
}

abbrev granted : MachineConsent
granted = record {
  proposal_id = 7;
  route = simulated;
  detector = codes "sniper";
  trades = 40;
  ci_low_cents = some (pos 5);
  evidence_computed_at = 100;
  issued_at = 20000000;
}

unmeasured :
    evaluate quiet small_trade paper_settings paper_config simulated none unlatched 20000000
    ≡ raise no_evidence
unfolding evaluate check_gate check_evidence check_budget budget_state disarm_reason strip
unmeasured = refl

-- A refresh that fails leaves the snapshot that is there.
still_measured :
    refresh_once
      (some measured)
      (record { evidence_min_trades = 0; report_card_min_trades = 30 })
      (λ floor. raise unavailable)
      (ok true)
      20000000
    ≡ (some measured, none)
unfolding refresh_once refresh_evidence
still_measured = refl

rearmed : disarm_reason (rearm (record { reachable = true; reason = some (codes "halt") })).0 ≡ none
unfolding disarm_reason rearm
rearmed = refl
