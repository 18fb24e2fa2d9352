-- ===== src/Stats/Tests.antt =====
-- Verdicts, and the drawdown of a short curve.
use kalshi_copilot.Base.{◌≡◌, refl, ◌⊎◌, ◌↔◌, ◌≤◌, some, List, [], ◌∷◌}
use kalshi_copilot.Base.Int.{ℤ, pos, ◌≤ℤ◌, ◌-ℤ◌}
use kalshi_copilot.Base.Outcome.{ok}
use kalshi_copilot.Autonomy.{insufficient_evidence, edge_shown}
use kalshi_copilot.Stats.Verdicts.{IsAbove, verdict-edge_shown}
use kalshi_copilot.Stats.{Expectancy, verdict, drawdown_from, max_drawdown}
use kalshi_copilot.Stats.Drawdown.{IsDecline, DeclinesWithin, max_drawdown-IsDecline}

abbrev curve : List ℤ
curve = pos 0 ∷ pos 500 ∷ pos 300 ∷ pos 600 ∷ pos 200 ∷ pos 700 ∷ []

fell_by_400 : max_drawdown curve ≡ pos 400
unfolding max_drawdown drawdown_from ◌-ℤ◌
fell_by_400 = refl

four_trades :
    verdict (record { n = 4; ci_low_cents = some (pos 100); ci_high_cents = some (pos 900) }) 30
    ≡ ok insufficient_evidence
unfolding verdict
four_trades = refl

abbrev forty_trades : Expectancy
forty_trades = record { n = 40; ci_low_cents = some (pos 100); ci_high_cents = some (pos 900) }

shown : verdict forty_trades 30 ≡ ok edge_shown
unfolding verdict
shown = refl

verdict-edge_shown_example :
    (verdict forty_trades 30 ≡ ok edge_shown)
    ↔ ((1 ≤ 30) × (30 ≤ 40) × IsAbove (some (pos 100)) (some (pos 900)))
verdict-edge_shown_example = verdict-edge_shown forty_trades 30

max_drawdown-IsDecline_example :
    (pos 0 ≤ℤ max_drawdown curve)
    × DeclinesWithin (max_drawdown curve) curve
    × ((max_drawdown curve ≡ pos 0) ⊎ IsDecline curve (max_drawdown curve))
max_drawdown-IsDecline_example = max_drawdown-IsDecline curve
