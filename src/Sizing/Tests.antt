-- ===== src/Sizing/Tests.antt =====
-- Runs and instances for backend/app/trading/sizing.py.
use kalshi_copilot.Base.{◌≡◌, refl, none, some}
use kalshi_copilot.Base.Int.{pos, ◌-ℤ◌}
use kalshi_copilot.Samples.{live_config}
use kalshi_copilot.Sizing.{full_kelly_fraction, smallest, depth, kelly, recommend_size}

-- A fair value of 60 cents at a cost of 50: a fifth of the bankroll of 1000 dollars, a quarter of it
-- staked, and the book holds 80 contracts.
capped_by_depth :
    (recommend_size (pos 600000) (pos 500000) live_config (some (pos 8000)) none).contracts ≡ 8000
unfolding recommend_size full_kelly_fraction smallest ◌-ℤ◌
capped_by_depth = refl

named_depth :
    (recommend_size (pos 600000) (pos 500000) live_config (some (pos 8000)) none).binding_constraint
    ≡ depth
unfolding recommend_size full_kelly_fraction smallest ◌-ℤ◌
named_depth = refl

no_edge :
    (recommend_size (pos 400000) (pos 500000) live_config none none).binding_constraint ≡ kelly
unfolding recommend_size full_kelly_fraction
no_edge = refl
